-- ===== src/Workload.antt =====
-- What the workloads STREAM, RANDOM, VMAP and TASKQ share: the commands, the report that a worker is
-- ready, the loops over runs and workers, and the table of results, in src/master_npb.c and
-- src/worker_npb.c. Messages are typed; `none` in the place of one is a receive that returned -1.
pub mod Doubles
pub mod Sends
pub mod Loops
pub mod Stream
pub mod Vmap
pub mod Pointers
pub mod Tasks
pub mod Within
pub mod Numbers
mod Tests
use distributed_enclave.Common.{
  ℕ, zero, suc, ◌+◌, ◌*◌, ◌/◌, ◌^◌, Bool, true, false, not, ◌||◌, ltb, leb, ◌==◌, length,
}
use distributed_enclave.Common.{List, [], ◌∷◌, ◌++◌, Option, none, some, if◌then◌else◌, fill}
pub use Sends.{to_all}
use distributed_enclave.Taskq.Worker.{Incoming}

abbrev pub cmd_npb_start : ℕ
cmd_npb_start = 1

abbrev pub cmd_npb_done : ℕ
cmd_npb_done = 3

abbrev pub workload_ep : ℕ
workload_ep = 1

abbrev pub workload_cg : ℕ
workload_cg = 2

abbrev pub workload_stream : ℕ
workload_stream = 3

abbrev pub workload_random : ℕ
workload_random = 4

abbrev pub workload_vmap : ℕ
workload_vmap = 5

abbrev pub workload_taskq : ℕ
workload_taskq = 6

abbrev pub max_runs : ℕ
max_runs = 1000

abbrev pub max_results : ℕ
max_results = max_runs * 4

pub record NpbCmd : Type 0 where
  pub cmd : ℕ
  pub workload : ℕ
  pub encrypt_data : Bool
  pub num_runs : ℕ
  pub ep_pairs : ℕ
  pub cg_rows : ℕ
  pub cg_row_start : ℕ
  pub cg_row_count : ℕ
  pub cg_n : ℕ
  pub cg_nzpc : ℕ
  pub cg_iters : ℕ
  pub stream_array_mib : ℕ
  pub stream_warmup : ℕ
  pub random_mib : ℕ
  pub random_accesses : ℕ
  pub random_warmup_accesses : ℕ
  pub vmap_mib : ℕ
  pub task_bytes : ℕ
  pub task_count : ℕ
  pub task_iters : ℕ

-- `struct npb_cmd cmd = {0};`
abbrev pub zero_cmd : NpbCmd
zero_cmd = record {
  cmd = 0;
  workload = 0;
  encrypt_data = false;
  num_runs = 0;
  ep_pairs = 0;
  cg_rows = 0;
  cg_row_start = 0;
  cg_row_count = 0;
  cg_n = 0;
  cg_nzpc = 0;
  cg_iters = 0;
  stream_array_mib = 0;
  stream_warmup = 0;
  random_mib = 0;
  random_accesses = 0;
  random_warmup_accesses = 0;
  vmap_mib = 0;
  task_bytes = 0;
  task_count = 0;
  task_iters = 0;
}

pub record WorkloadReady : Type 0 where
  pub workload : ℕ
  pub ok : Bool
  pub element_count : ℕ

unfoldable pub send_workload_ready : ℕ → Bool → ℕ → WorkloadReady
send_workload_ready workload ok element_count = record {
  workload = workload;
  ok = ok;
  element_count = element_count;
}

-- The condition of the loop of `wait_for_workload_ready`, for the report of one worker.
abbrev pub ready_ok : ℕ → ℕ → Option WorkloadReady → Bool
ready_ok workload expected_count none = false
ready_ok workload expected_count (some ready) = not (
    not (ready.workload == workload)
    || (not ready.ok || not (ready.element_count == expected_count)))

-- From worker `worker` on; true is the result 0.
unfoldable pub wait_for_workload_ready : ℕ → ℕ → (ℕ → Option WorkloadReady) → ℕ → ℕ → Bool
wait_for_workload_ready workload expected_count reports zero worker = true
wait_for_workload_ready workload expected_count reports (suc left) worker =
    let rest = wait_for_workload_ready workload expected_count reports left (worker + 1) in
    if not (ready_ok workload expected_count (reports worker)) then false else rest

-- A row of the table of results, less its times and the parameters of EP and CG.
pub record NpbResult : Type 0 where
  pub workload : ℕ
  pub num_workers : ℕ
  pub encrypted : Bool
  pub run : ℕ

-- The rows so far are `g_results[0..g_nresults)`; `none` is MPI_Abort.
unfoldable pub record_generic_result : ℕ → ℕ → Bool → ℕ → List NpbResult → Option (List NpbResult)
record_generic_result workload nworkers encrypt run rows =
    if leb max_results (length rows)
    then none
    else some (
        rows
        ++ record { workload = workload; num_workers = nworkers; encrypted = encrypt; run = run }
          ∷ [])

-- In the EP and CG parts a row is dropped when the table is full.
unfoldable pub record_if_room : ℕ → ℕ → Bool → ℕ → List NpbResult → List NpbResult
record_if_room workload nworkers encrypt run rows =
    if leb max_results (length rows)
    then rows
    else rows
      ++ record { workload = workload; num_workers = nworkers; encrypted = encrypt; run = run } ∷ []

-- What the master sends. A task of the queue comes with the input behind it.
pub data Out (D : Type 0) : Type 0 where
  command : NpbCmd → Out D
  stream_run : ℕ → Out D
  random_run_trigger : ℕ → Out D
  vmap_input : List D → Out D
  ep_seed : ℕ → Out D
  cg_rowptr : List ℕ → Out D
  cg_colidx : List ℕ → Out D
  cg_val : List D → Out D
  cg_x : List D → Out D
  taskq_control : ℕ → ℕ → Out D
  taskq_task : Incoming → Out D

-- How the part of the master for a workload ends: result 0 with the table of results, result -1, or
-- MPI_Abort because the table is full.
pub data MasterEnd : Type 0 where
  complete : List NpbResult → MasterEnd
  refused : MasterEnd
  exhausted : MasterEnd
  -- The polling loop of TASKQ wants more passes.
  polling : MasterEnd

-- What is sent to which worker, in order, before the end.
abbrev pub Sending : Type 0 → Type 0
Sending D = List (ℕ × Out D) × MasterEnd

abbrev pub after_sends : {D : Type 0} → List (ℕ × Out D) → Sending D → Sending D
after_sends sends (more, ending) = (sends ++ more, ending)

module _ {R S : Type 0} where
  -- The receives and checks of one run, from worker `worker` on. `check` gives the variables behind
  -- one worker's result, or `none` if a condition fails.
  unfoldable pub gather_loop : (S → ℕ → Option R → Option S) → (ℕ → Option R) → ℕ → ℕ → S → Option S
  gather_loop check answers zero worker s = some s
  gather_loop check answers (suc left) worker s = elim (check s worker (answers worker)) [
    | none ↦ none
    | some s' ↦ gather_loop check answers left (worker + 1) s'
  ]

module _ {D R S : Type 0} where
  -- The loop over the runs from `run` on.
  unfoldable pub master_loop :
      ℕ
      → ℕ
      → Bool
      → (ℕ → Out D)
      → (ℕ → S → ℕ → Option R → Option S)
      → S
      → (ℕ → ℕ → Option R)
      → ℕ
      → ℕ
      → List NpbResult
      → Sending D
  master_loop workload nworkers encrypt message check initial answers zero run rows =
      ([], complete rows)
  master_loop workload nworkers encrypt message check initial answers (suc left) run rows =
      after_sends (to_all nworkers (message run))
        (elim (gather_loop (check run) (answers run) nworkers 0 initial) [
          | none ↦ ([], refused)
          | some s ↦ elim (record_generic_result workload nworkers encrypt run rows) [
            | none ↦ ([], exhausted)
            | some rows' ↦
                master_loop workload nworkers encrypt message check initial answers left (run + 1)
                  rows'
          ]
        ])

-- How the worker's function for a workload ends: result 0 with the messages behind it, result -1, or
-- it still waits for a message.
pub data WorkerEnd (D : Type 0) : Type 0 where
  served : List (Option (Out D)) → WorkerEnd D
  failed : WorkerEnd D
  waiting : WorkerEnd D

-- What the worker makes of the message of a run: an answer, result -1, or nothing, because its
-- receive waits for another tag.
pub data Heard (R : Type 0) : Type 0 where
  answer : R → Heard R
  fails : Heard R
  other_tag : Heard R

module _ {D R : Type 0} where
  abbrev pub push_result : R → List R × WorkerEnd D → List R × WorkerEnd D
  push_result result (results, ending) = (result ∷ results, ending)

  abbrev pub results_before : List R → List R × WorkerEnd D → List R × WorkerEnd D
  results_before first (results, ending) = (first ++ results, ending)

  -- The loop over the runs from `run` on. A receive that returned -1 fails.
  unfoldable pub worker_loop :
      (ℕ → Out D → Heard R) → ℕ → ℕ → List (Option (Out D)) → List R × WorkerEnd D
  worker_loop respond zero run messages = ([], served messages)
  worker_loop respond (suc left) run [] = ([], waiting)
  worker_loop respond (suc left) run (none ∷ messages) = ([], failed)
  worker_loop respond (suc left) run (some message ∷ messages) = elim (respond run message) [
    | fails ↦ ([], failed)
    | other_tag ↦ ([], waiting)
    | answer result ↦ push_result result (worker_loop respond left (run + 1) messages)
  ]
