-- ===== src/Dgemm/Programs.antt =====
-- The loops of the two DGEMM programs: `main` of src/master_bench.c behind the enrollment, and `main` of
-- src/worker_bench.c from its first command on. Messages are typed; `none` is a receive that returned -1.
pub mod Runs
pub mod Session
use distributed_enclave.Common.{
  ℕ, zero, suc, ◌+◌, ◌*◌, ◌/◌, ◌%◌, Bool, true, false, not, ◌||◌, ◌&&◌, ltb, leb, ◌==◌, length,
}
use distributed_enclave.Common.{List, [], ◌∷◌, ◌++◌, Option, none, some, if◌then◌else◌, fill}
use distributed_enclave.Workload.Doubles.{Doubles}
use distributed_enclave.Workload.Sends.{to_all}
use distributed_enclave.Dgemm.{
  int_max, cmd_bench_size, BenchCmd, bench_size_cmd, bench_cmd_ok, a_block, bench_worker_run,
  bench_run,
}

abbrev pub cmd_bench_done : ℕ
cmd_bench_done = 2

abbrev pub max_bench_results : ℕ
max_bench_results = 32 * 1000

pub data BenchOut (D : Type 0) : Type 0 where
  bench_command : BenchCmd → BenchOut D
  bench_a : List D → BenchOut D
  bench_b : List D → BenchOut D

-- `memset(&cmd, 0, sizeof cmd); cmd.cmd = CMD_BENCH_DONE;`
abbrev pub bench_done_cmd : BenchCmd
bench_done_cmd = record {
  cmd = cmd_bench_done;
  matrix_size = 0;
  row_start = 0;
  row_count = 0;
  encrypt_data = 0;
  num_runs = 0;
}

-- A row of the table, less its times.
pub record BenchResult : Type 0 where
  pub matrix_size : ℕ
  pub num_workers : ℕ
  pub encrypted : Bool
  pub run : ℕ

-- The results, or MPI_Abort.
pub data BenchEnd : Type 0 where
  bench_complete : List BenchResult → BenchEnd
  bench_aborted : BenchEnd

abbrev pub BenchSending : Type 0 → Type 0
BenchSending D = List (ℕ × BenchOut D) × BenchEnd

abbrev pub after_bench_sends :
    {D : Type 0} → List (ℕ × BenchOut D) → BenchSending D → BenchSending D
after_bench_sends sends (more, ending) = (sends ++ more, ending)

-- A row is dropped when the table is full.
unfoldable pub record_bench : ℕ → ℕ → Bool → ℕ → List BenchResult → List BenchResult
record_bench m nworkers encrypt run rows =
    if leb max_bench_results (length rows)
    then rows
    else rows
      ++ record { matrix_size = m; num_workers = nworkers; encrypted = encrypt; run = run } ∷ []

-- The options, the matrices of a size (`none` if a malloc fails), and the answers for a size, a run and
-- a worker, each with the test of its time.
pub record Bench (D : Type 0) : Type 0 where
  pub nworkers : ℕ
  pub encrypt : Bool
  pub verify : Bool
  pub num_runs : ℕ
  pub matrices : ℕ → Option (List D × List D)
  pub answers : ℕ → ℕ → ℕ → Option (List D × Bool)

module _ {D : Type 0} (ops : Doubles D) (bench : Bench D) where
  abbrev pub size_cmd : ℕ → ℕ → BenchCmd
  size_cmd m w = bench_size_cmd m bench.nworkers bench.encrypt bench.num_runs w

  -- `send_matrix` of the block and of `B` for each worker from `w` on.
  unfoldable pub scatter : ℕ → List D → List D → ℕ → ℕ → List (ℕ × BenchOut D)
  scatter m a b zero w = []
  scatter m a b (suc left) w =
      (w, bench_a (a_block ops a m (size_cmd m w))) ∷ (w, bench_b b) ∷ scatter m a b left (w + 1)

  -- The loop over the runs of a size, from `run` on: what is sent, and the table, or MPI_Abort.
  unfoldable pub bench_runs :
      ℕ
      → List D
      → List D
      → ℕ
      → ℕ
      → List BenchResult
      → List (ℕ × BenchOut D) × Option (List BenchResult)
  bench_runs m a b zero run rows = ([], some rows)
  bench_runs m a b (suc left) run rows =
      let sends = scatter m a b bench.nworkers 0 in
      elim (bench_run ops a b m bench.nworkers (bench.verify && (run == bench.num_runs))
        (bench.answers m run)) [
          | none ↦ (sends, none)
          | some c ↦
              (let (more, table) =
                  bench_runs m a b left (run + 1)
                    (record_bench m bench.nworkers bench.encrypt run rows) in
                (sends ++ more, table))
        ]

  -- The commands and runs of a size.
  unfoldable pub bench_size :
      ℕ → List D → List D → List BenchResult → List (ℕ × BenchOut D) × Option (List BenchResult)
  bench_size m a b rows =
      let (sends, table) = bench_runs m a b bench.num_runs 1 rows in
      (fill (λ w. (w, bench_command (size_cmd m w))) 0 bench.nworkers ++ sends, table)

  -- A size is left out if the workers do not divide it, if its matrices are too large for MPI, or if
  -- there is no memory for them.
  abbrev pub matrices_of : ℕ → Option (List D × List D)
  matrices_of m =
      if not (m % bench.nworkers == 0) || ltb int_max (m * m) then none else bench.matrices m

  -- The loop over the sizes, and the shutdown.
  unfoldable pub bench_sizes : List ℕ → List BenchResult → BenchSending D
  bench_sizes [] rows = (to_all bench.nworkers (bench_command bench_done_cmd), bench_complete rows)
  bench_sizes (m ∷ sizes) rows = elim (matrices_of m) [
    | none ↦ bench_sizes sizes rows
    | some (a, b) ↦
        (let (sends, table) = bench_size m a b rows in
          elim table [
            | none ↦ (sends, bench_aborted)
            | some rows' ↦ after_bench_sends sends (bench_sizes sizes rows')
          ])
  ]

-- How the worker ends: it leaves its loop over the commands, MPI_Abort, or it still waits.
pub data BenchWorkerEnd : Type 0 where
  bench_done : BenchWorkerEnd
  bench_receive_failed : BenchWorkerEnd
  unknown_command : BenchWorkerEnd
  invalid_bench_command : BenchWorkerEnd
  bench_aborts : BenchWorkerEnd
  bench_waiting : BenchWorkerEnd

-- What the worker waits for: a command, or in a run with `left` runs behind it the block or `B`.
pub data BenchState (D : Type 0) : Type 0 where
  wants_command : BenchState D
  wants_a : BenchCmd → ℕ → BenchState D
  wants_b : BenchCmd → ℕ → List D → BenchState D

abbrev pub next_run : {D : Type 0} → BenchCmd → ℕ → BenchState D
next_run cmd zero = wants_command
next_run cmd (suc left) = wants_a cmd left

module _ {D : Type 0} (ops : Doubles D) where
  abbrev pub push_block : List D → List (List D) × BenchWorkerEnd → List (List D) × BenchWorkerEnd
  push_block block (blocks, ending) = (block ∷ blocks, ending)

  -- The loops over the commands and runs: the blocks that are sent back, and the end. `allocated`
  -- says for a command whether `allocate_matrix` succeeds for its three matrices.
  unfoldable pub bench_worker :
      (BenchCmd → Bool) → BenchState D → List (Option (BenchOut D)) → List (List D) × BenchWorkerEnd
  bench_worker allocated s [] = ([], bench_waiting)
  bench_worker allocated wants_command (none ∷ messages) = ([], bench_receive_failed)
  bench_worker allocated wants_command (some (bench_command cmd) ∷ messages) =
      elim (cmd.cmd == cmd_bench_done) [
        | true ↦ ([], bench_done)
        | false ↦ elim (cmd.cmd == cmd_bench_size) [
          | false ↦ ([], unknown_command)
          | true ↦ elim (bench_cmd_ok cmd) [
            | false ↦ ([], invalid_bench_command)
            | true ↦ elim (allocated cmd) [
              | false ↦ ([], bench_aborts)
              | true ↦ bench_worker allocated (next_run cmd cmd.num_runs) messages
            ]
          ]
        ]
      ]
  bench_worker allocated wants_command (some _ ∷ messages) = ([], bench_waiting)
  bench_worker allocated (wants_a cmd left) (none ∷ messages) = ([], bench_aborts)
  bench_worker allocated (wants_a cmd left) (some (bench_a block) ∷ messages) =
      elim (length block == cmd.row_count * cmd.matrix_size) [
        | false ↦ ([], bench_aborts)
        | true ↦ bench_worker allocated (wants_b cmd left block) messages
      ]
  bench_worker allocated (wants_a cmd left) (some _ ∷ messages) = ([], bench_waiting)
  bench_worker allocated (wants_b cmd left block) (none ∷ messages) = ([], bench_aborts)
  bench_worker allocated (wants_b cmd left block) (some (bench_b b) ∷ messages) =
      elim (bench_worker_run ops cmd block b) [
        | none ↦ ([], bench_aborts)
        | some c ↦ push_block c (bench_worker allocated (next_run cmd left) messages)
      ]
  bench_worker allocated (wants_b cmd left block) (some _ ∷ messages) = ([], bench_waiting)
