-- ===== src/Ep/Rounds.antt =====
-- The rounds of the EP workload: `main` of src/master_npb.c sends a seed to each worker in each run and
-- checks the counts that come back; `main` of src/worker_npb.c counts.
pub mod Session
pub mod Within
pub mod Seeds
use distributed_enclave.Common.{ℕ, zero, suc, ◌+◌, ◌*◌, Bool, true, false, not, ◌||◌, leb, length}
use distributed_enclave.Common.{
  List, [], ◌∷◌, ◌++◌, Option, none, some, if◌then◌else◌, fill, replicate,
}
use distributed_enclave.Common.Int.{ℤ, pos}
use distributed_enclave.Ep.{
  ep_bins, ep_compute, Gathered, totals, invalid, overflow, gather_results,
}
use distributed_enclave.Workload.{
  NpbCmd, zero_cmd, cmd_npb_start, workload_ep, NpbResult, record_if_room, Out, command, ep_seed,
  MasterEnd, complete, refused, Sending, after_sends, to_all, WorkerEnd, served, waiting,
  push_result,
}

abbrev pub ep_cmd : Bool → ℕ → ℕ → NpbCmd
ep_cmd encrypt num_runs ep_n = record zero_cmd {
  cmd = cmd_npb_start;
  workload = workload_ep;
  encrypt_data = encrypt;
  num_runs = num_runs;
  ep_pairs = ep_n;
}

-- What the master gets from one worker in one run; `sums_finite` is about `sx` and `sy`.
pub record EpReply : Type 0 where
  pub counts : List ℤ
  pub sums_finite : Bool
  pub time_ok : Bool

-- `int64_t seed = (int64_t)run * nworkers + w;`
abbrev pub seed_of : ℕ → ℕ → ℕ → ℕ
seed_of nworkers run w = run * nworkers + w

-- The results of all workers, when all are received and all times are in order. Each failure ends the
-- process, so that it does not matter which one comes first.
unfoldable pub received : List (Option EpReply) → Option (List (List ℤ × Bool))
received [] = some []
received (none ∷ replies) = none
received (some reply ∷ replies) = elim (received replies) [
  | none ↦ none
  | some results ↦
      if not reply.time_ok then none else some ((reply.counts, reply.sums_finite) ∷ results)
]

-- Behind the gathering of a run: `none` is MPI_Abort.
abbrev pub gathered_run : ℕ → Option (List (List ℤ × Bool)) → Option (List ℕ)
gathered_run ep_n none = none
gathered_run ep_n (some results) = elim (gather_results ep_n results (replicate ep_bins 0)) [
  | totals sums ↦ some sums
  | invalid ↦ none
  | overflow ↦ none
]

module _ {D : Type 0} where
  -- The loop over the runs; `refused` is MPI_Abort.
  unfoldable pub ep_runs :
      ℕ → Bool → ℕ → (ℕ → ℕ → Option EpReply) → ℕ → ℕ → List NpbResult → Sending D
  ep_runs nworkers encrypt ep_n answers zero run rows = ([], complete rows)
  ep_runs nworkers encrypt ep_n answers (suc left) run rows =
      after_sends (fill (λ w. (w, ep_seed (seed_of nworkers run w))) 0 nworkers)
        (elim (gathered_run ep_n (received (fill (answers run) 0 nworkers))) [
          | none ↦ ([], refused)
          | some sums ↦
              ep_runs nworkers encrypt ep_n answers left (run + 1)
                (record_if_room workload_ep nworkers encrypt run rows)
        ])

  unfoldable pub run_ep_master :
      ℕ → Bool → ℕ → ℕ → (ℕ → ℕ → Option EpReply) → List NpbResult → Sending D
  run_ep_master nworkers encrypt num_runs ep_n answers rows =
      after_sends (to_all nworkers (command (ep_cmd encrypt num_runs ep_n)))
        (ep_runs nworkers encrypt ep_n answers num_runs 1 rows)

  -- The worker's loop over the runs. A receive that returned -1 leaves the loop, and the worker goes
  -- on to its next command. `bin` is the part of the kernel that is computed with doubles.
  unfoldable pub ep_worker_loop :
      (ℕ → ℕ → ℕ) → ℕ → ℕ → List (Option (Out D)) → List (List ℕ) × WorkerEnd D
  ep_worker_loop bin ep_pairs zero messages = ([], served messages)
  ep_worker_loop bin ep_pairs (suc left) [] = ([], waiting)
  ep_worker_loop bin ep_pairs (suc left) (none ∷ messages) = ([], served messages)
  ep_worker_loop bin ep_pairs (suc left) (some (ep_seed seed) ∷ messages) =
      push_result (ep_compute bin ep_pairs (pos seed)) (ep_worker_loop bin ep_pairs left messages)
  ep_worker_loop bin ep_pairs (suc left) (some _ ∷ messages) = ([], waiting)
