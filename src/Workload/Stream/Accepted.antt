-- ===== src/Workload/Stream/Accepted.antt =====
-- What the master knows behind the workload STREAM.
use distributed_enclave.Common.{ℕ, ◌*◌, ◌/◌, ◌≤◌, ◌<◌, ◌≡◌, arith, Bool, true}
use distributed_enclave.Common.{List, ◌++◌, Option, none, some}
use distributed_enclave.Random.{mib_bytes}
use distributed_enclave.Workload.{
  workload_stream, WorkloadReady, wait_for_workload_ready, NpbResult, stream_run, complete,
}
use distributed_enclave.Workload.Doubles.{Doubles}
use distributed_enclave.Workload.Loops.{
  gather_loop-passed, rows_of, started-accepted, master_loop-accepted,
}
use distributed_enclave.Workload.Stream.{
  StreamResult, stream_cmd, stream_max_mib, stream_check, run_stream_master,
}
use distributed_enclave.Workload.Stream.Session.{checked_mib_bytes_fits}

-- What holds of an accepted result.
abbrev pub StreamAccepted : {D : Type 0} → Doubles D → D → ℕ → Option (StreamResult D) → Type 0
StreamAccepted ops expected run none = ⊥
StreamAccepted ops expected run (some result) =
    (result.run ≡ run)
    × (result.verified ≡ true)
    × (result.time_ok ≡ true)
    × (ops.eq result.checksum expected ≡ true)

module _ {D : Type 0} (ops : Doubles D) where
  stream_check-StreamAccepted :
      (expected : D) (run w : ℕ) (s after : Unit {0}) (answer : Option (StreamResult D))
      → stream_check ops expected run s w answer ≡ some after
      → StreamAccepted ops expected run answer
  unfolding stream_check
  stream_check-StreamAccepted expected run w s after none e = absurd (ground arith)
  stream_check-StreamAccepted expected run w s after (some result) e =
      (ground arith, ground arith, ground arith, ground arith)

  -- When the master comes to the end of the workload STREAM, whatever the workers sent: every worker's
  -- result for every run names this run, is marked as verified, has a time in order and the sum that
  -- the master computes itself, and the table has one new row for each run, in order.
  pub run_stream_master_sound :
      (nworkers num_runs array_mib warmup : ℕ) (encrypt : Bool) (reports : ℕ → Option WorkloadReady)
      (answers : ℕ → ℕ → Option (StreamResult D)) (rows rows' : List NpbResult)
      → array_mib ≤ stream_max_mib
      → (run_stream_master ops nworkers encrypt num_runs array_mib warmup reports answers rows).1
        ≡ complete rows'
      → (rows' ≡ rows ++ rows_of workload_stream nworkers encrypt 1 num_runs)
        × ((run w : ℕ)
            → 1 ≤ run
            → run ≤ num_runs
            → w < nworkers
            → StreamAccepted ops
                (ops.mul (ops.from_nat 7) (ops.from_nat (array_mib * mib_bytes / 8)))
                run
                (answers run w))
  unfolding run_stream_master
  run_stream_master_sound nworkers num_runs array_mib warmup encrypt reports answers rows rows' high
        e =
      let expected = ops.mul (ops.from_nat 7) (ops.from_nat (array_mib * mib_bytes / 8)) in
      let fits = checked_mib_bytes_fits array_mib (omega (arith, high)) in
      let all_ready =
        wait_for_workload_ready workload_stream (array_mib * mib_bytes / 8) reports nworkers 0 in
      let (ready, runs) =
        started-accepted {D = D} workload_stream nworkers encrypt stream_run
          (stream_check ops expected) tt answers (stream_cmd encrypt num_runs array_mib warmup)
          all_ready num_runs rows rows' (rw (run_stream_master, fits) at e) in
      let (table, passed) =
        master_loop-accepted {D = D} workload_stream nworkers encrypt stream_run
          (stream_check ops expected) tt answers num_runs 1 rows rows' runs in
      (
        table,
        λ run w some_run last known.
            let (s, gathered) = passed run some_run (omega (arith, last)) in
            let (before, after, checked) =
              gather_loop-passed (stream_check ops expected run) (answers run) nworkers 0 tt s
                gathered w (omega arith) (omega (arith, known)) in
            stream_check-StreamAccepted expected run w before after (answers run w) checked,
      )
