-- ===== src/Workload/Stream.antt =====
-- The workload STREAM: `run_stream_master` of src/master_npb.c and `run_stream_workload` of
-- src/worker_npb.c.
pub mod Session
pub mod Accepted
use distributed_enclave.Common.{
  ℕ, zero, suc, ◌+◌, ◌*◌, ◌/◌, ◌%◌, Bool, true, false, not, ◌||◌, ◌&&◌, ltb, ◌==◌,
}
use distributed_enclave.Common.{List, [], ◌∷◌, Option, none, some, if◌then◌else◌, replicate}
use distributed_enclave.Random.{checked_mib_bytes}
use distributed_enclave.Workload.{
  NpbCmd, zero_cmd, cmd_npb_start, workload_stream, WorkloadReady, send_workload_ready,
  wait_for_workload_ready, NpbResult, Out, command, stream_run, random_run_trigger, vmap_input,
  Sending, refused, after_sends, to_all, master_loop, WorkerEnd, failed, Heard, answer, fails,
  other_tag, worker_loop,
}
use distributed_enclave.Workload.Doubles.{Doubles}

abbrev pub stream_min_mib : ℕ
stream_min_mib = 1

abbrev pub stream_max_mib : ℕ
stream_max_mib = 128

-- `time_ok` says that `compute_ms` is finite and not negative.
pub record StreamResult (D : Type 0) : Type 0 where
  pub run : ℕ
  pub verified : Bool
  pub time_ok : Bool
  pub checksum : D

abbrev pub stream_cmd : Bool → ℕ → ℕ → ℕ → NpbCmd
stream_cmd encrypt num_runs array_mib warmup = record zero_cmd {
  cmd = cmd_npb_start;
  workload = workload_stream;
  encrypt_data = encrypt;
  num_runs = num_runs;
  stream_array_mib = array_mib;
  stream_warmup = warmup;
}

module _ {D : Type 0} (ops : Doubles D) where
  -- `a[i] = b[i] + scalar * c[i]`
  unfoldable pub triad : List D → List D → List D
  triad [] cs = []
  triad (b ∷ bs) [] = []
  triad (b ∷ bs) (c ∷ cs) = ops.add b (ops.mul (ops.from_nat 3) c) ∷ triad bs cs

  -- `for (i = 0; ...) checksum += a[i]`
  unfoldable pub sum_loop : D → List D → D
  sum_loop checksum [] = checksum
  sum_loop checksum (x ∷ xs) = sum_loop (ops.add checksum x) xs

  -- One run of the worker, from the arrays `b` and `c`; `time_ok` is about its measurement. The array
  -- `a` is written whole in each pass and each run, so that no earlier content of it is seen.
  unfoldable pub stream_result : ℕ → List D → List D → ℕ → Bool → StreamResult D
  stream_result run b c element_count time_ok =
      let checksum = sum_loop (ops.from_nat 0) (triad b c) in
      let expected = ops.mul (ops.from_nat 7) (ops.from_nat element_count) in
      record {
        run = run;
        verified = ops.isfinite checksum && ops.eq checksum expected;
        time_ok = time_ok;
        checksum = checksum;
      }

  -- What the worker does with the trigger of a run.
  abbrev pub stream_respond : ℕ → (ℕ → Bool) → ℕ → Out D → Heard (StreamResult D)
  stream_respond element_count time_ok run (stream_run for_run) =
      if not (for_run == run)
      then fails
      else answer (
          stream_result run (replicate element_count (ops.from_nat 1))
            (replicate element_count (ops.from_nat 2)) element_count (time_ok run))
  stream_respond element_count time_ok run _ = other_tag

  -- The report, and the rest: the results and the end. `allocated` says that the mallocs succeeded.
  unfoldable pub run_stream_workload :
      NpbCmd
      → Bool
      → (ℕ → Bool)
      → List (Option (Out D))
      → WorkloadReady × List (StreamResult D) × WorkerEnd D
  run_stream_workload cmd allocated time_ok messages =
      if ltb cmd.stream_array_mib stream_min_mib || ltb stream_max_mib cmd.stream_array_mib
      then (send_workload_ready workload_stream false 0, [], failed)
      else elim (checked_mib_bytes cmd.stream_array_mib) [
        | none ↦ (send_workload_ready workload_stream false 0, [], failed)
        | some array_bytes ↦
            if not (array_bytes % 8 == 0) || not allocated
            then (send_workload_ready workload_stream false 0, [], failed)
            else (let (results, ending) =
                  worker_loop (stream_respond (array_bytes / 8) time_ok) cmd.num_runs 1 messages in
                (send_workload_ready workload_stream true (array_bytes / 8), results, ending))
      ]

  -- The master's conditions on the result of one worker.
  unfoldable pub stream_check : D → ℕ → Unit {0} → ℕ → Option (StreamResult D) → Option (Unit {0})
  stream_check expected_checksum run s worker none = none
  stream_check expected_checksum run s worker (some result) =
      if not (result.run == run)
        || (not result.verified
            || (not result.time_ok || not (ops.eq result.checksum expected_checksum)))
      then none
      else some tt

  unfoldable pub run_stream_master :
      ℕ
      → Bool
      → ℕ
      → ℕ
      → ℕ
      → (ℕ → Option WorkloadReady)
      → (ℕ → ℕ → Option (StreamResult D))
      → List NpbResult
      → Sending D
  run_stream_master nworkers encrypt num_runs array_mib warmup reports answers rows =
      elim (checked_mib_bytes array_mib) [
        | none ↦ ([], refused)
        | some array_bytes ↦
            after_sends (to_all nworkers (command (stream_cmd encrypt num_runs array_mib warmup))) (
              if not (wait_for_workload_ready workload_stream (array_bytes / 8) reports nworkers 0)
              then ([], refused)
              else master_loop workload_stream nworkers encrypt stream_run
                  (stream_check (ops.mul (ops.from_nat 7) (ops.from_nat (array_bytes / 8)))) tt
                  answers num_runs 1 rows)
      ]
