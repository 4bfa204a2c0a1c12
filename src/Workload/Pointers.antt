-- ===== src/Workload/Pointers.antt =====
-- The rounds of the workload RANDOM: `run_random_master` of src/master_npb.c, and the report and the
-- loop over the runs in `run_random_workload` of src/worker_npb.c. Random has the pointer chase.
pub mod Session
use distributed_enclave.Common.{ℕ, ◌+◌, ◌/◌, Bool, true, false, not, ◌||◌, ◌&&◌, ltb, ◌==◌}
use distributed_enclave.Common.{List, [], Option, none, some, if◌then◌else◌}
use distributed_enclave.Random.{checked_mib_bytes, Prepared, run_random_workload, random_run}
use distributed_enclave.Workload.{
  NpbCmd, zero_cmd, cmd_npb_start, workload_random, WorkloadReady, send_workload_ready,
  wait_for_workload_ready, NpbResult, Out, command, stream_run, random_run_trigger, vmap_input,
  Sending, refused, after_sends, to_all, master_loop, WorkerEnd, failed, Heard, answer, fails,
  other_tag, worker_loop,
}

pub record RandomResult : Type 0 where
  pub run : ℕ
  pub verified : Bool
  pub final_token : ℕ
  pub time_ok : Bool

abbrev pub random_cmd : Bool → ℕ → ℕ → ℕ → ℕ → NpbCmd
random_cmd encrypt num_runs mib accesses warmup_accesses = record zero_cmd {
  cmd = cmd_npb_start;
  workload = workload_random;
  encrypt_data = encrypt;
  num_runs = num_runs;
  random_mib = mib;
  random_accesses = accesses;
  random_warmup_accesses = warmup_accesses;
}

unfoldable pub random_result : Prepared → ℕ → ℕ → Bool → RandomResult
random_result p accesses run time_ok =
    let (token, verified) = random_run p accesses in
    record { run = run; verified = verified; final_token = token; time_ok = time_ok }

abbrev pub random_respond :
    {D : Type 0} → Prepared → ℕ → (ℕ → Bool) → ℕ → Out D → Heard RandomResult
random_respond p accesses time_ok run (random_run_trigger for_run) =
    if not (for_run == run) then fails else answer (random_result p accesses run (time_ok run))
random_respond p accesses time_ok run _ = other_tag

-- The report, and the rest: the results and the end.
unfoldable pub serve_random_workload :
    {D : Type 0}
    → NpbCmd
    → Bool
    → (ℕ → Bool)
    → List (Option (Out D))
    → WorkloadReady × List RandomResult × WorkerEnd D
serve_random_workload cmd allocated time_ok messages =
    elim (run_random_workload cmd.random_mib cmd.random_warmup_accesses cmd.random_accesses
      allocated) [
        | none ↦ (send_workload_ready workload_random false 0, [], failed)
        | some p ↦
            (let (results, ending) =
                worker_loop (random_respond p cmd.random_accesses time_ok) cmd.num_runs 1
                  messages in
              (send_workload_ready workload_random true p.element_count, results, ending))
      ]

-- The master's conditions on the result of one worker; the variable is `expected_token`, which the
-- first worker sets.
unfoldable pub random_check : ℕ → ℕ → ℕ → Option RandomResult → Option ℕ
random_check run expected_token worker none = none
random_check run expected_token worker (some result) =
    if not (result.run == run)
      || (not result.verified
          || (not result.time_ok || (ltb 0 worker && not (result.final_token == expected_token))))
    then none
    else some (if worker == 0 then result.final_token else expected_token)

unfoldable pub run_random_master :
    {D : Type 0}
    → ℕ
    → Bool
    → ℕ
    → ℕ
    → ℕ
    → ℕ
    → (ℕ → Option WorkloadReady)
    → (ℕ → ℕ → Option RandomResult)
    → List NpbResult
    → Sending D
run_random_master nworkers encrypt num_runs mib accesses warmup_accesses reports answers rows =
    elim (checked_mib_bytes mib) [
      | none ↦ ([], refused)
      | some link_bytes ↦
          after_sends
            (to_all nworkers (command (random_cmd encrypt num_runs mib accesses warmup_accesses)))
            (if not (wait_for_workload_ready workload_random (link_bytes / 4) reports nworkers 0)
              then ([], refused)
              else master_loop workload_random nworkers encrypt random_run_trigger random_check 0
                  answers num_runs 1 rows)
    ]
