-- ===== src/Workload/Vmap.antt =====
-- The workload VMAP: `run_vmap_master` of src/master_npb.c and `run_vmap_workload` of
-- src/worker_npb.c. A block is the list of its doubles.
pub mod Session
use distributed_enclave.Common.{
  ℕ, zero, suc, ◌+◌, ◌-◌, ◌/◌, ◌%◌, Bool, true, false, not, ◌||◌, ◌&&◌, ltb, ◌==◌, length,
}
use distributed_enclave.Common.{List, [], ◌∷◌, map, Option, none, some, if◌then◌else◌, fill, get_or}
use distributed_enclave.Random.{checked_mib_bytes}
use distributed_enclave.Workload.{
  NpbCmd, zero_cmd, cmd_npb_start, workload_vmap, WorkloadReady, send_workload_ready,
  wait_for_workload_ready, NpbResult, Out, command, stream_run, random_run_trigger, vmap_input,
  Sending, refused, after_sends, to_all, master_loop, WorkerEnd, failed, Heard, answer, fails,
  other_tag, worker_loop,
}
use distributed_enclave.Workload.Doubles.{Doubles}
use distributed_enclave.Workload.Stream.{sum_loop}

abbrev pub vmap_min_mib : ℕ
vmap_min_mib = 1

abbrev pub vmap_max_mib : ℕ
vmap_max_mib = 128

pub record VmapResult (D : Type 0) : Type 0 where
  pub run : ℕ
  pub verified : Bool
  pub time_ok : Bool
  pub checksum : D

abbrev pub vmap_cmd : Bool → ℕ → ℕ → NpbCmd
vmap_cmd encrypt num_runs vmap_mib = record zero_cmd {
  cmd = cmd_npb_start;
  workload = workload_vmap;
  encrypt_data = encrypt;
  num_runs = num_runs;
  vmap_mib = vmap_mib;
}

module _ {D : Type 0} (ops : Doubles D) where
  unfoldable pub vmap_transform : D → D
  vmap_transform value = ops.add (ops.mul value ops.d1_25) ops.d0_5

  -- `(double)(index % 4096U) / 128.0 - 8.0`
  unfoldable pub vmap_input_value : ℕ → D
  vmap_input_value index =
      ops.sub (ops.div (ops.from_nat (index % 4096)) (ops.from_nat 128)) (ops.from_nat 8)

  abbrev pub element : List D → ℕ → D
  element block index = get_or block index (ops.from_nat 0)

  -- The first, the middle and the last element of the output.
  abbrev pub samples_ok : List D → List D → ℕ → Bool
  samples_ok input output count =
      ops.eq (element output 0) (vmap_transform (element input 0))
      && (ops.eq (element output (count / 2)) (vmap_transform (element input (count / 2)))
          && ops.eq (element output (count - 1)) (vmap_transform (element input (count - 1))))

  -- One run of the worker: the output and the result.
  unfoldable pub vmap_result : ℕ → List D → ℕ → Bool → List D × VmapResult D
  vmap_result run input count time_ok =
      let output = map vmap_transform input in
      let checksum = sum_loop ops (ops.from_nat 0) output in
      (
        output,
        record {
          run = run;
          verified = ops.isfinite checksum && samples_ok input output count;
          time_ok = time_ok;
          checksum = checksum;
        },
      )

  -- `recv_bulk` fails on a block of another size.
  abbrev pub vmap_respond : ℕ → (ℕ → Bool) → ℕ → Out D → Heard (List D × VmapResult D)
  vmap_respond count time_ok run (vmap_input block) =
      if not (length block == count)
      then fails
      else answer (vmap_result run block count (time_ok run))
  vmap_respond count time_ok run _ = other_tag

  unfoldable pub run_vmap_workload :
      NpbCmd
      → Bool
      → (ℕ → Bool)
      → List (Option (Out D))
      → WorkloadReady × List (List D × VmapResult D) × WorkerEnd D
  run_vmap_workload cmd allocated time_ok messages =
      if ltb cmd.vmap_mib vmap_min_mib || ltb vmap_max_mib cmd.vmap_mib
      then (send_workload_ready workload_vmap false 0, [], failed)
      else elim (checked_mib_bytes cmd.vmap_mib) [
        | none ↦ (send_workload_ready workload_vmap false 0, [], failed)
        | some block_bytes ↦
            if not (block_bytes % 8 == 0) || not allocated
            then (send_workload_ready workload_vmap false 0, [], failed)
            else (let (results, ending) =
                  worker_loop (vmap_respond (block_bytes / 8) time_ok) cmd.num_runs 1 messages in
                (send_workload_ready workload_vmap true (block_bytes / 8), results, ending))
      ]

  -- `expected_checksum += vmap_transform(input[i])`, from index `i` on.
  unfoldable pub expected_loop : ℕ → ℕ → D → D
  expected_loop zero i expected_checksum = expected_checksum
  expected_loop (suc left) i expected_checksum =
      expected_loop left (i + 1) (ops.add expected_checksum (vmap_transform (vmap_input_value i)))

  -- The master's conditions on what one worker returns; `none` if one of the two receives fails.
  unfoldable pub vmap_check :
      ℕ → D → ℕ → Unit {0} → ℕ → Option (List D × VmapResult D) → Option (Unit {0})
  vmap_check count expected_checksum run s worker none = none
  vmap_check count expected_checksum run s worker (some (output, result)) =
      if not (result.run == run)
        || (not result.verified
            || (not result.time_ok
                || (not (ops.isfinite result.checksum)
                    || ops.gt (ops.fabs (ops.sub result.checksum expected_checksum)) (
                        ops.mul ops.d1e_9
                          (ops.fmax (ops.from_nat 1) (ops.fabs expected_checksum))))))
      then none
      else if not (samples_ok (fill vmap_input_value 0 count) output count)
      then none
      else some tt

  -- `allocated` says that the master's mallocs behind the reports succeeded.
  unfoldable pub run_vmap_master :
      ℕ
      → Bool
      → ℕ
      → ℕ
      → Bool
      → (ℕ → Option WorkloadReady)
      → (ℕ → ℕ → Option (List D × VmapResult D))
      → List NpbResult
      → Sending D
  run_vmap_master nworkers encrypt num_runs mib allocated reports answers rows =
      elim (checked_mib_bytes mib) [
        | none ↦ ([], refused)
        | some block_bytes ↦
            if not (block_bytes % 8 == 0)
            then ([], refused)
            else (let count = block_bytes / 8 in
                after_sends (to_all nworkers (command (vmap_cmd encrypt num_runs mib))) (
                  if not
                    (wait_for_workload_ready workload_vmap count reports nworkers 0 && allocated)
                  then ([], refused)
                  else master_loop workload_vmap nworkers encrypt
                      (λ run. vmap_input (fill vmap_input_value 0 count))
                      (vmap_check count (expected_loop count 0 (ops.from_nat 0))) tt answers
                      num_runs 1 rows))
      ]
