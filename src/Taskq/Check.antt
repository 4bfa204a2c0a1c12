-- ===== src/Taskq/Check.antt =====
-- How the master checks one answer: the conditions of the polling loop of `run_taskq_master`
-- (src/master_npb.c), in the order of the source.
use distributed_enclave.Common.{ℕ, List, Bool, false, not, ◌==◌, ◌||◌, if◌then◌else◌}
use distributed_enclave.Taskq.{linear_map_apply, task_initial_token}
use distributed_enclave.Taskq.Messages.{TaskqResult, samples_agree, expected_output}

-- What the two receives of the loop give: their results, the struct and the output buffer.
pub record Reply : Type 0 where
  pub result_received : Bool
  pub result : TaskqResult
  pub output_received : Bool
  pub output : List ℕ

-- True when no test of the loop sets `status = -1`.
unfoldable pub reply_ok : ℕ → ℕ → List ℕ → ℕ → Reply → Bool
reply_ok run payload_bytes jump assigned_task reply =
    let result = reply.result in
    if not reply.result_received
      || (not (result.run == run)
          || (not result.verified
              || (not (result.task_id == assigned_task)
                  || (not (result.payload_bytes == payload_bytes) || not result.time_ok))))
    then false
    else if not reply.output_received
    then false
    else (let expected_token = linear_map_apply jump (task_initial_token result.task_id run) in
        if not (result.token == expected_token)
        then false
        else samples_agree (expected_output result.task_id run expected_token) reply.output
            payload_bytes)
