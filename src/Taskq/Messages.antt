-- ===== src/Taskq/Messages.antt =====
-- The messages of a task queue run: what the master sends for one task (src/master_npb.c) and what
-- the worker answers (src/worker_npb.c).
use distributed_enclave.Common.{fill, ℕ, ◌/◌, ◌-◌, ◌^◌, List, Bool}
use distributed_enclave.Common.{fill, ◌==◌, ◌&&◌, get_or}
use distributed_enclave.Taskq.{task_input_byte, task_output_byte}

abbrev pub taskq_task_work : ℕ
taskq_task_work = 1

abbrev pub taskq_task_end : ℕ
taskq_task_end = 2

abbrev pub uint64_max : ℕ
uint64_max = 2 ^ 64 - 1

pub record TaskqTask : Type 0 where
  pub command : ℕ
  pub run : ℕ
  pub task_id : ℕ
  pub iterations : ℕ
  pub payload_bytes : ℕ
  pub reserved : ℕ

-- `compute_ms` is a double of which the master only asks whether it is finite and not negative:
-- `time_ok` is that answer.
pub record TaskqResult : Type 0 where
  pub run : ℕ
  pub verified : Bool
  pub task_id : ℕ
  pub token : ℕ
  pub payload_bytes : ℕ
  pub time_ok : Bool

-- `send_taskq_work`: the task message and the input that follows it.
unfoldable pub send_taskq_work : ℕ → ℕ → ℕ → ℕ → TaskqTask × List ℕ
send_taskq_work run task_id iterations payload_bytes = (
  record {
    command = taskq_task_work;
    run = run;
    task_id = task_id;
    iterations = iterations;
    payload_bytes = payload_bytes;
    reserved = 0;
  },
  fill (task_input_byte task_id run) 0 payload_bytes,
)

unfoldable pub send_taskq_end : ℕ → TaskqTask
send_taskq_end run = record {
  command = taskq_task_end;
  run = run;
  task_id = uint64_max;
  iterations = 0;
  payload_bytes = 0;
  reserved = 0;
}

-- Both sides look at three bytes only: the first, the middle and the last.
abbrev pub samples_agree : (ℕ → ℕ) → List ℕ → ℕ → Bool
samples_agree expected buffer payload_bytes =
    (get_or buffer 0 0 == expected 0)
    && ((get_or buffer (payload_bytes / 2) 0 == expected (payload_bytes / 2))
        && (get_or buffer (payload_bytes - 1) 0 == expected (payload_bytes - 1)))

-- What the byte at an index of the output must be, when the input is the one of the task.
abbrev pub expected_output : ℕ → ℕ → ℕ → ℕ → ℕ
expected_output task_id run token index =
    task_output_byte (task_input_byte task_id run index) token task_id index
