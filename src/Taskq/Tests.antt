-- ===== src/Taskq/Tests.antt =====
-- Runs of the task queue on small inputs.
use distributed_enclave.Common.{ℕ, ◌<◌, List, [], ◌∷◌, ◌≡◌, refl, arith, true, none}
use distributed_enclave.Taskq.{
  xorshift64_step, build_xorshift_jump, linear_map_apply, run_iterations, task_initial_token,
  task_input_byte, task_output_byte,
}
use distributed_enclave.Taskq.Jump.{build_xorshift_jump-run_iterations}
use distributed_enclave.Taskq.Messages.{samples_agree, expected_output}
use distributed_enclave.Taskq.Worker.{TaskqCmd}
use distributed_enclave.Taskq.Check.{Reply, reply_ok}
use distributed_enclave.Taskq.Agree.{reply_ok_sound}
use distributed_enclave.Taskq.Scheduler.{
  Slot, Counts, RunParams, work, complete, waiting, run_tasks, poll, assign_all, assign, pass,
  visit,
}
use distributed_enclave.Taskq.Scheduler.Account.{count_work, count_result, busy_count}
use distributed_enclave.Taskq.Scheduler.Exactly.{run_tasks_exactly_once}
use distributed_enclave.Taskq.Scheduler.Progress.{run_tasks_completes}
use distributed_enclave.Taskq.Scheduler.Served.{
  run_params, served, served-Valid, served-Answered, run_tasks-served,
}

xorshift64_step_run : xorshift64_step 1 ≡ 0x40822041
unfolding xorshift64_step
xorshift64_step_run = refl

build_xorshift_jump-run_iterations_example :
    linear_map_apply (build_xorshift_jump 5) 77 ≡ run_iterations 5 77
build_xorshift_jump-run_iterations_example = build_xorshift_jump-run_iterations 5 77 (omega arith)

abbrev cmd : TaskqCmd
cmd = record { task_count = 5; task_bytes = 16; task_iters = 3; num_runs = 1 }

abbrev some_bytes : 0 < 16
some_bytes = omega arith

-- An answer to task 0 of one byte and no iteration, which is that task's token.
abbrev short_reply : Reply
short_reply = record {
  result_received = true;
  result = record {
    run = 1;
    verified = true;
    task_id = 0;
    token = 0x9e3779b87f4a7c15;
    payload_bytes = 1;
    time_ok = true;
  };
  output_received = true;
  output = 4 ∷ [];
}

short_reply_ok : reply_ok 1 1 (build_xorshift_jump 0) 0 short_reply ≡ true
unfolding reply_ok task_initial_token run_iterations task_output_byte task_input_byte
short_reply_ok =
    rw (build_xorshift_jump-run_iterations 0 (task_initial_token 0 1) (omega arith)) refl

reply_ok_sound_example :
    (◌≡◌ {A = ℕ} 0 0)
    × (0x9e3779b87f4a7c15 ≡ run_iterations 0 (task_initial_token 0 1))
    × (samples_agree (expected_output 0 1 0x9e3779b87f4a7c15) (4 ∷ []) 1 ≡ true)
reply_ok_sound_example = reply_ok_sound 1 0 1 0 short_reply short_reply_ok

abbrev params : RunParams
params = run_params cmd 1

-- Three workers, five tasks.
abbrev finished :
    (slots : List Slot) × (c : Counts) × (run_tasks params (served cmd 1 some_bytes) 5 3
      ≡ complete slots c)
finished = run_tasks-served cmd 1 some_bytes 3 (omega arith)

run_tasks-served_example :
    (slots : List Slot) × (c : Counts) × (run_tasks params (served cmd 1 some_bytes) 5 3
      ≡ complete slots c)
run_tasks-served_example = run_tasks-served cmd 1 some_bytes 3 (omega arith)

run_tasks_completes_example :
    (slots : List Slot) × (c : Counts) × (run_tasks params (served cmd 1 some_bytes) 5 2
      ≡ complete slots c)
run_tasks_completes_example =
    run_tasks_completes params (served cmd 1 some_bytes) 2 (served-Valid cmd 1 some_bytes)
      (served-Answered cmd 1 some_bytes) (omega arith)

run_tasks_exactly_once_example :
    (count_work 4 finished.1.actions ≡ 1)
    × (count_result 4 finished.1.actions ≡ 1)
    × (finished.1.completed ≡ 5)
    × (busy_count finished.0 ≡ 0)
run_tasks_exactly_once_example =
    run_tasks_exactly_once params (served cmd 1 some_bytes) 5 3 finished.0 finished.1 finished.2 4

-- Before the first answer: tasks 0 to 2 are out.
abbrev first_slots : List Slot
first_slots =
    record { busy = true; assigned_task = 0 }
    ∷ record { busy = true; assigned_task = 1 }
    ∷ record { busy = true; assigned_task = 2 }
    ∷ []

abbrev first_counts : Counts
first_counts = record {
  next_task = 3;
  completed = 0;
  actions = work 2 2 ∷ work 1 1 ∷ work 0 0 ∷ [];
}

first_waiting : run_tasks params (λ _ _ _. none) 2 3 ≡ waiting first_slots first_counts
unfolding run_tasks poll assign_all assign pass visit
first_waiting = refl
