-- ===== src/Taskq/Worker.antt =====
-- The worker's side of the task queue: `run_taskq_workload` of src/worker_npb.c, from its checks of
-- the command to its answer to one message. The loops over messages and runs follow.
use distributed_enclave.Common.{
  fill, ℕ, zero, suc, ◌+◌, [], ◌∷◌, true, false, List, Bool, not, Option, none, some,
}
use distributed_enclave.Common.{◌==◌, ◌&&◌, ◌||◌, ltb, leb, get_or, if◌then◌else◌}
use distributed_enclave.Taskq.{
  task_initial_token, task_input_byte, task_output_byte, run_iterations,
}
use distributed_enclave.Taskq.Messages.{
  TaskqTask, TaskqResult, taskq_task_work, taskq_task_end, samples_agree, expected_output,
}

abbrev pub taskq_min_bytes : ℕ
taskq_min_bytes = 1

abbrev pub taskq_max_bytes : ℕ
taskq_max_bytes = 1048576

abbrev pub taskq_control_start : ℕ
taskq_control_start = 1

-- The fields of `npb_cmd` that the task queue uses.
pub record TaskqCmd : Type 0 where
  pub task_count : ℕ
  pub task_bytes : ℕ
  pub task_iters : ℕ
  pub num_runs : ℕ

-- The checks before the worker reports that it is ready; `allocated` says that both mallocs succeeded.
unfoldable pub accepts_command : TaskqCmd → Bool → Bool
accepts_command cmd allocated =
    not (
      ltb cmd.task_bytes taskq_min_bytes
      || (ltb taskq_max_bytes cmd.task_bytes || (cmd.task_count == 0 || cmd.task_iters == 0)))
    && allocated

-- What the worker does with one message: it answers and waits for the next, it leaves the run in
-- good order, or it fails with status -1.
pub data Served : Type 0 where
  answered : TaskqResult → List ℕ → Served
  left : Served
  failed : Served

-- `output[i] = task_output_byte(input[i], token, task_id, i)` for every `i`.
abbrev pub compute_output : List ℕ → ℕ → ℕ → ℕ → List ℕ
compute_output input token task_id payload_bytes =
    fill (λ i. task_output_byte (get_or input i 0) token task_id i) 0 payload_bytes

unfoldable pub answer : ℕ → TaskqTask → List ℕ → ℕ → Bool → Served
answer run task input payload_bytes time_ok =
    let token = run_iterations task.iterations (task_initial_token task.task_id run) in
    let output = compute_output input token task.task_id payload_bytes in
    answered
      (record {
        run = run;
        verified =
            samples_agree (task_input_byte task.task_id run) input payload_bytes
            && samples_agree (expected_output task.task_id run token) output payload_bytes;
        task_id = task.task_id;
        token = token;
        payload_bytes = task.payload_bytes;
        time_ok = time_ok;
      })
      output

-- One round of the inner loop. `none` for a message stands for a receive that returned -1.
unfoldable pub serve : TaskqCmd → ℕ → Option TaskqTask → Option (List ℕ) → Bool → Served
serve cmd run none input time_ok = failed
serve cmd run (some task) input time_ok =
    if task.command == taskq_task_end
    then (if task.run == run then left else failed)
    else if not (task.command == taskq_task_work)
        || (not (task.run == run)
            || (leb cmd.task_count task.task_id
                || (not (task.payload_bytes == cmd.task_bytes)
                    || not (task.iterations == cmd.task_iters))))
    then failed
    else elim input [ none ↦ failed | some bytes ↦ answer run task bytes cmd.task_bytes time_ok ]

-- One message of the inner loop: the task, the input behind it, and whether the measured time is in
-- order.
pub record Incoming : Type 0 where
  pub task : Option TaskqTask
  pub input : Option (List ℕ)
  pub time_ok : Bool

-- How the inner loop ends: with the end message, in failure, or it still waits for a message.
pub data RunEnd : Type 0 where
  run_left : List Incoming → RunEnd
  run_failed : RunEnd
  run_waiting : RunEnd

abbrev pub push_answer :
    TaskqResult
    → List ℕ
    → List (TaskqResult × List ℕ) × RunEnd
    → List (TaskqResult × List ℕ) × RunEnd
push_answer result output (answers, ending) = ((result, output) ∷ answers, ending)

-- `while (1)`: the answers that are sent, and how the loop ends.
unfoldable pub serve_run : TaskqCmd → ℕ → List Incoming → List (TaskqResult × List ℕ) × RunEnd
serve_run cmd run [] = ([], run_waiting)
serve_run cmd run (m ∷ messages) = elim (serve cmd run m.task m.input m.time_ok) [
  | answered result output ↦ push_answer result output (serve_run cmd run messages)
  | left ↦ ([], run_left messages)
  | failed ↦ ([], run_failed)
]

-- A control message: command and run; `none` is a receive that returned -1.
abbrev pub control_ok : ℕ → Option (ℕ × ℕ) → Bool
control_ok run none = false
control_ok run (some (command, for_run)) = (command == taskq_control_start) && (for_run == run)

-- The loop over that many runs from `run` on; each entry is a run's control message and the messages that
-- follow it. True for the status 0; `none` while messages are missing.
unfoldable pub serve_runs : TaskqCmd → ℕ → ℕ → List (Option (ℕ × ℕ) × List Incoming) → Option Bool
serve_runs cmd zero run rounds = some true
serve_runs cmd (suc more) run [] = none
serve_runs cmd (suc more) run ((control, messages) ∷ rounds) =
    let rest = serve_runs cmd more (run + 1) rounds in
    if not (control_ok run control) then some false else elim (serve_run cmd run messages).1 [
      | run_failed ↦ some false
      | run_waiting ↦ none
      | run_left later ↦ rest
    ]

-- The whole function: `some true` is the result 0.
unfoldable pub run_taskq_workload :
    TaskqCmd → Bool → List (Option (ℕ × ℕ) × List Incoming) → Option Bool
run_taskq_workload cmd allocated rounds =
    if not (accepts_command cmd allocated) then some false else serve_runs cmd cmd.num_runs 1 rounds
