-- ===== src/Taskq/Rounds.antt =====
-- A worker's whole part in the task queue, when it gets what the master sends.
use distributed_enclave.Common.{
  ℕ, ◌+◌, ◌≤◌, ◌<◌, ◌≡◌, refl, arith, List, [], ◌∷◌, true, Option, none, some, All, length,
}
use mathlib.Core.Path.{subst}
use distributed_enclave.Taskq.{build_xorshift_jump}
use distributed_enclave.Taskq.Messages.{TaskqResult, send_taskq_work, send_taskq_end}
use distributed_enclave.Taskq.Worker.{
  TaskqCmd, accepts_command, left, serve, Incoming, run_left, serve_run, control_ok, serve_runs,
  run_taskq_workload, taskq_control_start, taskq_max_bytes,
}
use distributed_enclave.Taskq.Check.{reply_ok}
use distributed_enclave.Taskq.Agree.{reply_ok-serve}

-- What the master sends for a task, and at the end of a run.
abbrev pub sent_task : TaskqCmd → ℕ → ℕ → Incoming
sent_task cmd run task_id =
    let (task, input) = send_taskq_work run task_id cmd.task_iters cmd.task_bytes in
    record { task = some task; input = some input; time_ok = true }

abbrev pub sent_end : ℕ → Incoming
sent_end run = record { task = some (send_taskq_end run); input = none; time_ok = true }

abbrev pub sent_run : TaskqCmd → ℕ → List ℕ → List Incoming
sent_run cmd run [] = sent_end run ∷ []
sent_run cmd run (task_id ∷ task_ids) = sent_task cmd run task_id ∷ sent_run cmd run task_ids

-- The answers pass the master's checks, task by task.
abbrev pub Passing : TaskqCmd → ℕ → List ℕ → List (TaskqResult × List ℕ) → Type 0
Passing cmd run [] [] = Unit
Passing cmd run [] (answer ∷ answers) = ⊥
Passing cmd run (task_id ∷ task_ids) [] = ⊥
Passing cmd run (task_id ∷ task_ids) ((result, output) ∷ answers) =
    (reply_ok run cmd.task_bytes (build_xorshift_jump cmd.task_iters) task_id (record {
      result_received = true;
      result = result;
      output_received = true;
      output = output;
    })
      ≡ true)
    × Passing cmd run task_ids answers

module _ (cmd : TaskqCmd) (pos : 0 < cmd.task_bytes) where
  pub end_leaves : (run : ℕ) → serve cmd run (some (send_taskq_end run)) none true ≡ left
  unfolding serve send_taskq_end
  end_leaves run = ground arith

  -- A worker that gets the tasks of a run, in any order and number, and then the end of the run,
  -- answers each of them so that the master's checks pass, and leaves the run in good order.
  pub serve_run-sent_run :
      (run : ℕ) (task_ids : List ℕ)
      → All (λ task_id. task_id < cmd.task_count) task_ids
      → (answers : List (TaskqResult × List ℕ)) × (serve_run cmd run (sent_run cmd run task_ids)
          ≡ (answers, run_left []))
        × Passing cmd run task_ids answers
  unfolding serve_run
  serve_run-sent_run run [] known = ([], rw (serve_run, end_leaves run) refl, tt)
  serve_run-sent_run run (task_id ∷ task_ids) known =
      let (result, output, answers_it, ok) = reply_ok-serve cmd run task_id known.0 pos in
      let (answers, rest, passing) = serve_run-sent_run run task_ids known.1 in
      ((result, output) ∷ answers, rw (serve_run, answers_it, rest) refl, (ok, passing))

  -- All runs of a command, each with its own tasks.
  abbrev pub sent_runs : ℕ → List (List ℕ) → List (Option (ℕ × ℕ) × List Incoming)
  sent_runs run [] = []
  sent_runs run (task_ids ∷ runs) =
      (some (taskq_control_start, run), sent_run cmd run task_ids) ∷ sent_runs (run + 1) runs

  serve_runs-sent_runs :
      (run : ℕ) (runs : List (List ℕ))
      → All (All (λ task_id. task_id < cmd.task_count)) runs
      → serve_runs cmd (length runs) run (sent_runs run runs) ≡ some true
  unfolding serve_runs
  serve_runs-sent_runs run [] known = refl
  serve_runs-sent_runs run (task_ids ∷ runs) known =
      let (answers, served, passing) = serve_run-sent_run run task_ids known.0 in
      let started : control_ok run (some (taskq_control_start, run)) ≡ true = ground arith in
      rw (serve_runs, started, served, serve_runs-sent_runs (run + 1) runs known.1) refl

-- With a command in the range that the options allow and enough memory, a worker that gets every
-- run's start, tasks and end comes to the end of the workload with the result 0.
pub run_taskq_workload-sent_runs :
    (cmd : TaskqCmd) (pos : 0 < cmd.task_bytes) (runs : List (List ℕ))
    → cmd.task_bytes ≤ taskq_max_bytes
    → 0 < cmd.task_count
    → 0 < cmd.task_iters
    → length runs ≡ cmd.num_runs
    → All (All (λ task_id. task_id < cmd.task_count)) runs
    → run_taskq_workload cmd true (sent_runs cmd pos 1 runs) ≡ some true
unfolding run_taskq_workload accepts_command
run_taskq_workload-sent_runs cmd pos runs high some_task some_iteration all_runs known =
    let accepted : accepts_command cmd true ≡ true = ground arith in
    rw accepted (
      subst (λ k. serve_runs cmd k 1 (sent_runs cmd pos 1 runs) ≡ some true) all_runs
        (serve_runs-sent_runs cmd pos 1 runs known))
