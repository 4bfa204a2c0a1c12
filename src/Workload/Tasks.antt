-- ===== src/Workload/Tasks.antt =====
-- The workload TASKQ from the command on: `run_taskq_master` of src/master_npb.c, whose scheduling of
-- one run is Taskq/Scheduler, and `run_taskq_workload` of src/worker_npb.c on one sequence of messages.
pub mod Ids
pub mod Session
pub mod Within
use distributed_enclave.Common.{ℕ, zero, suc, ◌+◌, Bool, true, false, not, ◌&&◌, ◌==◌}
use distributed_enclave.Common.{List, [], ◌∷◌, ◌++◌, Option, none, some, if◌then◌else◌}
use distributed_enclave.Taskq.Check.{Reply}
use distributed_enclave.Taskq.Messages.{TaskqResult}
use distributed_enclave.Taskq.Worker.{
  TaskqCmd, accepts_command, Served, answered, left, failed, serve, Incoming, control_ok,
  taskq_control_start,
}
use distributed_enclave.Taskq.Rounds.{sent_task, sent_end}
use distributed_enclave.Taskq.Scheduler.{
  Slot, Action, work, result, Counts, Polled, complete, check_failed, waiting, run_tasks,
}
use distributed_enclave.Taskq.Scheduler.Served.{run_params}
use distributed_enclave.Workload.{
  NpbCmd, zero_cmd, cmd_npb_start, workload_taskq, WorkloadReady, send_workload_ready,
  wait_for_workload_ready, NpbResult, record_generic_result, Out, command, taskq_control,
  taskq_task, MasterEnd, Sending, refused, exhausted, polling, after_sends, to_all, WorkerEnd,
  push_result,
}
use distributed_enclave.Workload

abbrev pub task_queue_cmd : Bool → TaskqCmd → NpbCmd
task_queue_cmd encrypt c = record zero_cmd {
  cmd = cmd_npb_start;
  workload = workload_taskq;
  encrypt_data = encrypt;
  num_runs = c.num_runs;
  task_count = c.task_count;
  task_bytes = c.task_bytes;
  task_iters = c.task_iters;
}

abbrev pub task_fields : NpbCmd → TaskqCmd
task_fields cmd = record {
  task_count = cmd.task_count;
  task_bytes = cmd.task_bytes;
  task_iters = cmd.task_iters;
  num_runs = cmd.num_runs;
}

module _ {D : Type 0} where
  -- The tasks that a run sends out, in order; the actions come with the latest first.
  unfoldable pub task_sends : TaskqCmd → ℕ → List Action → List (ℕ × Out D)
  task_sends c run [] = []
  task_sends c run (work worker task_id ∷ actions) =
      task_sends c run actions ++ (worker, taskq_task (sent_task c run task_id)) ∷ []
  task_sends c run (result worker task_id ∷ actions) = task_sends c run actions

  -- The loop over the runs from `run` on. `env` is what the probes of a run find, `fuel` bounds the
  -- passes of a run. What a run sent before it failed is left out.
  unfoldable pub taskq_runs :
      TaskqCmd
      → ℕ
      → Bool
      → (ℕ → List Slot → Counts → ℕ → Option Reply)
      → ℕ
      → ℕ
      → ℕ
      → List NpbResult
      → Sending D
  taskq_runs c nworkers encrypt env fuel zero run rows = ([], Workload.complete rows)
  taskq_runs c nworkers encrypt env fuel (suc more) run rows =
      after_sends (to_all nworkers (taskq_control taskq_control_start run))
        (elim (run_tasks (run_params c run) (env run) fuel nworkers) [
          | check_failed ↦ ([], refused)
          | waiting slots counts ↦ (task_sends c run counts.actions, polling)
          | complete slots counts ↦
              after_sends
                (task_sends c run counts.actions ++ to_all nworkers (taskq_task (sent_end run)))
                (elim (record_generic_result workload_taskq nworkers encrypt run rows) [
                  | none ↦ ([], exhausted)
                  | some rows' ↦ taskq_runs c nworkers encrypt env fuel more (run + 1) rows'
                ])
        ])

  -- `allocated` says that the master's mallocs succeeded.
  unfoldable pub run_taskq_master :
      ℕ
      → Bool
      → TaskqCmd
      → Bool
      → (ℕ → Option WorkloadReady)
      → (ℕ → List Slot → Counts → ℕ → Option Reply)
      → ℕ
      → List NpbResult
      → Sending D
  run_taskq_master nworkers encrypt c allocated reports env fuel rows =
      if not allocated
      then ([], refused)
      else after_sends (to_all nworkers (command (task_queue_cmd encrypt c))) (
          if not (wait_for_workload_ready workload_taskq c.task_bytes reports nworkers 0)
          then ([], refused)
          else taskq_runs c nworkers encrypt env fuel c.num_runs 1 rows)

  -- The worker's loops over runs and messages, on the messages in their order: `more` runs are left,
  -- and `inside` says that the current one has started.
  unfoldable pub taskq_loop :
      TaskqCmd → ℕ → ℕ → Bool → List (Option (Out D)) → List (TaskqResult × List ℕ) × WorkerEnd D
  taskq_loop c zero run false messages = ([], Workload.served messages)
  taskq_loop c zero run true messages = ([], Workload.waiting)
  taskq_loop c (suc more) run inside [] = ([], Workload.waiting)
  taskq_loop c (suc more) run inside (none ∷ messages) = ([], Workload.failed)
  taskq_loop c (suc more) run false (some (taskq_control control for_run) ∷ messages) =
      elim (control_ok run (some (control, for_run))) [
        | true ↦ taskq_loop c (suc more) run true messages
        | false ↦ ([], Workload.failed)
      ]
  taskq_loop c (suc more) run false (some _ ∷ messages) = ([], Workload.waiting)
  taskq_loop c (suc more) run true (some (taskq_task m) ∷ messages) =
      elim (serve c run m.task m.input m.time_ok) [
        | answered reply output ↦
            push_result (reply, output) (taskq_loop c (suc more) run true messages)
        | left ↦ taskq_loop c more (run + 1) false messages
        | failed ↦ ([], Workload.failed)
      ]
  taskq_loop c (suc more) run true (some _ ∷ messages) = ([], Workload.waiting)

  -- The report, and the rest.
  unfoldable pub serve_taskq_workload :
      NpbCmd
      → Bool
      → List (Option (Out D))
      → WorkloadReady × List (TaskqResult × List ℕ) × WorkerEnd D
  serve_taskq_workload cmd allocated messages =
      if not (accepts_command (task_fields cmd) allocated)
      then (send_workload_ready workload_taskq false 0, [], Workload.failed)
      else (let (results, ending) = taskq_loop (task_fields cmd) cmd.num_runs 1 false messages in
          (send_workload_ready workload_taskq true cmd.task_bytes, results, ending))
