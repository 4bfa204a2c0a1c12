-- ===== src/Workload/Tasks/Session.antt =====
-- The master and the workers in the workload TASKQ.
use distributed_enclave.Common.{
  ℕ, zero, suc, ◌+◌, ◌≤◌, ◌<◌, ◌≡◌, refl, sym, ap, arith, Bool, true, false, leb, ◌==◌, length,
  length-append, All,
}
use distributed_enclave.Common.{List, [], ◌∷◌, ◌++◌, map, Option, some, Bool-cases, inl, inr}
use mathlib.Core.List.{append-nil, append_assoc, map-append}
use distributed_enclave.Taskq.Messages.{TaskqResult}
use distributed_enclave.Taskq.Worker.{
  TaskqCmd, accepts_command, control_ok, taskq_control_start, taskq_max_bytes,
}
use distributed_enclave.Taskq.Agree.{task_answer, serve-task_answer}
use distributed_enclave.Taskq.Rounds.{sent_task, sent_end, end_leaves}
use distributed_enclave.Taskq.Scheduler.{Action, work, result}
use distributed_enclave.Taskq.Scheduler.Served.{served}
use distributed_enclave.Workload.{
  NpbCmd, workload_taskq, WorkloadReady, send_workload_ready, ready_ok, wait_for_workload_ready,
  NpbResult, record_generic_result, max_runs, max_results, Out, command, taskq_control, taskq_task,
  MasterEnd, Sending, refused, after_sends, to_all, WorkerEnd, push_result, results_before,
}
use distributed_enclave.Workload
use distributed_enclave.Workload.Loops.{
  to_worker, to_worker-append, to_worker-to_all, wait_for_workload_ready_all, rows_of,
}
use distributed_enclave.Workload.Tasks.{
  task_queue_cmd, task_fields, task_sends, taskq_runs, run_taskq_master, taskq_loop,
  serve_taskq_workload,
}
use distributed_enclave.Workload.Tasks.Ids.{ids_of, run_complete}

-- The answers to these tasks, task by task.
abbrev pub run_answers : TaskqCmd → ℕ → List (List ℕ) → List (TaskqResult × List ℕ)
run_answers c run [] = []
run_answers c run (ids ∷ later) = map (task_answer c run) ids ++ run_answers c (run + 1) later

-- One list of tasks for each run, each task below the count.
abbrev pub Assigned : TaskqCmd → ℕ → List (List ℕ) → Type 0
Assigned c runs tasks = (length tasks ≡ runs) × All (All (λ t. t < c.task_count)) tasks

module _ {D : Type 0} (c : TaskqCmd) where
  abbrev pub task_message : ℕ → ℕ → Option (Out D)
  task_message run task_id = some (taskq_task (sent_task c run task_id))

  -- What a worker gets in the runs from `run` on, for the tasks of each run: the start, the tasks in
  -- order, and the end of the run.
  abbrev pub run_messages : ℕ → List (List ℕ) → List (Option (Out D))
  run_messages run [] = []
  run_messages run (ids ∷ later) =
      some (taskq_control taskq_control_start run) ∷ map (task_message run) ids
      ++ some (taskq_task (sent_end run)) ∷ run_messages (run + 1) later

  to_worker-task_sends :
      (w run : ℕ) (actions : List Action)
      → to_worker {M = Out D} w (task_sends c run actions)
        ≡ map (task_message run) (ids_of w actions)
  unfolding task_sends
  to_worker-task_sends w run [] = refl
  to_worker-task_sends w run (work worker task_id ∷ actions) = elim (Bool-cases (worker == w)) [
    | inl here ↦
        rw
          (
            to_worker-append {M = Out D} w (task_sends c run actions)
                ((worker, taskq_task (sent_task c run task_id)) ∷ []),
            to_worker-task_sends w run actions,
            here,
          )
          (sym (map-append (task_message run) (ids_of w actions) (task_id ∷ [])))
    | inr apart ↦
        rw
          (
            to_worker-append {M = Out D} w (task_sends c run actions)
                ((worker, taskq_task (sent_task c run task_id)) ∷ []),
            to_worker-task_sends w run actions,
            apart,
          )
          (sym (map-append (task_message run) (ids_of w actions) []))
  ]
  to_worker-task_sends w run (result worker task_id ∷ actions) = to_worker-task_sends w run actions

  module _ (pos : 0 < c.task_bytes) where
    -- A run of the worker on its tasks and the end message.
    taskq_loop-tasks :
        (more run : ℕ) (ids : List ℕ)
        → All (λ t. t < c.task_count) ids
        → (rest : List (Option (Out D)))
        → taskq_loop c
            (suc more)
            run
            true
            (map (task_message run) ids ++ some (taskq_task (sent_end run)) ∷ rest)
          ≡ results_before (map (task_answer c run) ids) (taskq_loop c more (run + 1) false rest)
    unfolding taskq_loop
    taskq_loop-tasks more run [] known rest = rw (taskq_loop, end_leaves c pos run) refl
    taskq_loop-tasks more run (task_id ∷ ids) known rest =
        rw
          (
            taskq_loop,
            serve-task_answer c run task_id known.0 pos,
            taskq_loop-tasks more run ids known.1 rest,
          )
          refl

    module _ (nworkers : ℕ) (encrypt : Bool) (some_worker : 0 < nworkers) where
      abbrev runs : ℕ → ℕ → List NpbResult → Sending D
      runs more run rows =
          taskq_runs c nworkers encrypt (λ run. served c run pos) c.task_count more run rows

      taskq_runs-complete :
          (more run : ℕ) (rows : List NpbResult)
          → length rows + more ≤ max_results
          → ((runs more run rows).1
              ≡ Workload.complete (rows ++ rows_of workload_taskq nworkers encrypt run more))
            × ((w : ℕ)
                → w < nworkers
                → (tasks : List (List ℕ)) × Assigned c more tasks
                  × (to_worker w (runs more run rows).0 ≡ run_messages run tasks))
      unfolding taskq_runs record_generic_result taskq_loop
      taskq_runs-complete zero run rows few =
          (ap Workload.complete (sym (append-nil rows)), λ w known. ([], (refl, tt), refl))
      taskq_runs-complete (suc more) run rows few =
          let (slots, counts, done, known_ids) = run_complete c pos nworkers run some_worker in
          let row : NpbResult = record {
            workload = workload_taskq;
            num_workers = nworkers;
            encrypted = encrypt;
            run = run;
          } in
          let fits : leb max_results (length rows) ≡ false = ground arith in
          let started : control_ok run (some (taskq_control_start, run)) ≡ true = ground arith in
          let rest = runs more (run + 1) (rows ++ row ∷ []) in
          let start : List (ℕ × Out D) = to_all nworkers (taskq_control taskq_control_start run) in
          let tasks : List (ℕ × Out D) = task_sends c run counts.actions in
          let stop : List (ℕ × Out D) = to_all nworkers (taskq_task (sent_end run)) in
          let (ends, others) =
            taskq_runs-complete more (run + 1) (rows ++ row ∷ [])
              (omega (arith, length-append rows (row ∷ []))) in
          (
            rw (taskq_runs, done, record_generic_result, fits, ends)
                (ap Workload.complete (
                  append_assoc rows (row ∷ [])
                    (rows_of workload_taskq nworkers encrypt (run + 1) more))),
            λ w known.
                let (tasks_later, (count, below), is) = others w known in
                let ids = ids_of w counts.actions in
                (
                  ids ∷ tasks_later,
                  (omega (arith, count), (known_ids w, below)),
                  rw
                      (
                        taskq_runs,
                        done,
                        record_generic_result,
                        fits,
                        to_worker-append w start ((tasks ++ stop) ++ rest.0),
                        to_worker-to_all {M = Out D} w nworkers
                            (taskq_control taskq_control_start run) known,
                        to_worker-append w (tasks ++ stop) rest.0,
                        to_worker-append w tasks stop,
                        to_worker-task_sends w run counts.actions,
                        to_worker-to_all {M = Out D} w nworkers (taskq_task (sent_end run)) known,
                        is,
                        append_assoc (map (task_message run) ids)
                            (some (taskq_task (sent_end run)) ∷ [])
                            (run_messages (run + 1) tasks_later),
                      )
                      refl,
                ),
          )

      -- The worker's runs on these messages.
      run_messages-heard :
          (more run : ℕ) (tasks : List (List ℕ))
          → Assigned c more tasks
          → (rest : List (Option (Out D)))
          → taskq_loop c more run false (run_messages run tasks ++ rest)
            ≡ (run_answers c run tasks, Workload.served rest)
      unfolding taskq_loop
      run_messages-heard zero run [] assigned rest = refl
      run_messages-heard zero run (ids ∷ later) assigned rest = absurd (omega (arith, assigned.0))
      run_messages-heard (suc more) run [] assigned rest = absurd (omega (arith, assigned.0))
      run_messages-heard (suc more) run (ids ∷ later) (count, (below, others)) rest =
          let started : control_ok run (some (taskq_control_start, run)) ≡ true = ground arith in
          rw
            (
              taskq_loop,
              started,
              append_assoc (map (task_message run) ids)
                  (some (taskq_task (sent_end run)) ∷ run_messages (run + 1) later) rest,
              taskq_loop-tasks more run ids below (run_messages (run + 1) later ++ rest),
              run_messages-heard more (run + 1) later (omega (arith, count), others) rest,
            )
            refl

      -- In the workload TASKQ, with tasks in the range that both programs allow, at least one worker, at
      -- most `max_runs` runs, enough memory, an empty table, times in order, and each worker having
      -- served the task that it holds by the time it is probed: `task_count` passes for a run are enough,
      -- and the master comes to its end with one row for each run, in order. For each worker there are
      -- tasks, a list for each run, all below the count, such that it is sent the command and then in
      -- each run the start, these tasks in order and the end, and nothing else; on these messages, with
      -- anything behind them, it reports that it is ready, returns for each of these tasks, in order, the
      -- result with the token of all iterations and the output bytes that the master expects, and leaves
      -- what is behind.
      pub taskq_session :
          c.task_bytes ≤ taskq_max_bytes
          → 0 < c.task_count
          → 0 < c.task_iters
          → c.num_runs ≤ max_runs
          → let cmd = task_queue_cmd encrypt c in
            let ready = send_workload_ready workload_taskq true c.task_bytes in
            let sending : Sending D =
              run_taskq_master nworkers encrypt c true
                (λ w. some ready)
                (λ run. served c run pos)
                c.task_count
                [] in
            (sending.1 ≡ Workload.complete (rows_of workload_taskq nworkers encrypt 1 c.num_runs))
            × ((w : ℕ)
                → w < nworkers
                → (tasks : List (List ℕ)) × Assigned c c.num_runs tasks
                  × (to_worker w sending.0 ≡ some (command cmd) ∷ run_messages 1 tasks)
                  × ((rest : List (Option (Out D)))
                      → serve_taskq_workload cmd true (run_messages 1 tasks ++ rest)
                        ≡ (ready, run_answers c 1 tasks, Workload.served rest)))
      unfolding run_taskq_master serve_taskq_workload send_workload_ready accepts_command
      taskq_session high some_task some_iteration few =
          let cmd = task_queue_cmd encrypt c in
          let ready : WorkloadReady = send_workload_ready workload_taskq true c.task_bytes in
          let ok : ready_ok workload_taskq c.task_bytes (some ready) ≡ true = ground arith in
          let all_ready =
            wait_for_workload_ready_all workload_taskq c.task_bytes (λ w. some ready) nworkers 0
              (λ w. ok) in
          let accepted : accepts_command (task_fields cmd) true ≡ true = ground arith in
          let (ends, serves) = taskq_runs-complete c.num_runs 1 [] (omega (arith, few)) in
          let sent = (runs c.num_runs 1 []).0 in
          (
            rw (run_taskq_master, all_ready) ends,
            λ w known.
                let (tasks, assigned, is) = serves w known in
                (
                  tasks,
                  assigned,
                  rw
                      (
                        run_taskq_master,
                        all_ready,
                        to_worker-append w (to_all {M = Out D} nworkers (command cmd)) sent,
                        to_worker-to_all {M = Out D} w nworkers (command cmd) known,
                        is,
                      )
                      refl,
                  λ rest.
                      rw
                        (
                          serve_taskq_workload,
                          accepted,
                          run_messages-heard c.num_runs 1 tasks assigned rest,
                        )
                        refl,
                ),
          )
