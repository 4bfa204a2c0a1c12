-- ===== src/Workload/Tasks/Within.antt =====
-- What the worker leaves of its messages in the workload TASKQ.
use distributed_enclave.Common.{ℕ, zero, suc, ◌+◌, ◌≡◌, refl, arith, Bool, true, false, not, length}
use distributed_enclave.Common.{List, [], ◌∷◌, Option, none, some, Bool-cases, inl, inr, ◌⊎◌}
use distributed_enclave.Workload.{NpbCmd, Out, taskq_control, taskq_task}
use distributed_enclave.Workload.Tasks.{task_fields, taskq_loop, serve_taskq_workload}
use distributed_enclave.Taskq.Worker.{
  TaskqCmd, Served, answered, left, serve, control_ok, accepts_command,
}
use distributed_enclave.Taskq.Worker
use distributed_enclave.Taskq.Messages.{TaskqResult}
use distributed_enclave.Workload.Within.{Within, more_room}

served_cases :
    (s : Served)
    → ((reply : TaskqResult) × (output : List ℕ) × (s ≡ answered reply output))
      ⊎ ((s ≡ left) ⊎ (s ≡ Worker.failed))
served_cases (answered reply output) = inl (reply, output, refl)
served_cases left = inr (inl refl)
served_cases Worker.failed = inr (inr refl)

module _ {D : Type 0} where
  pub taskq_loop-Within :
      (c : TaskqCmd) (more run : ℕ) (inside : Bool) (messages : List (Option (Out D)))
      → Within (length messages) (taskq_loop c more run inside messages).1
  unfolding taskq_loop
  taskq_loop-Within c zero run false messages = omega arith
  taskq_loop-Within c zero run true messages = tt
  taskq_loop-Within c (suc more) run inside [] = tt
  taskq_loop-Within c (suc more) run inside (none ∷ messages) = tt
  taskq_loop-Within c (suc more) run false (some (taskq_control control for_run) ∷ messages) =
      elim (Bool-cases (control_ok run (some (control, for_run)))) [
        | inl is ↦
            rw (taskq_loop, is)
              (more_room (length messages) (taskq_loop c (suc more) run true messages).1
                (taskq_loop-Within c (suc more) run true messages))
        | inr is ↦ rw (taskq_loop, is) tt
      ]
  taskq_loop-Within c (suc more) run false (some _ ∷ messages) = tt
  taskq_loop-Within c (suc more) run true (some (taskq_task m) ∷ messages) =
      elim (served_cases (serve c run m.task m.input m.time_ok)) [
        | inl (reply, output, is) ↦
            rw (taskq_loop, is)
              (more_room (length messages) (taskq_loop c (suc more) run true messages).1
                (taskq_loop-Within c (suc more) run true messages))
        | inr (inl is) ↦
            rw (taskq_loop, is)
              (more_room (length messages) (taskq_loop c more (run + 1) false messages).1
                (taskq_loop-Within c more (run + 1) false messages))
        | inr (inr is) ↦ rw (taskq_loop, is) tt
      ]
  taskq_loop-Within c (suc more) run true (some _ ∷ messages) = tt

  pub serve_taskq_workload-Within :
      (cmd : NpbCmd) (allocated : Bool) (messages : List (Option (Out D)))
      → Within (length messages) (serve_taskq_workload cmd allocated messages).2
  unfolding serve_taskq_workload
  serve_taskq_workload-Within cmd allocated messages =
      elim (Bool-cases (not (accepts_command (task_fields cmd) allocated))) [
        | inl is ↦ rw (serve_taskq_workload, is) tt
        | inr is ↦
            rw (serve_taskq_workload, is)
              (taskq_loop-Within (task_fields cmd) cmd.num_runs 1 false messages)
      ]
