-- ===== src/Workload/Tasks/Ids.antt =====
-- The tasks that one worker gets in a run.
use distributed_enclave.Common.{ℕ, ◌<◌, ◌≡◌, arith, Bool, true, false, ◌==◌, All}
use distributed_enclave.Common.{List, [], ◌∷◌, ◌++◌, if◌then◌else◌}
use distributed_enclave.Taskq.Worker.{TaskqCmd}
use distributed_enclave.Taskq.Scheduler.{Slot, Action, work, result, Counts, complete, run_tasks}
use distributed_enclave.Taskq.Scheduler.Account.{count_work}
use distributed_enclave.Taskq.Scheduler.Exactly.{run_tasks_exactly_once}
use distributed_enclave.Taskq.Scheduler.Served.{run_params, served, run_tasks-served}

-- The tasks that one worker gets, in order.
abbrev pub ids_of : ℕ → List Action → List ℕ
ids_of w [] = []
ids_of w (work worker task_id ∷ actions) =
    ids_of w actions ++ (if worker == w then task_id ∷ [] else [])
ids_of w (result worker task_id ∷ actions) = ids_of w actions

All-snoc :
    (P : ℕ → Type 0) (xs : List ℕ) (b : Bool) (x : ℕ)
    → All P xs
    → P x
    → All P (xs ++ (if b then x ∷ [] else []))
All-snoc P [] true x all p = (p, tt)
All-snoc P [] false x all p = tt
All-snoc P (y ∷ xs) b x all p = (all.0, All-snoc P xs b x all.1 p)

-- What is sent out was counted.
ids_of-below :
    (w count : ℕ) (actions : List Action)
    → ((t : ℕ) → 0 < count_work t actions → t < count)
    → All (λ t. t < count) (ids_of w actions)
ids_of-below w count [] known = tt
ids_of-below w count (work worker task_id ∷ actions) known =
    All-snoc (λ t. t < count) (ids_of w actions) (worker == w) task_id
      (ids_of-below w count actions (λ t sent. known t (omega (arith, sent))))
      (known task_id
        (let itself : (task_id == task_id) ≡ true = ground arith in rw itself (omega arith)))
ids_of-below w count (result worker task_id ∷ actions) known = ids_of-below w count actions known

-- The tasks of one run: what the scheduler says, and what each worker is sent.
pub run_complete :
    (c : TaskqCmd) (pos : 0 < c.task_bytes) (nworkers run : ℕ)
    → 0 < nworkers
    → (slots : List Slot) × (counts : Counts) × (run_tasks
          (run_params c run)
          (served c run pos)
          c.task_count
          nworkers
        ≡ complete slots counts)
      × ((w : ℕ) → All (λ t. t < c.task_count) (ids_of w counts.actions))
run_complete c pos nworkers run some_worker =
    let (slots, counts, done) = run_tasks-served c run pos nworkers some_worker in
    (
      slots,
      counts,
      done,
      λ w. ids_of-below w c.task_count counts.actions (λ t sent. ground (
        arith,
        sent,
        (run_tasks_exactly_once (run_params c run) (served c run pos) c.task_count nworkers slots
            counts done t).0,
      )),
    )
