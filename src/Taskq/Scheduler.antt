-- ===== src/Taskq/Scheduler.antt =====
-- The master's scheduling of one run of the task queue: the first assignments and the polling loop of
-- `run_taskq_master` (src/master_npb.c). What a probe of a worker finds is given from outside.
pub mod Account
pub mod Steps
pub mod Exactly
pub mod Progress
pub mod Served
use distributed_enclave.Common.{
  ℕ, zero, suc, ◌+◌, List, [], ◌∷◌, Bool, true, false, not, Option, none, some,
}
use distributed_enclave.Common.{ltb, ◌==◌, if◌then◌else◌, replicate}
use distributed_enclave.Taskq.Check.{Reply, reply_ok}

-- `busy[w]` and `assigned_task[w]`.
pub record Slot : Type 0 where
  pub busy : Bool
  pub assigned_task : ℕ

-- What the master does towards a worker: it sends the work for a task, or accepts its result.
pub data Action : Type 0 where
  work : ℕ → ℕ → Action
  result : ℕ → ℕ → Action

-- `next_task`, `completed`, and the actions so far, the latest first.
pub record Counts : Type 0 where
  pub next_task : ℕ
  pub completed : ℕ
  pub actions : List Action

-- The parameters of a run that the loop uses.
pub record RunParams : Type 0 where
  pub run : ℕ
  pub task_count : ℕ
  pub payload_bytes : ℕ
  pub jump : List ℕ

abbrev pub idle_slot : Slot
idle_slot = record { busy = false; assigned_task = 0 }

-- `if (next_task < task_count)`: the block that both loops use to hand out a task.
unfoldable pub assign : RunParams → ℕ → Slot → Counts → Slot × Counts
assign p worker slot c =
    if ltb c.next_task p.task_count
    then (
      record { busy = true; assigned_task = c.next_task },
      record c { next_task = c.next_task + 1; actions = work worker c.next_task ∷ c.actions },
    )
    else (slot, c)

-- The loop over the workers before polling starts.
unfoldable pub assign_all : RunParams → ℕ → List Slot → Counts → List Slot × Counts
assign_all p worker [] c = ([], c)
assign_all p worker (slot ∷ slots) c =
    let (slot', c') = assign p worker slot c in
    let (slots', c'') = assign_all p (worker + 1) slots c' in (slot' ∷ slots', c'')

-- One worker in the polling loop; `none` is `status = -1` and leaves the loop.
unfoldable pub visit : RunParams → ℕ → Option Reply → Slot → Counts → Option (Slot × Counts)
visit p worker probe slot c = if not slot.busy then some (slot, c) else elim probe [
  | none ↦ some (slot, c)
  | some reply ↦
      if reply_ok p.run p.payload_bytes p.jump slot.assigned_task reply
      then some (
          assign p worker (record slot { busy = false })
            (record c {
              completed = c.completed + 1;
              actions = result worker slot.assigned_task ∷ c.actions;
            }))
      else none
]

abbrev pub join_pass : Slot → Option (List Slot × Counts) → Option (List Slot × Counts)
join_pass slot none = none
join_pass slot (some (slots, c)) = some (slot ∷ slots, c)

-- `for (worker = 0; worker < nworkers; worker++)`, from `worker` on.
unfoldable pub pass :
    RunParams → (ℕ → Option Reply) → ℕ → List Slot → Counts → Option (List Slot × Counts)
pass p probes worker [] c = some ([], c)
pass p probes worker (slot ∷ slots) c = elim (visit p worker (probes worker) slot c) [
  | none ↦ none
  | some (slot', c') ↦ join_pass slot' (pass p probes (worker + 1) slots c')
]

-- How polling stands: the run is complete, a check failed, or more passes are wanted.
pub data Polled : Type 0 where
  complete : List Slot → Counts → Polled
  check_failed : Polled
  waiting : List Slot → Counts → Polled

-- `while (completed < task_count && status == 0)`. What the probes of a pass find may depend on all
-- that happened; `fuel` bounds the passes, and `waiting` says that it is used up.
unfoldable pub poll :
    RunParams → (List Slot → Counts → ℕ → Option Reply) → ℕ → List Slot → Counts → Polled
poll p env zero slots c = if ltb c.completed p.task_count then waiting slots c else complete slots c
poll p env (suc fuel) slots c = elim (ltb c.completed p.task_count) [
  | false ↦ complete slots c
  | true ↦ elim (pass p (env slots c) 0 slots c) [
    | none ↦ check_failed
    | some (slots', c') ↦ poll p env fuel slots' c'
  ]
]

-- A whole run with `nworkers` workers.
unfoldable pub run_tasks : RunParams → (List Slot → Counts → ℕ → Option Reply) → ℕ → ℕ → Polled
run_tasks p env fuel nworkers =
    let (slots, c) =
      assign_all p 0 (replicate nworkers idle_slot)
        (record { next_task = 0; completed = 0; actions = [] }) in
    poll p env fuel slots c
