-- ===== src/Taskq/Scheduler/Exactly.antt =====
-- Every task exactly once: what holds of a run at every moment, and when it is complete.
use distributed_enclave.Common.{ℕ, zero, suc, ◌+◌, ◌≤◌, ◌<◌, ◌≡◌, refl, arith, List, [], ◌∷◌}
use distributed_enclave.Common.{Option, ltb, replicate, Option-cases, ◌⊎◌, inl, inr}
use mathlib.Core.Path.{subst}
use distributed_enclave.Taskq.Check.{Reply}
use distributed_enclave.Taskq.Scheduler.{
  Slot, Counts, RunParams, idle_slot, assign_all, pass, Polled, complete, check_failed, waiting,
  poll, run_tasks,
}
use distributed_enclave.Taskq.Scheduler.Steps.{poll_done, poll_waiting, poll_failed, poll_step}
use distributed_enclave.Taskq.Scheduler.Account.{
  flag, count_work, count_result, outstanding, busy_count, Moves, assign_all-Moves, pass-Moves,
}

-- The account of task `t` in the middle of a run.
pub record Inv (p : RunParams) (t : ℕ) (slots : List Slot) (c : Counts) : Type 0 where
  pub works : count_work t c.actions ≡ flag (ltb t c.next_task)
  pub results : count_result t c.actions + outstanding t slots ≡ count_work t c.actions
  pub totals : c.completed + busy_count slots ≡ c.next_task
  pub bounded : c.next_task ≤ p.task_count

pub Moves-Inv :
    (p : RunParams) (t : ℕ) (slots slots' : List Slot) (c c' : Counts)
    → Moves t p.task_count
        (outstanding t slots)
        (outstanding t slots')
        (busy_count slots)
        (busy_count slots')
        c
        c'
    → Inv p t slots c
    → Inv p t slots' c'
Moves-Inv p t slots slots' c c' m i = record {
  works = m.works i.works;
  results = omega (arith, m.results, i.results);
  totals = omega (arith, m.totals, i.totals);
  bounded = m.bounded i.bounded;
}

abbrev pub start : Counts
start = record { next_task = 0; completed = 0; actions = [] }

pub idle_all :
    (t n : ℕ)
    → (busy_count (replicate n idle_slot) ≡ 0) × (outstanding t (replicate n idle_slot) ≡ 0)
idle_all t zero = (refl, refl)
idle_all t (suc n) = omega (arith, idle_all t n)

pub start-Inv :
    (p : RunParams) (t n : ℕ)
    → let (slots, c) = assign_all p 0 (replicate n idle_slot) start in Inv p t slots c
start-Inv p t n =
    let (slots, c) = assign_all p 0 (replicate n idle_slot) start in
    let m = assign_all-Moves p t 0 (replicate n idle_slot) start (idle_all t n).0 in
    record {
      works = m.works (ground arith);
      results = omega (arith, m.results);
      totals = omega (arith, m.totals);
      bounded = m.bounded (omega arith);
    }

-- What a polling loop may end in, given the account at its start.
abbrev Ends : RunParams → ℕ → Polled → Type 0
Ends p t (complete slots c) = Inv p t slots c × (p.task_count ≤ c.completed)
Ends p t check_failed = Unit
Ends p t (waiting slots c) = Inv p t slots c × (c.completed < p.task_count)

pub ltb-cases : (m n : ℕ) → (m < n) ⊎ (n ≤ m)
ltb-cases m n = omega arith

poll-Ends :
    (p : RunParams) (t : ℕ) (env : List Slot → Counts → ℕ → Option Reply) (fuel : ℕ)
    (slots : List Slot) (c : Counts)
    → Inv p t slots c
    → Ends p t (poll p env fuel slots c)
poll-Ends p t env zero slots c i = elim (ltb-cases c.completed p.task_count) [
  | inl more ↦ rw (poll_waiting p env slots c more) (i, more)
  | inr done ↦ rw (poll_done p env slots c 0 done) (i, done)
]
poll-Ends p t env (suc fuel) slots c i = elim (ltb-cases c.completed p.task_count) [
  | inl more ↦ elim (Option-cases (pass p (env slots c) 0 slots c)) [
    | inl failed ↦ rw (poll_failed p env slots c fuel more failed) tt
    | inr ((slots', c'), passed) ↦ rw (poll_step p env slots c fuel slots' c' more passed) (
        poll-Ends p t env fuel slots' c' (
          Moves-Inv p t slots slots' c c' (pass-Moves p t (env slots c) 0 slots slots' c c' passed)
            i))
  ]
  | inr done ↦ rw (poll_done p env slots c (suc fuel) done) (i, done)
]

run_tasks-Ends :
    (p : RunParams) (t : ℕ) (env : List Slot → Counts → ℕ → Option Reply) (fuel nworkers : ℕ)
    → Ends p t (run_tasks p env fuel nworkers)
unfolding run_tasks
run_tasks-Ends p t env fuel nworkers = poll-Ends p t env fuel _ _ (start-Inv p t nworkers)

outstanding-le : (t : ℕ) (slots : List Slot) → outstanding t slots ≤ busy_count slots
outstanding-le t [] = omega arith
outstanding-le t (slot ∷ slots) = ground (arith, outstanding-le t slots)

-- When a run is complete, every task below `task_count` was sent out exactly once and its result
-- was accepted exactly once, no other number was, and no worker is busy.
pub run_tasks_exactly_once :
    (p : RunParams) (env : List Slot → Counts → ℕ → Option Reply) (fuel nworkers : ℕ)
    (slots : List Slot) (c : Counts)
    → run_tasks p env fuel nworkers ≡ complete slots c
    → (t : ℕ)
    → (count_work t c.actions ≡ flag (ltb t p.task_count))
      × (count_result t c.actions ≡ flag (ltb t p.task_count))
      × (c.completed ≡ p.task_count)
      × (busy_count slots ≡ 0)
run_tasks_exactly_once p env fuel nworkers slots c e t =
    let (i, done) = subst (Ends p t) e (run_tasks-Ends p t env fuel nworkers) in
    ground (arith, i.works, i.results, i.totals, i.bounded, done, outstanding-le t slots)

-- While a run is going on, no task was sent out twice, and each accepted result, and each task
-- outstanding on a worker, is one of a task that was sent out.
pub run_tasks_at_most_once :
    (p : RunParams) (env : List Slot → Counts → ℕ → Option Reply) (fuel nworkers : ℕ)
    (slots : List Slot) (c : Counts)
    → run_tasks p env fuel nworkers ≡ waiting slots c
    → (t : ℕ)
    → (count_work t c.actions ≤ 1)
      × (count_result t c.actions + outstanding t slots ≡ count_work t c.actions)
      × (c.completed + busy_count slots ≤ p.task_count)
run_tasks_at_most_once p env fuel nworkers slots c e t =
    let (i, more) = subst (Ends p t) e (run_tasks-Ends p t env fuel nworkers) in
    ground (arith, i.works, i.results, i.totals, i.bounded)
