-- ===== src/Taskq/Scheduler/Steps.antt =====
-- One turn of the polling loop, as equations.
use distributed_enclave.Common.{ℕ, zero, suc, ◌≡◌, ◌≤◌, ◌<◌, arith, List, Option, none, some}
use distributed_enclave.Taskq.Check.{Reply}
use distributed_enclave.Taskq.Scheduler.{
  Slot, Counts, RunParams, pass, complete, check_failed, waiting, poll,
}

module _ (p : RunParams) (env : List Slot → Counts → ℕ → Option Reply) (slots : List Slot)
    (c : Counts) where
  pub poll_done :
      (fuel : ℕ) → p.task_count ≤ c.completed → poll p env fuel slots c ≡ complete slots c
  unfolding poll
  poll_done zero done = ground arith
  poll_done (suc fuel) done = ground arith

  pub poll_waiting : c.completed < p.task_count → poll p env 0 slots c ≡ waiting slots c
  unfolding poll
  poll_waiting more = ground arith

  pub poll_failed :
      (fuel : ℕ)
      → c.completed < p.task_count
      → pass p (env slots c) 0 slots c ≡ none
      → poll p env (suc fuel) slots c ≡ check_failed
  unfolding poll
  poll_failed fuel more failed = ground arith

  pub poll_step :
      (fuel : ℕ) (slots' : List Slot) (c' : Counts)
      → c.completed < p.task_count
      → pass p (env slots c) 0 slots c ≡ some (slots', c')
      → poll p env (suc fuel) slots c ≡ poll p env fuel slots' c'
  unfolding poll
  poll_step fuel slots' c' more passed = ground arith
