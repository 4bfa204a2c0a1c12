-- ===== src/Taskq/Scheduler/Served.antt =====
-- A run whose answers are those of the worker's own code.
use distributed_enclave.Common.{ℕ, suc, ◌+◌, ◌<◌, ◌≡◌, arith, List, [], ◌∷◌, true}
use distributed_enclave.Common.{Option, none, some, get_elem?, inl, inr, ◌∙◌, ap, Bool-cases, sym}
use distributed_enclave.Taskq.{build_xorshift_jump}
use distributed_enclave.Taskq.Check.{Reply, reply_ok}
use distributed_enclave.Taskq.Messages.{send_taskq_work}
use distributed_enclave.Taskq.Worker.{TaskqCmd, Served, answered, left, failed, serve}
use distributed_enclave.Taskq.Agree.{reply_ok-serve}
use distributed_enclave.Taskq.Scheduler.{Slot, Counts, RunParams, complete, run_tasks}
use distributed_enclave.Taskq.Scheduler.Exactly.{ltb-cases}
use distributed_enclave.Taskq.Scheduler.Account.{busy_count}
use distributed_enclave.Taskq.Scheduler.Progress.{Valid, Answered, Known, run_tasks_completes}

-- What a probe finds when the worker has served the task that it holds.
abbrev pub reply_of : Served → Option Reply
reply_of (answered result output) =
    some
      (record { result_received = true; result = result; output_received = true; output = output })
reply_of left = none
reply_of failed = none

abbrev pub run_params : TaskqCmd → ℕ → RunParams
run_params cmd run = record {
  run = run;
  task_count = cmd.task_count;
  payload_bytes = cmd.task_bytes;
  jump = build_xorshift_jump cmd.task_iters;
}

module _ (cmd : TaskqCmd) (run : ℕ) (pos : 0 < cmd.task_bytes) where
  abbrev pub slot_reply : Option Slot → Option Reply
  slot_reply none = none
  slot_reply (some slot) =
      let (task, input) = send_taskq_work run slot.assigned_task cmd.task_iters cmd.task_bytes in
      reply_of (serve cmd run (some task) (some input) true)

  -- Every worker has served its task by the time it is probed.
  abbrev pub served : List Slot → Counts → ℕ → Option Reply
  served slots c worker = slot_reply (get_elem? slots worker)

  slot_reply-ok :
      (slot : Slot) (reply : Reply)
      → slot_reply (some slot) ≡ some reply
      → reply_ok run cmd.task_bytes (build_xorshift_jump cmd.task_iters) slot.assigned_task reply
        ≡ true
  unfolding serve send_taskq_work
  slot_reply-ok slot reply e = elim (ltb-cases slot.assigned_task cmd.task_count) [
    | inl known ↦
        (let (result, output, answers, ok) = reply_ok-serve cmd run slot.assigned_task known pos in
          let found : slot_reply (some slot) ≡ reply_of (answered result output) =
            ap reply_of answers in
          let same : reply ≡ record {
            result_received = true;
            result = result;
            output_received = true;
            output = output;
          } =
            cc (e, found) in
          rw same ok)
    | inr unknown ↦ absurd (ground arith)
  ]

  slot_reply_known :
      (slot : Slot)
      → slot.assigned_task < cmd.task_count
      → (reply : Reply) × (slot_reply (some slot) ≡ some reply)
  slot_reply_known slot known =
      let (result, output, answers, ok) = reply_ok-serve cmd run slot.assigned_task known pos in
      (
        record { result_received = true; result = result; output_received = true; output = output },
        ap reply_of answers,
      )

  module _ (probes : ℕ → Option Reply) where
    abbrev From : ℕ → List Slot → Type 0
    From worker slots = (i : ℕ) → probes (worker + i) ≡ slot_reply (get_elem? slots i)

    tail-From :
        (worker : ℕ) (slot : Slot) (slots : List Slot)
        → From worker (slot ∷ slots)
        → From (worker + 1) slots
    tail-From worker slot slots from i = ap probes (omega arith) ∙ from (suc i)

    head-From :
        (worker : ℕ) (slot : Slot) (slots : List Slot)
        → From worker (slot ∷ slots)
        → probes worker ≡ slot_reply (some slot)
    head-From worker slot slots from = ap probes (omega arith) ∙ from 0

    From-Valid :
        (worker : ℕ) (slots : List Slot)
        → From worker slots
        → Valid (run_params cmd run) probes worker slots
    From-Valid worker [] from = tt
    From-Valid worker (slot ∷ slots) from = (
      λ reply found busy. slot_reply-ok slot reply (sym (head-From worker slot slots from) ∙ found),
      From-Valid (worker + 1) slots (tail-From worker slot slots from),
    )

    From-Answered :
        (worker : ℕ) (slots : List Slot)
        → From worker slots
        → 0 < busy_count slots
        → Known (run_params cmd run) slots
        → Answered probes worker slots
    From-Answered worker [] from some_busy known = absurd (omega arith)
    From-Answered worker (slot ∷ slots) from some_busy known = elim (Bool-cases slot.busy) [
      | inl busy ↦
          (let (reply, e) = slot_reply_known slot (known slot.assigned_task (ground arith)) in
            inl (busy, reply, head-From worker slot slots from ∙ e))
      | inr idle ↦ inr (
          From-Answered (worker + 1) slots (tail-From worker slot slots from) (ground arith)
            (λ t held. known t (omega arith)))
    ]

  pub served-Valid :
      (slots : List Slot) (c : Counts) → Valid (run_params cmd run) (served slots c) 0 slots
  served-Valid slots c =
      From-Valid (served slots c) 0 slots
        (λ i. ap (λ k. slot_reply (get_elem? slots k)) (omega arith))

  pub served-Answered :
      (slots : List Slot) (c : Counts)
      → 0 < busy_count slots
      → Known (run_params cmd run) slots
      → Answered (served slots c) 0 slots
  served-Answered slots c =
      From-Answered (served slots c) 0 slots
        (λ i. ap (λ k. slot_reply (get_elem? slots k)) (omega arith))

  -- With at least one worker and tasks of at least one byte, when every worker runs the worker's code
  -- on the task that it was sent, measures times in order, and has answered by the time the master
  -- probes it, the master's checks pass on every answer, and the run is complete after at most
  -- `task_count` passes over the workers.
  pub run_tasks-served :
      (nworkers : ℕ)
      → 0 < nworkers
      → (slots : List Slot) × (c : Counts) × (run_tasks
            (run_params cmd run)
            served
            cmd.task_count
            nworkers
          ≡ complete slots c)
  run_tasks-served nworkers some_worker =
      run_tasks_completes (run_params cmd run) served nworkers served-Valid served-Answered
        some_worker
