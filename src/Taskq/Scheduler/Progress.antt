-- ===== src/Taskq/Scheduler/Progress.antt =====
-- The polling loop comes to its end: some worker always holds a task, and each answer counts.
use distributed_enclave.Common.{ℕ, zero, suc, ◌+◌, ◌≤◌, ◌<◌, ◌≡◌, refl, arith, List, [], ◌∷◌, true}
use distributed_enclave.Common.{
  Option, none, some, replicate, length, ◌∙◌, ◌⊎◌, inl, inr, Option-cases, length-replicate,
}
use mathlib.Core.Path.{subst}
use distributed_enclave.Taskq.Check.{Reply, reply_ok}
use distributed_enclave.Taskq.Scheduler.{
  Slot, Counts, RunParams, idle_slot, assign, assign_all, visit, pass, complete, poll, run_tasks,
}
use distributed_enclave.Taskq.Scheduler.Account.{
  flag, outstanding, busy_count, assign_all-Moves, pass-Moves, pass_cons, visit-Moves,
}
use distributed_enclave.Taskq.Scheduler.Steps.{poll_done, poll_step}
use distributed_enclave.Taskq.Scheduler.Exactly.{
  Inv, Moves-Inv, start, start-Inv, idle_all, ltb-cases,
}

-- Every probe that finds an answer of a busy worker finds one that passes the checks.
abbrev pub Valid : RunParams → (ℕ → Option Reply) → ℕ → List Slot → Type 0
Valid p probes worker [] = Unit
Valid p probes worker (slot ∷ slots) =
    ((reply : Reply)
      → probes worker ≡ some reply
      → slot.busy ≡ true
      → reply_ok p.run p.payload_bytes p.jump slot.assigned_task reply ≡ true)
    × Valid p probes (worker + 1) slots

-- The probe of some busy worker finds an answer.
abbrev pub Answered : (ℕ → Option Reply) → ℕ → List Slot → Type 0
Answered probes worker [] = ⊥
Answered probes worker (slot ∷ slots) =
    ((slot.busy ≡ true) × (reply : Reply) × (probes worker ≡ some reply))
    ⊎ Answered probes (worker + 1) slots

-- The tasks that workers hold are tasks of the run.
abbrev pub Known : RunParams → List Slot → Type 0
Known p slots = (t : ℕ) → 0 < outstanding t slots → t < p.task_count

Inv-Known :
    (p : RunParams) (slots : List Slot) (c : Counts) → ((t : ℕ) → Inv p t slots c) → Known p slots
Inv-Known p slots c i t held = ground (arith, (i t).works, (i t).results, (i t).bounded)

module _ (p : RunParams) where
  assign_busy :
      (worker : ℕ) (slot : Slot) (c : Counts)
      → let (slot', c') = assign p worker slot c in c'.next_task < p.task_count → slot'.busy ≡ true
  unfolding assign
  assign_busy worker slot c more = ground arith

  assign_all_busy :
      (worker : ℕ) (slots : List Slot) (c : Counts)
      → busy_count slots ≡ 0
      → let (slots', c') = assign_all p worker slots c in
        c'.next_task < p.task_count → busy_count slots' ≡ length slots
  unfolding assign_all
  assign_all_busy worker [] c idle more = refl
  assign_all_busy worker (slot ∷ slots) c idle more =
      let c' = (assign p worker slot c).1 in
      let grows = (assign_all-Moves p 0 (worker + 1) slots c' (ground arith)).next_grows in
      let first = assign_busy worker slot c (omega (arith, more, grows)) in
      rw first (omega (arith, assign_all_busy (worker + 1) slots c' (ground arith) more))

  visit_valid :
      (worker : ℕ) (probe : Option Reply) (slot : Slot) (c : Counts)
      → ((reply : Reply)
          → probe ≡ some reply
          → slot.busy ≡ true
          → reply_ok p.run p.payload_bytes p.jump slot.assigned_task reply ≡ true)
      → (slot' : Slot) × (c' : Counts) × (visit p worker probe slot c ≡ some (slot', c'))
  unfolding visit
  visit_valid worker none slot c valid = (slot, c, ground arith)
  visit_valid worker (some reply) slot c valid =
      elim (Option-cases (visit p worker (some reply) slot c)) [
        | inl failed ↦ absurd (ground (arith, failed, valid reply refl))
        | inr ((slot', c'), visited) ↦ (slot', c', visited)
      ]

  visit_busy :
      (worker : ℕ) (probe : Option Reply) (slot slot' : Slot) (c c' : Counts)
      → visit p worker probe slot c ≡ some (slot', c')
      → c'.next_task < p.task_count
      → flag slot.busy ≤ flag slot'.busy
  unfolding visit assign
  visit_busy worker none slot slot' c c' e more = ground arith
  visit_busy worker (some reply) slot slot' c c' e more = ground arith

  visit_counts :
      (worker : ℕ) (reply : Reply) (slot slot' : Slot) (c c' : Counts)
      → visit p worker (some reply) slot c ≡ some (slot', c')
      → slot.busy ≡ true
      → c'.completed ≡ c.completed + 1
  unfolding visit assign
  visit_counts worker reply slot slot' c c' e busy = ground arith

  pass-Valid :
      (probes : ℕ → Option Reply) (worker : ℕ) (slots : List Slot) (c : Counts)
      → Valid p probes worker slots
      → (slots' : List Slot) × (c' : Counts) × (pass p probes worker slots c ≡ some (slots', c'))
  unfolding pass
  pass-Valid probes worker [] c valid = ([], c, refl)
  pass-Valid probes worker (slot ∷ slots) c (here, there) =
      let (slot', c', visited) = visit_valid worker (probes worker) slot c here in
      let (rest, c'', passed) = pass-Valid probes (worker + 1) slots c' there in
      (slot' ∷ rest, c'', ground (arith, visited, passed))

  pass_busy :
      (probes : ℕ → Option Reply) (worker : ℕ) (slots slots' : List Slot) (c c' : Counts)
      → pass p probes worker slots c ≡ some (slots', c')
      → c'.next_task < p.task_count
      → busy_count slots ≤ busy_count slots'
  pass_busy probes worker [] slots' c c' e more = omega arith
  pass_busy probes worker (slot ∷ slots) slots' c c'' e more =
      let (slot', rest, c', visited, passed, joined) =
        pass_cons p probes worker slot slots slots' c c'' e in
      let grows = (pass-Moves p 0 probes (worker + 1) slots rest c' c'' passed).next_grows in
      let first =
        visit_busy worker (probes worker) slot slot' c c' visited (omega (arith, more, grows)) in
      let others = pass_busy probes (worker + 1) slots rest c' c'' passed more in
      rw joined (omega (arith, first, others))

  pass_counts :
      (probes : ℕ → Option Reply) (worker : ℕ) (slots slots' : List Slot) (c c' : Counts)
      → pass p probes worker slots c ≡ some (slots', c')
      → Answered probes worker slots
      → c.completed < c'.completed
  pass_counts probes worker [] slots' c c' e found = absurd found
  pass_counts probes worker (slot ∷ slots) slots' c c'' e (inl (busy, reply, found)) =
      let (slot', rest, c', visited, passed, joined) =
        pass_cons p probes worker slot slots slots' c c'' e in
      let grows = (pass-Moves p 0 probes (worker + 1) slots rest c' c'' passed).completed_grows in
      let counted =
        visit_counts worker reply slot slot' c c'
          (subst (λ o. visit p worker o slot c ≡ some (slot', c')) found visited) busy in
      omega (arith, grows, counted)
  pass_counts probes worker (slot ∷ slots) slots' c c'' e (inr later) =
      let (slot', rest, c', visited, passed, joined) =
        pass_cons p probes worker slot slots slots' c c'' e in
      let grows =
        (visit-Moves p 0 worker (probes worker) slot slot' c c' visited).completed_grows in
      omega (arith, grows, pass_counts probes (worker + 1) slots rest c' c'' passed later)

  -- As long as tasks are left to hand out, every worker has one.
  abbrev AllBusy : ℕ → List Slot → Counts → Type 0
  AllBusy nworkers slots c = c.next_task < p.task_count → nworkers ≤ busy_count slots

  someone_busy :
      (nworkers : ℕ) (slots : List Slot) (c : Counts)
      → 0 < nworkers
      → Inv p 0 slots c
      → AllBusy nworkers slots c
      → c.completed < p.task_count
      → 0 < busy_count slots
  someone_busy nworkers slots c pos i all more = elim (ltb-cases c.next_task p.task_count) [
    | inl left ↦ omega (arith, all left)
    | inr out ↦ omega (arith, i.totals)
  ]

  poll_completes :
      (env : List Slot → Counts → ℕ → Option Reply) (nworkers fuel : ℕ) (slots : List Slot)
      (c : Counts)
      → ((slots : List Slot) (c : Counts) → Valid p (env slots c) 0 slots)
      → ((slots : List Slot) (c : Counts)
          → 0 < busy_count slots
          → Known p slots
          → Answered (env slots c) 0 slots)
      → 0 < nworkers
      → ((t : ℕ) → Inv p t slots c)
      → AllBusy nworkers slots c
      → p.task_count ≤ c.completed + fuel
      → (slots' : List Slot) × (c' : Counts) × (poll p env fuel slots c ≡ complete slots' c')
  poll_completes env nworkers zero slots c valid answered pos i all enough =
      (slots, c, poll_done p env slots c 0 (omega arith))
  poll_completes env nworkers (suc fuel) slots c valid answered pos i all enough =
      elim (ltb-cases c.completed p.task_count) [
        | inr done ↦ (slots, c, poll_done p env slots c (suc fuel) done)
        | inl more ↦
            (let (slots', c', passed) = pass-Valid (env slots c) 0 slots c (valid slots c) in
              let m = pass-Moves p 0 (env slots c) 0 slots slots' c c' passed in
              let counted = pass_counts (env slots c) 0 slots slots' c c' passed (
                answered slots c (someone_busy nworkers slots c pos (i 0) all more)
                  (Inv-Known p slots c i)) in
              let all' : AllBusy nworkers slots' c' = λ left. omega (
                arith,
                all (omega (arith, left, m.next_grows)),
                pass_busy (env slots c) 0 slots slots' c c' passed left,
              ) in
              let (slots'', c'', e) =
                poll_completes env nworkers fuel slots' c' valid answered pos
                  (λ t.
                    Moves-Inv p t slots slots' c c'
                      (pass-Moves p t (env slots c) 0 slots slots' c c' passed) (i t))
                  all' (omega (arith, counted)) in
              (slots'', c'', poll_step p env slots c fuel slots' c' more passed ∙ e))
      ]

  start_busy :
      (nworkers : ℕ)
      → let (slots, c) = assign_all p 0 (replicate nworkers idle_slot) start in
        AllBusy nworkers slots c
  start_busy nworkers left = omega (
    arith,
    assign_all_busy 0 (replicate nworkers idle_slot) start (idle_all 0 nworkers).0 left,
    length-replicate nworkers idle_slot,
  )

-- When answers pass the checks and each pass over the workers finds at least one, a run with at
-- least one worker is complete after at most `task_count` passes.
pub run_tasks_completes :
    (p : RunParams) (env : List Slot → Counts → ℕ → Option Reply) (nworkers : ℕ)
    → ((slots : List Slot) (c : Counts) → Valid p (env slots c) 0 slots)
    → ((slots : List Slot) (c : Counts)
        → 0 < busy_count slots
        → Known p slots
        → Answered (env slots c) 0 slots)
    → 0 < nworkers
    → (slots : List Slot) × (c : Counts) × (run_tasks p env p.task_count nworkers
        ≡ complete slots c)
unfolding run_tasks
run_tasks_completes p env nworkers valid answered pos =
    poll_completes p env nworkers p.task_count _ _ valid answered pos (λ t. start-Inv p t nworkers)
      (start_busy p nworkers) (omega arith)
