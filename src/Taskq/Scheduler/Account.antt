-- ===== src/Taskq/Scheduler/Account.antt =====
-- Keeping account of tasks: how often each was sent out, how often its result was accepted, and on
-- which workers it is outstanding.
use distributed_enclave.Common.{ℕ, ◌+◌, ◌≤◌, ◌≡◌, refl, arith, List, [], ◌∷◌, Bool, true, false}
use distributed_enclave.Common.{
  Option, none, some, ltb, ◌==◌, ◌&&◌, Option-cases, Bool-cases, inl, inr,
}
use mathlib.Core.Path.{sym, subst}
use distributed_enclave.Taskq.Check.{Reply}
use distributed_enclave.Taskq.Scheduler.{
  Slot, Action, work, result, Counts, RunParams, assign, assign_all, visit, pass,
}

abbrev pub flag : Bool → ℕ
flag true = 1
flag false = 0

abbrev pub count_work : ℕ → List Action → ℕ
count_work t [] = 0
count_work t (work w u ∷ acts) = flag (t == u) + count_work t acts
count_work t (result w u ∷ acts) = count_work t acts

abbrev pub count_result : ℕ → List Action → ℕ
count_result t [] = 0
count_result t (work w u ∷ acts) = count_result t acts
count_result t (result w u ∷ acts) = flag (t == u) + count_result t acts

abbrev pub on_slot : ℕ → Slot → ℕ
on_slot t slot = flag (slot.busy && (t == slot.assigned_task))

abbrev pub outstanding : ℕ → List Slot → ℕ
outstanding t [] = 0
outstanding t (slot ∷ slots) = on_slot t slot + outstanding t slots

abbrev pub busy_count : List Slot → ℕ
busy_count [] = 0
busy_count (slot ∷ slots) = flag slot.busy + busy_count slots

-- The counts behind an accepted result.
abbrev accept : ℕ → Slot → Counts → Counts
accept worker slot c = record c {
  completed = c.completed + 1;
  actions = result worker slot.assigned_task ∷ c.actions;
}

-- From counts `c` to `c'`, while task `t` was outstanding `on` and then `on'` times, and `b` and
-- then `b'` workers were busy.
pub record Moves (t count on on' b b' : ℕ) (c c' : Counts) : Type 0 where
  pub results :
      count_result t c'.actions + on' + count_work t c.actions
      ≡ count_result t c.actions + on + count_work t c'.actions
  pub totals : c'.completed + b' + c.next_task ≡ c.completed + b + c'.next_task
  pub works :
      count_work t c.actions ≡ flag (ltb t c.next_task)
      → count_work t c'.actions ≡ flag (ltb t c'.next_task)
  pub next_grows : c.next_task ≤ c'.next_task
  pub completed_grows : c.completed ≤ c'.completed
  pub bounded : c.next_task ≤ count → c'.next_task ≤ count

stay : (t count on b : ℕ) (c : Counts) → Moves t count on on b b c c
stay t count on b c = record {
  results = omega arith;
  totals = omega arith;
  works = λ h. h;
  next_grows = omega arith;
  completed_grows = omega arith;
  bounded = λ h. h;
}

pub then-Moves :
    (t count : ℕ) {o o' p p' b b' d d' : ℕ} {c c' c'' : Counts}
    → Moves t count o o' b b' c c'
    → Moves t count p p' d d' c' c''
    → Moves t count (o + p) (o' + p') (b + d) (b' + d') c c''
then-Moves t count m n = record {
  results = omega (arith, m.results, n.results);
  totals = omega (arith, m.totals, n.totals);
  works = λ h. n.works (m.works h);
  next_grows = omega (arith, m.next_grows, n.next_grows);
  completed_grows = omega (arith, m.completed_grows, n.completed_grows);
  bounded = λ h. n.bounded (m.bounded h);
}

pub seq-Moves :
    (t count : ℕ) {o o' o'' b b' b'' : ℕ} {c c' c'' : Counts}
    → Moves t count o o' b b' c c'
    → Moves t count o' o'' b' b'' c' c''
    → Moves t count o o'' b b'' c c''
seq-Moves t count m n = record {
  results = omega (arith, m.results, n.results);
  totals = omega (arith, m.totals, n.totals);
  works = λ h. n.works (m.works h);
  next_grows = omega (arith, m.next_grows, n.next_grows);
  completed_grows = omega (arith, m.completed_grows, n.completed_grows);
  bounded = λ h. n.bounded (m.bounded h);
}

-- A pass that comes to its end, taken apart.
module _ (p : RunParams) (probes : ℕ → Option Reply) (worker : ℕ) where
  pub pass_nil :
      (slots' : List Slot) (c c' : Counts)
      → pass p probes worker [] c ≡ some (slots', c')
      → (slots' ≡ []) × (c' ≡ c)
  unfolding pass
  pass_nil slots' c c' e = ground arith

  pub pass_cons :
      (slot : Slot) (slots slots' : List Slot) (c c'' : Counts)
      → pass p probes worker (slot ∷ slots) c ≡ some (slots', c'')
      → (slot' : Slot) × (rest : List Slot) × (c' : Counts) × (visit p worker (probes worker) slot c
          ≡ some (slot', c'))
        × (pass p probes (worker + 1) slots c' ≡ some (rest, c''))
        × (slots' ≡ slot' ∷ rest)
  unfolding pass
  pass_cons slot slots slots' c c'' e =
      elim (Option-cases (visit p worker (probes worker) slot c)) [
        | inl failed ↦ absurd (ground arith)
        | inr ((slot', c'), visited) ↦ elim (Option-cases (pass p probes (worker + 1) slots c')) [
          | inl failed ↦ absurd (ground arith)
          | inr ((rest, c₃), passed) ↦ (slot', rest, c', visited, ground arith, ground arith)
        ]
      ]

module _ (p : RunParams) (t : ℕ) where
  -- Handing out a task to an idle worker.
  pub assign-Moves :
      (worker : ℕ) (slot : Slot) (c : Counts)
      → slot.busy ≡ false
      → let (slot', c') = assign p worker slot c in
        Moves t p.task_count 0 (on_slot t slot') 0 (flag slot'.busy) c c'
  unfolding assign
  assign-Moves worker slot c idle = ground arith

  accept-Moves :
      (worker : ℕ) (slot : Slot) (c : Counts)
      → slot.busy ≡ true
      → Moves t p.task_count (on_slot t slot) 0 (flag slot.busy) 0 c (accept worker slot c)
  accept-Moves worker slot c busy = ground arith

  visit_accepted :
      (worker : ℕ) (reply : Reply) (slot slot' : Slot) (c c' : Counts)
      → slot.busy ≡ true
      → visit p worker (some reply) slot c ≡ some (slot', c')
      → (slot', c') ≡ assign p worker (record slot { busy = false }) (accept worker slot c)
  unfolding visit
  visit_accepted worker reply slot slot' c c' busy e = ground arith

  visit_idle :
      (worker : ℕ) (probe : Option Reply) (slot slot' : Slot) (c c' : Counts)
      → slot.busy ≡ false
      → visit p worker probe slot c ≡ some (slot', c')
      → (slot' ≡ slot) × (c' ≡ c)
  unfolding visit
  visit_idle worker probe slot slot' c c' idle e = ground arith

  visit_silent :
      (worker : ℕ) (slot slot' : Slot) (c c' : Counts)
      → visit p worker none slot c ≡ some (slot', c')
      → (slot' ≡ slot) × (c' ≡ c)
  unfolding visit
  visit_silent worker slot slot' c c' e = ground arith

  pub visit-Moves :
      (worker : ℕ) (probe : Option Reply) (slot slot' : Slot) (c c' : Counts)
      → visit p worker probe slot c ≡ some (slot', c')
      → Moves t p.task_count
          (on_slot t slot)
          (on_slot t slot')
          (flag slot.busy)
          (flag slot'.busy)
          c
          c'
  visit-Moves worker none slot slot' c c' e =
      let (same, kept) = visit_silent worker slot slot' c c' e in
      rw (same, kept) (stay t p.task_count (on_slot t slot) (flag slot.busy) c)
  visit-Moves worker (some reply) slot slot' c c' e = elim (Bool-cases slot.busy) [
    | inl busy ↦
        (let accepted = accept-Moves worker slot c busy in
          let moved = visit_accepted worker reply slot slot' c c' busy e in
          seq-Moves t p.task_count accepted (
            subst
              (λ r.
                Moves t p.task_count 0 (on_slot t r.0) 0 (flag r.0.busy) (accept worker slot c) r.1)
              (sym moved)
              (assign-Moves worker (record slot { busy = false }) (accept worker slot c) refl)))
    | inr idle ↦
        (let (same, kept) = visit_idle worker (some reply) slot slot' c c' idle e in
          rw (same, kept) (stay t p.task_count (on_slot t slot) (flag slot.busy) c))
  ]

  pub assign_all-Moves :
      (worker : ℕ) (slots : List Slot) (c : Counts)
      → busy_count slots ≡ 0
      → let (slots', c') = assign_all p worker slots c in
        Moves t p.task_count 0 (outstanding t slots') 0 (busy_count slots') c c'
  unfolding assign_all
  assign_all-Moves worker [] c idle = stay t p.task_count 0 0 c
  assign_all-Moves worker (slot ∷ slots) c idle =
      let first = assign-Moves worker slot c (ground arith) in
      let c' = (assign p worker slot c).1 in
      then-Moves t p.task_count {o = 0} {p = 0} {b = 0} {d = 0} first
        (assign_all-Moves (worker + 1) slots c' (omega arith))

  pub pass-Moves :
      (probes : ℕ → Option Reply) (worker : ℕ) (slots slots' : List Slot) (c c' : Counts)
      → pass p probes worker slots c ≡ some (slots', c')
      → Moves t p.task_count
          (outstanding t slots)
          (outstanding t slots')
          (busy_count slots)
          (busy_count slots')
          c
          c'
  pass-Moves probes worker [] slots' c c' e =
      let (same, kept) = pass_nil p probes worker slots' c c' e in
      rw (same, kept) (stay t p.task_count 0 0 c)
  pass-Moves probes worker (slot ∷ slots) slots' c c'' e =
      let (slot', rest, c', visited, passed, joined) =
        pass_cons p probes worker slot slots slots' c c'' e in
      rw joined (
        then-Moves t p.task_count (visit-Moves worker (probes worker) slot slot' c c' visited)
          (pass-Moves probes (worker + 1) slots rest c' c'' passed))
