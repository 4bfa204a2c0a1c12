-- ===== src/Timeout/Nesting.antt =====
-- Nested waits against a stack of the kinds that are open: the outermost one sets the deadline.
use distributed_enclave.Common.{
  ℕ, zero, suc, ◌≤◌, ◌≡◌, refl, arith, Bool, true, false, ◌&&◌, leb, ltb,
}
use distributed_enclave.Common.{
  List, [], ◌∷◌, Option, none, some, Option-cases, inl, inr, if◌then◌else◌, length,
}
use distributed_enclave.Timeout.{
  Env, Limits, limit_of, Wait, SystemCalls, sig_dfl, is_free, timeout_setting, read_limits,
  configure, arm, npb_wait_begin, npb_wait_end, on_alarm, npb_wait_shutdown, npb_timeout_exit_code,
  uint_max,
}
use mathlib.Core.Path.{subst}
use distributed_enclave.Timeout.Setting.{timeout_setting-range}

-- The kinds that are open, the innermost first.
abbrev pub Scopes : Type 0
Scopes = List ℕ

abbrev pub is_open : Scopes → Bool
is_open [] = false
is_open (kind ∷ rest) = true

abbrev pub deadline : Limits → Scopes → ℕ
deadline limits [] = 0
deadline limits (kind ∷ []) = limit_of limits kind
deadline limits (kind ∷ outer ∷ rest) = deadline limits (outer ∷ rest)

-- The static variables and the alarm stand for the open scopes.
pub record Represents (env : Env) (limits : Limits) (scopes : Scopes) (w : Wait) : Type 0 where
  pub limits_known : configure env w ≡ some limits
  pub depth : w.wait_depth ≡ length scopes
  pub bounded : length scopes ≤ uint_max
  pub active : w.deadline_active ≡ is_open scopes
  pub alarm : w.alarm_seconds ≡ deadline limits scopes
  pub free : is_free w.handler ≡ true

pub data Event : Type 0 where
  begin : ℕ → Event
  finish : Event

-- The promise: a stack that grows up to `uint_max` scopes; `none` is the end of the process.
abbrev pub step_scopes : Event → Scopes → Option Scopes
step_scopes (begin kind) scopes =
    if leb kind npb_wait_shutdown && ltb (length scopes) uint_max
    then some (kind ∷ scopes)
    else none
step_scopes finish [] = none
step_scopes finish (kind ∷ scopes) = some scopes

-- System calls that all succeed, with nobody else using SIGALRM.
abbrev pub quiet : SystemCalls
quiet = record {
  block_ok = true;
  alarm_was_blocked = false;
  inspect_ok = true;
  install_ok = true;
  restore_ok = true;
}

abbrev pub step_wait : Env → Event → Wait → Option Wait
step_wait env (begin kind) w = npb_wait_begin env quiet kind w
step_wait env finish w = npb_wait_end quiet w

-- Both end the process, or both go on and still agree.
abbrev pub Agree : Env → Limits → Option Scopes → Option Wait → Type 0
Agree env limits none none = Unit
Agree env limits none (some w) = ⊥
Agree env limits (some scopes) none = ⊥
Agree env limits (some scopes) (some w) = Represents env limits scopes w

module _ (env : Env) (limits : Limits) where
  begin-Agree :
      (kind : ℕ) (scopes : Scopes) (w : Wait)
      → Represents env limits scopes w
      → Agree env limits (step_scopes (begin kind) scopes) (step_wait env (begin kind) w)
  unfolding npb_wait_begin arm configure
  begin-Agree kind [] w r = ground arith
  begin-Agree kind (outer ∷ scopes) w r = ground arith

  finish-Agree :
      (scopes : Scopes) (w : Wait)
      → Represents env limits scopes w
      → Agree env limits (step_scopes finish scopes) (step_wait env finish w)
  unfolding npb_wait_end configure
  finish-Agree [] w r = ground arith
  finish-Agree (kind ∷ []) w r = ground arith
  finish-Agree (kind ∷ outer ∷ scopes) w r = ground arith

  event-Agree :
      (event : Event) (scopes : Scopes) (w : Wait)
      → Represents env limits scopes w
      → Agree env limits (step_scopes event scopes) (step_wait env event w)
  event-Agree (begin kind) scopes w r = begin-Agree kind scopes w r
  event-Agree finish scopes w r = finish-Agree scopes w r

abbrev pub run_scopes : List Event → Scopes → Option Scopes
run_scopes [] scopes = some scopes
run_scopes (event ∷ events) scopes = elim (step_scopes event scopes) [
  | none ↦ none
  | some scopes' ↦ run_scopes events scopes'
]

abbrev pub run_wait : Env → List Event → Wait → Option Wait
run_wait env [] w = some w
run_wait env (event ∷ events) w = elim (step_wait env event w) [
  | none ↦ none
  | some w' ↦ run_wait env events w'
]

module _ (env : Env) (limits : Limits) where
  then-Agree :
      (events : List Event) (next : Option Scopes) (next' : Option Wait)
      → Agree env limits next next'
      → ((scopes : Scopes) (w : Wait)
          → Represents env limits scopes w
          → Agree env limits (run_scopes events scopes) (run_wait env events w))
      → Agree env limits
          (elim next [ none ↦ none | some scopes ↦ run_scopes events scopes ])
          (elim next' [ none ↦ none | some w ↦ run_wait env events w ])
  then-Agree events none none agree go = tt
  then-Agree events none (some w) agree go = absurd agree
  then-Agree events (some scopes) none agree go = absurd agree
  then-Agree events (some scopes) (some w) agree go = go scopes w agree

  -- When the settings are valid, nobody else handles SIGALRM, and every system call succeeds: from a
  -- state that stands for the open scopes, for every sequence of begins and ends, the code and the
  -- stack end the process at the same moment, or both go on and the code's state still stands for
  -- the open scopes.
  pub run_wait-refines :
      (events : List Event) (scopes : Scopes) (w : Wait)
      → Represents env limits scopes w
      → Agree env limits (run_scopes events scopes) (run_wait env events w)
  run_wait-refines [] scopes w r = r
  run_wait-refines (event ∷ events) scopes w r =
      then-Agree events (step_scopes event scopes) (step_wait env event w)
        (event-Agree env limits event scopes w r) (run_wait-refines events)

abbrev pub InRange : ℕ → Type 0
InRange seconds = (1 ≤ seconds) × (seconds ≤ 86400)

limits_range :
    (kind enrollment io shutdown : ℕ)
    → InRange enrollment
    → InRange io
    → InRange shutdown
    → InRange (limit_of (record { enrollment = enrollment; io = io; shutdown = shutdown }) kind)
limits_range zero enrollment io shutdown a b c = a
limits_range (suc zero) enrollment io shutdown a b c = b
limits_range (suc (suc kind)) enrollment io shutdown a b c = c

read_limits-InRange :
    (env : Env) (limits : Limits)
    → read_limits env ≡ some limits
    → (kind : ℕ) → InRange (limit_of limits kind)
read_limits-InRange env limits e kind =
    elim (Option-cases (timeout_setting env.enroll_timeout 300)) [
      | inl failed ↦ absurd (ground arith)
      | inr (enrollment, e₁) ↦ elim (Option-cases (timeout_setting env.io_timeout 600)) [
        | inl failed ↦ absurd (ground arith)
        | inr (io, e₂) ↦ elim (Option-cases (timeout_setting env.shutdown_timeout 60)) [
          | inl failed ↦ absurd (ground arith)
          | inr (shutdown, e₃) ↦
              (let same : limits
                    ≡ record { enrollment = enrollment; io = io; shutdown = shutdown } =
                  ground arith in
                rw same (
                  limits_range kind enrollment io shutdown
                    (timeout_setting-range _ 300 enrollment (omega arith) (omega arith) e₁)
                    (timeout_setting-range _ 600 io (omega arith) (omega arith) e₂)
                    (timeout_setting-range _ 60 shutdown (omega arith) (omega arith) e₃)))
        ]
      ]
    ]

deadline-InRange :
    (limits : Limits)
    → ((kind : ℕ) → InRange (limit_of limits kind))
    → (kind : ℕ) (scopes : Scopes) → InRange (deadline limits (kind ∷ scopes))
deadline-InRange limits range kind [] = range kind
deadline-InRange limits range kind (outer ∷ scopes) = deadline-InRange limits range outer scopes

-- The state of a process that has not waited yet.
abbrev pub fresh : Wait
fresh = record {
  wait_limits = none;
  wait_depth = 0;
  deadline_active = false;
  handler = sig_dfl;
  alarm_seconds = 0;
}

pub fresh-Represents :
    (env : Env) (limits : Limits) → read_limits env ≡ some limits → Represents env limits [] fresh
unfolding configure
fresh-Represents env limits e = record {
  limits_known = e;
  depth = refl;
  bounded = omega arith;
  active = refl;
  alarm = refl;
  free = refl;
}

-- In a process with valid settings, while any wait is open, the alarm is set to the limit of the
-- outermost one, from 1 to 86400 seconds, and its arrival ends the process with code 124.
pub run_wait-deadline :
    (env : Env) (limits : Limits) (events : List Event) (kind : ℕ) (scopes : Scopes) (w : Wait)
    → read_limits env ≡ some limits
    → run_scopes events [] ≡ some (kind ∷ scopes)
    → run_wait env events fresh ≡ some w
    → (w.alarm_seconds ≡ deadline limits (kind ∷ scopes))
      × InRange w.alarm_seconds
      × (on_alarm w ≡ some npb_timeout_exit_code)
unfolding on_alarm
run_wait-deadline env limits events kind scopes w known open_scopes ran =
    let agree = run_wait-refines env limits events [] fresh (fresh-Represents env limits known) in
    let r : Represents env limits (kind ∷ scopes) w =
      subst (Agree env limits (some (kind ∷ scopes))) ran
        (subst (λ o. Agree env limits o (run_wait env events fresh)) open_scopes agree) in
    ground (
      arith,
      r.alarm,
      r.active,
      deadline-InRange limits (read_limits-InRange env limits known) kind scopes,
    )
