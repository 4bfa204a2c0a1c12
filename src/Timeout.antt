-- ===== src/Timeout.antt =====
-- Deadlines of blocking waits: src/npb_timeout.c and the brackets of src/npb_mpi_wait.h. The
-- operating system's answers and its signal state are arguments; a failed call ends the process.
pub mod Setting
pub mod Nesting
mod Tests
use distributed_enclave.Common.{
  ℕ, zero, suc, ◌+◌, ◌-◌, ◌*◌, ◌^◌, ◌%◌, Bool, true, false, not, ◌&&◌, ◌||◌, ltb, ◌==◌,
}
use distributed_enclave.Common.{List, [], ◌∷◌, Option, none, some, if◌then◌else◌}
use distributed_enclave.Wire.{Bytes, word32}

abbrev pub npb_timeout_exit_code : ℕ
npb_timeout_exit_code = 124

abbrev pub npb_wait_enrollment : ℕ
npb_wait_enrollment = 0

abbrev pub npb_wait_io : ℕ
npb_wait_io = 1

abbrev pub npb_wait_shutdown : ℕ
npb_wait_shutdown = 2

abbrev pub uint_max : ℕ
uint_max = 2 ^ 32 - 1

-- The loop over the characters; `none` is the exit in `configuration_error`.
pub setting_loop : Bytes → ℕ → Option ℕ
setting_loop [] seconds = some seconds
setting_loop (c ∷ text) seconds =
    if ltb c b'0' || (ltb b'9' c || ltb 8640 seconds)
    then none
    else (let seconds' = word32 (word32 (seconds * 10) + (c - b'0')) in
        if ltb 86400 seconds' then none else setting_loop text seconds')

-- `getenv` gives no text or a text.
unfoldable pub timeout_setting : Option Bytes → ℕ → Option ℕ
unfolding setting_loop
timeout_setting none fallback = some fallback
timeout_setting (some []) fallback = none
timeout_setting (some (c ∷ text)) fallback = elim (setting_loop (c ∷ text) 0) [
  | none ↦ none
  | some seconds ↦ if seconds == 0 then none else some seconds
]

-- The limits of the three kinds of wait.
pub record Limits : Type 0 where
  pub enrollment : ℕ
  pub io : ℕ
  pub shutdown : ℕ

abbrev pub limit_of : Limits → ℕ → ℕ
limit_of limits zero = limits.enrollment
limit_of limits (suc zero) = limits.io
limit_of limits (suc (suc kind)) = limits.shutdown

-- The environment variables that the module reads.
pub record Env : Type 0 where
  pub enroll_timeout : Option Bytes
  pub io_timeout : Option Bytes
  pub shutdown_timeout : Option Bytes

pub data Handler : Type 0 where
  sig_dfl : Handler
  timeout_handler : Handler
  other_handler : Handler

-- The static variables, and what the system holds for the process: the handler of SIGALRM and the
-- seconds that the alarm is set to, 0 for none.
pub record Wait : Type 0 where
  pub wait_limits : Option Limits
  pub wait_depth : ℕ
  pub deadline_active : Bool
  pub handler : Handler
  pub alarm_seconds : ℕ

-- The answers of the system during one call.
pub record SystemCalls : Type 0 where
  pub block_ok : Bool
  pub alarm_was_blocked : Bool
  pub inspect_ok : Bool
  pub install_ok : Bool
  pub restore_ok : Bool

abbrev pub read_limits : Env → Option Limits
read_limits env = elim (timeout_setting env.enroll_timeout 300) [
  | none ↦ none
  | some enrollment ↦ elim (timeout_setting env.io_timeout 600) [
    | none ↦ none
    | some io ↦ elim (timeout_setting env.shutdown_timeout 60) [
      | none ↦ none
      | some shutdown ↦ some (record { enrollment = enrollment; io = io; shutdown = shutdown })
    ]
  ]
]

-- `if (!configured)`
unfoldable pub configure : Env → Wait → Option Limits
configure env w = elim w.wait_limits [ some limits ↦ some limits | none ↦ read_limits env ]

abbrev pub is_free : Handler → Bool
is_free sig_dfl = true
is_free timeout_handler = true
is_free other_handler = false

-- From `block_alarm` to the end.
unfoldable pub arm : SystemCalls → Limits → ℕ → Wait → Option Wait
arm calls limits kind w =
    if not calls.block_ok || (calls.alarm_was_blocked || not calls.inspect_ok)
    then none
    else if not (is_free w.handler) || not (w.alarm_seconds == 0)
    then none
    else if not calls.install_ok || not calls.restore_ok
    then none
    else some (record {
      wait_limits = some limits;
      wait_depth = 1;
      deadline_active = true;
      handler = timeout_handler;
      alarm_seconds = limit_of limits kind;
    })

-- `none` is the exit in `configuration_error`.
unfoldable pub npb_wait_begin : Env → SystemCalls → ℕ → Wait → Option Wait
npb_wait_begin env calls kind w =
    if ltb npb_wait_shutdown kind
    then none
    else if not (w.wait_depth == 0)
    then (if w.wait_depth == uint_max
        then none
        else some (record w { wait_depth = w.wait_depth + 1 }))
    else elim (configure env w) [ none ↦ none | some limits ↦ arm calls limits kind w ]

unfoldable pub npb_wait_end : SystemCalls → Wait → Option Wait
npb_wait_end calls w =
    if w.wait_depth == 0
    then none
    else if not (w.wait_depth == 1)
    then some (record w { wait_depth = w.wait_depth - 1 })
    else if not calls.block_ok || not calls.restore_ok
    then none
    else some (record w { wait_depth = 0; deadline_active = false; alarm_seconds = 0 })

-- The signal arrives: the exit code, if the process ends in the handler.
unfoldable pub on_alarm : Wait → Option ℕ
on_alarm w = if w.deadline_active then some npb_timeout_exit_code else none

-- `npb_bind_child_to_parent`: whether prctl succeeded, and whether the parent is still the expected one.
unfoldable pub npb_bind_child_to_parent : Bool → Bool → Bool
npb_bind_child_to_parent prctl_ok same_parent = if not prctl_ok then false else same_parent

-- `npb_mpi_init`, `npb_mpi_disconnect` and `npb_mpi_finalize`: a call between the two ends of a wait.
unfoldable pub bracket : Env → SystemCalls → SystemCalls → ℕ → ℕ → Wait → Option (ℕ × Wait)
bracket env before after kind result w = elim (npb_wait_begin env before kind w) [
  | none ↦ none
  | some w' ↦ elim (npb_wait_end after w') [ none ↦ none | some w'' ↦ some (result, w'') ]
]
