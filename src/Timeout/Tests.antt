-- ===== src/Timeout/Tests.antt =====
-- Runs of nested waits.
use distributed_enclave.Common.{[], ◌∷◌, ◌≡◌, refl, List, none, some, true}
use distributed_enclave.Timeout.{
  Env, Limits, Wait, timeout_handler, read_limits, timeout_setting, configure, arm, npb_wait_begin,
  npb_wait_end,
}
use distributed_enclave.Timeout.Nesting.{
  Event, begin, finish, run_scopes, run_wait, Agree, fresh, fresh-Represents, run_wait-refines,
}

abbrev env : Env
env = record {
  enroll_timeout = none;
  io_timeout = some (b'9' ∷ b'0' ∷ []);
  shutdown_timeout = none;
}

abbrev limits : Limits
limits = record { enrollment = 300; io = 90; shutdown = 60 }

timeout_setting_empty : timeout_setting (some []) 300 ≡ none
unfolding timeout_setting
timeout_setting_empty = refl

timeout_setting_zero : timeout_setting (some (b'0' ∷ [])) 300 ≡ none
unfolding timeout_setting
timeout_setting_zero = refl

abbrev waits : List Event
waits = begin 1 ∷ begin 0 ∷ begin 2 ∷ finish ∷ []

env-limits : read_limits env ≡ some limits
unfolding timeout_setting
env-limits = refl

run_wait-refines_example : Agree env limits (run_scopes waits []) (run_wait env waits fresh)
run_wait-refines_example =
    run_wait-refines env limits waits [] fresh (fresh-Represents env limits env-limits)

abbrev waiting : Wait
waiting = record {
  wait_limits = some limits;
  wait_depth = 2;
  deadline_active = true;
  handler = timeout_handler;
  alarm_seconds = 90;
}

waits_run : run_wait env waits fresh ≡ some waiting
unfolding npb_wait_begin npb_wait_end configure arm timeout_setting
waits_run = refl
