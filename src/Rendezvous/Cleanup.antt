-- ===== src/Rendezvous/Cleanup.antt =====
-- Every way through a rendezvous makes the calls that give back what it took, and returns the first
-- error; the intercommunicator is the caller's.
use distributed_enclave.Common.{ℕ, ◌≡◌, arith, Bool, true, false, not, ◌&&◌, ◌||◌}
use distributed_enclave.Common.{List, [], ◌∷◌, Option, none, some, if◌then◌else◌}
use distributed_enclave.Receive.{mpi_success}
use distributed_enclave.Rendezvous.{
  Call, wait_begin, comm_get_errhandler, comm_set_errhandler, open_port, publish_name, lookup_name,
  comm_accept, comm_connect, set_inter_errhandler, barrier, unpublish_name, close_port,
  restore_errhandler, errhandler_free, wait_end, succeeded, attempt, release, restore_self_handler,
  keep_first_error, bench_connect_worker,
}

-- What was taken at the MPI library and in the wait module, and for which no call that gives it back
-- was made yet.
pub record Held : Type 0 where
  pub waiting : Bool
  pub handler_saved : Bool
  pub handler_replaced : Bool
  pub port_is_open : Bool
  pub name_is_published : Bool
  pub intercommunicator : Bool

abbrev pub nothing_held : Held
nothing_held = record {
  waiting = false;
  handler_saved = false;
  handler_replaced = false;
  port_is_open = false;
  name_is_published = false;
  intercommunicator = false;
}

abbrev when : Bool → Held → Option Held
when true h = some h
when false h = none

-- The effect of one call, and `none` for a call out of order: what is taken is taken once, the call
-- that gives it back is made once, while nothing that was taken later and depends on it is held. That
-- call is made once whether it succeeds or not. A call on the intercommunicator needs one.
abbrev pub effect : Call → Bool → Held → Option Held
effect wait_begin ok h = when (not h.waiting) (record h { waiting = true })
effect comm_get_errhandler ok h =
    when (h.waiting && not h.handler_saved) (record h { handler_saved = ok })
effect comm_set_errhandler ok h = when h.handler_saved (record h { handler_replaced = ok })
effect open_port ok h =
    when (h.handler_replaced && not h.port_is_open) (record h { port_is_open = ok })
effect publish_name ok h =
    when (h.port_is_open && not h.name_is_published) (record h { name_is_published = ok })
effect lookup_name ok h = when h.handler_replaced h
effect comm_accept ok h =
    when (h.name_is_published && not h.intercommunicator) (record h { intercommunicator = ok })
effect comm_connect ok h =
    when (h.handler_replaced && not h.intercommunicator) (record h { intercommunicator = ok })
effect set_inter_errhandler ok h = when (h.handler_replaced && h.intercommunicator) h
effect barrier ok h = when (h.handler_replaced && h.intercommunicator) h
effect unpublish_name ok h = when h.name_is_published (record h { name_is_published = false })
effect close_port ok h =
    when (h.port_is_open && not h.name_is_published) (record h { port_is_open = false })
effect restore_errhandler ok h =
    when (h.handler_saved && not h.port_is_open) (record h { handler_replaced = false })
effect errhandler_free ok h =
    when (h.handler_saved && not h.handler_replaced) (record h { handler_saved = false })
effect wait_end ok h = when (h.waiting && not h.handler_saved) (record h { waiting = false })

abbrev then_effect : Call → ℕ → Option Held → Option Held
then_effect call answer none = none
then_effect call answer (some h) = effect call (succeeded answer) h

-- What is held after the calls of a log, the latest first.
abbrev pub held_after : List (Call × ℕ) → Option Held
held_after [] = some nothing_held
held_after ((call, answer) ∷ earlier) = then_effect call answer (held_after earlier)

-- The first answer of a log that is not a success.
abbrev pub first_error : List (Call × ℕ) → ℕ
first_error [] = mpi_success
first_error ((call, answer) ∷ earlier) =
    if succeeded (first_error earlier) then answer else first_error earlier

-- Whether an intercommunicator was made in the calls of a log.
abbrev pub was_made : List (Call × ℕ) → Bool
was_made [] = false
was_made ((comm_accept, answer) ∷ earlier) = succeeded answer || was_made earlier
was_made ((comm_connect, answer) ∷ earlier) = succeeded answer || was_made earlier
was_made ((call, answer) ∷ earlier) = was_made earlier

-- The same of the worker's calls, whatever its lookups found.
pub bench_connect_worker-released :
    (found : ℕ) (answers : Call → ℕ)
    → let run = bench_connect_worker found answers in
      (held_after run.log ≡ some (record nothing_held { intercommunicator = was_made run.log }))
      × (run.result ≡ first_error run.log)
unfolding bench_connect_worker restore_self_handler release attempt keep_first_error
bench_connect_worker-released found answers = ground arith
