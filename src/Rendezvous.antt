-- ===== src/Rendezvous.antt =====
-- How a worker and the master find each other: src/bench_rendezvous.c. The answers of MPI are
-- arguments; the model keeps what the process holds at the MPI library and in the wait module.
pub mod Cleanup
pub mod Lookup
mod Tests
use distributed_enclave.Common.{
  ℕ, zero, suc, ◌+◌, ◌-◌, Bool, true, false, not, ◌&&◌, ◌||◌, ltb, leb, ◌==◌, length,
}
use distributed_enclave.Common.{List, [], ◌∷◌, Option, none, some, if◌then◌else◌}
use distributed_enclave.Wire.{Bytes}
use distributed_enclave.Receive.{MpiErrors, mpi_success}

-- `BENCH_DEFAULT_SERVICE`, and the bound MPI_MAX_PORT_NAME of the MPI library, which is an argument.
abbrev pub bench_default_service : Bytes
bench_default_service =
    b'p' ∷ b'p' ∷ b'd' ∷ b'p' ∷ b'c' ∷ b'-' ∷ b'e' ∷ b'n' ∷ b'r' ∷ b'o' ∷ b'l' ∷ b'l' ∷ []

-- The result code, and the name when it is MPI_SUCCESS.
unfoldable pub get_service_name : MpiErrors → ℕ → Option Bytes → ℕ × Bytes
get_service_name m max_port_name setting =
    let service : Bytes = elim setting [ none ↦ bench_default_service | some text ↦ text ] in
    if length service == 0 || leb max_port_name (length service)
    then (m.mpi_err_arg, service)
    else (mpi_success, service)

unfoldable pub keep_first_error : ℕ → ℕ → ℕ
keep_first_error result cleanup_result = if result == mpi_success then cleanup_result else result

-- The calls that a rendezvous makes, of MPI and of the wait module.
pub data Call : Type 0 where
  wait_begin : Call
  comm_get_errhandler : Call
  comm_set_errhandler : Call
  open_port : Call
  publish_name : Call
  lookup_name : Call
  comm_accept : Call
  comm_connect : Call
  set_inter_errhandler : Call
  barrier : Call
  unpublish_name : Call
  close_port : Call
  restore_errhandler : Call
  errhandler_free : Call
  wait_end : Call

-- The local variables of both functions, and the calls made so far with their results, the latest
-- first. MPI_Comm_get_errhandler gives a handler when it succeeds, and else `previous` stays null.
pub record Local : Type 0 where
  pub result : ℕ
  pub opened : Bool
  pub published : Bool
  pub previous : Bool
  pub log : List (Call × ℕ)

abbrev pub succeeded : ℕ → Bool
succeeded result = result == mpi_success

abbrev record_call : Call → ℕ → Local → Local
record_call call answer run = record run { result = answer; log = (call, answer) ∷ run.log }

-- `result = call(...); if (result != MPI_SUCCESS) goto cleanup;`: after a failure, what follows up
-- to the label is skipped.
unfoldable pub attempt : Call → (Call → ℕ) → Local → Local
attempt call answers run = if succeeded run.result then record_call call (answers call) run else run

-- A call of the cleanup part, which is made whatever the result is, if its resource is held.
unfoldable pub release : Bool → Call → (Call → ℕ) → Local → Local
release held call answers run =
    if held
    then record run {
      result = keep_first_error run.result (answers call);
      log = (call, answers call) ∷ run.log;
    }
    else run

unfoldable pub restore_self_handler : (Call → ℕ) → Local → Local
restore_self_handler answers run =
    release run.previous errhandler_free answers
      (release run.previous restore_errhandler answers run)

-- `npb_wait_begin` and `npb_wait_end` return no result.
abbrev pub waited : Call → Local → Local
waited call run = record run { log = (call, mpi_success) ∷ run.log }

abbrev pub entry : Local
entry = record {
  result = mpi_success;
  opened = false;
  published = false;
  previous = false;
  log = [];
}

abbrev pub mark_previous : Local → Local
mark_previous run = record run { previous = succeeded run.result }

abbrev pub mark_opened : Local → Local
mark_opened run = record run { opened = succeeded run.result }

abbrev pub mark_published : Local → Local
mark_published run = record run { published = succeeded run.result }

-- The part that both functions have at their end: `npb_wait_end` and the steps before it.
unfoldable pub cleanup : (Call → ℕ) → Local → Local
cleanup answers run =
    let run₁ = release run.published unpublish_name answers run in
    let run₂ = release run.opened close_port answers run₁ in
    waited wait_end (restore_self_handler answers run₂)

-- After the checks of the arguments and the service name.
unfoldable pub bench_accept_worker : (Call → ℕ) → Local
bench_accept_worker answers =
    let run₁ = mark_previous (attempt comm_get_errhandler answers (waited wait_begin entry)) in
    let run₂ = attempt comm_set_errhandler answers run₁ in
    let run₃ = mark_opened (attempt open_port answers run₂) in
    let run₄ = mark_published (attempt publish_name answers run₃) in
    let run₅ = attempt comm_accept answers run₄ in
    let run₆ = attempt set_inter_errhandler answers run₅ in
    cleanup answers (attempt barrier answers run₆)

-- One round of looking the name up: the result, what the port buffer holds, and the answers of
-- MPI_Error_class.
pub record Looked : Type 0 where
  pub lookup_result : ℕ
  pub port : Bytes
  pub class_result : ℕ
  pub error_class : ℕ

abbrev pub has_nul : Bytes → Bool
has_nul [] = false
has_nul (c ∷ text) = if c == 0 then true else has_nul text

abbrev pub starts_with_nul : Bytes → Bool
starts_with_nul [] = true
starts_with_nul (c ∷ text) = c == 0

-- The result with which the loop is left; `none` is `sleep(1)` and another round.
unfoldable pub lookup_round : MpiErrors → Looked → Option ℕ
lookup_round m looked =
    if succeeded looked.lookup_result
    then (if starts_with_nul looked.port || not (has_nul looked.port)
        then some m.mpi_err_port
        else some mpi_success)
    else if not (succeeded looked.class_result)
    then some looked.class_result
    else if not (looked.error_class == m.mpi_err_name)
        && not (looked.error_class == m.mpi_err_service)
    then some looked.lookup_result
    else none

-- `for (;;)`: `none` says that the rounds in `fuel` are used up while the master is not found. The
-- result comes with the number of the round that gave it.
unfoldable pub lookup_loop : MpiErrors → ℕ → (ℕ → Looked) → ℕ → Option (ℕ × ℕ)
lookup_loop m zero looked round = none
lookup_loop m (suc fuel) looked round =
    let later = lookup_loop m fuel looked (round + 1) in
    elim (lookup_round m (looked round)) [ some result ↦ some (result, round) | none ↦ later ]

-- `found` is the result of the lookup loop.
unfoldable pub bench_connect_worker : ℕ → (Call → ℕ) → Local
bench_connect_worker found answers =
    let run₁ = mark_previous (attempt comm_get_errhandler answers (waited wait_begin entry)) in
    let run₂ = attempt comm_set_errhandler answers run₁ in
    let run₃ = attempt lookup_name (λ _. found) run₂ in
    let run₄ = attempt comm_connect answers run₃ in
    let run₅ = attempt set_inter_errhandler answers run₄ in
    let run₆ = attempt barrier answers run₅ in waited wait_end (restore_self_handler answers run₆)
