-- ===== src/Receive.antt =====
-- Exact receives: src/npb_receive.h. MPI is not part of the repository; what its two calls answer
-- for one message is an argument.
use distributed_enclave.Common.{ℕ, Bool, true, false, not, ◌==◌, if◌then◌else◌}
use distributed_enclave.Common.Int.{ℤ, pos, negsuc}
use distributed_enclave.Wire.{Bytes}

abbrev pub mpi_success : ℕ
mpi_success = 0

-- The error codes of the MPI library that the source names.
pub record MpiErrors : Type 0 where
  pub mpi_err_count : ℕ
  pub mpi_err_truncate : ℕ
  pub mpi_err_arg : ℕ
  pub mpi_err_port : ℕ
  pub mpi_err_name : ℕ
  pub mpi_err_service : ℕ

-- The results of MPI_Recv and MPI_Get_count, the count that they report, and the bytes received.
pub record Arrival : Type 0 where
  pub recv_result : ℕ
  pub count_result : ℕ
  pub received_count : ℤ
  pub bytes : Bytes

abbrev pub int_eq : ℤ → ℤ → Bool
int_eq (pos a) (pos b) = a == b
int_eq (negsuc a) (negsuc b) = a == b
int_eq (pos a) (negsuc b) = false
int_eq (negsuc a) (pos b) = false

abbrev pub is_negative : ℤ → Bool
is_negative (pos n) = false
is_negative (negsuc n) = true

unfoldable pub npb_recv_exact : MpiErrors → ℤ → Arrival → ℕ
npb_recv_exact m count a =
    if is_negative count
    then m.mpi_err_count
    else if not (a.recv_result == mpi_success)
    then a.recv_result
    else if not (a.count_result == mpi_success)
    then a.count_result
    else if int_eq a.received_count count
    then mpi_success
    else m.mpi_err_truncate
