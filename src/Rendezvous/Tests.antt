-- ===== src/Rendezvous/Tests.antt =====
-- Runs of a rendezvous.
use distributed_enclave.Common.{
  ℕ, ◌<◌, [], ◌∷◌, ◌≡◌, ◌↔◌, refl, true, arith, some, if◌then◌else◌, ltb,
}
use distributed_enclave.Receive.{MpiErrors, mpi_success}
use distributed_enclave.Rendezvous.{
  Call, barrier, close_port, cleanup, restore_self_handler, release, attempt, keep_first_error,
  bench_accept_worker, Looked, lookup_round, lookup_loop,
}
use distributed_enclave.Rendezvous.Cleanup.{was_made}
use distributed_enclave.Rendezvous.Lookup.{Absent, Usable, lookup_loop_success_iff}

abbrev mpi_errors : MpiErrors
mpi_errors = record {
  mpi_err_count = 2;
  mpi_err_truncate = 15;
  mpi_err_arg = 13;
  mpi_err_port = 38;
  mpi_err_name = 33;
  mpi_err_service = 41;
}

-- The barrier fails after the worker was accepted, and closing the port fails too.
abbrev unlucky : Call → ℕ
unlucky barrier = 33
unlucky close_port = 5
unlucky call = 0

-- The error is reported, and the intercommunicator is still there.
left_open :
    ((bench_accept_worker unlucky).result ≡ 33)
    × (was_made (bench_accept_worker unlucky).log ≡ true)
unfolding bench_accept_worker cleanup restore_self_handler release attempt keep_first_error
left_open = (refl, refl)

abbrev missing : Looked
missing = record { lookup_result = 9; port = []; class_result = 0; error_class = 33 }

abbrev there : Looked
there = record { lookup_result = 0; port = b'p' ∷ 0 ∷ []; class_result = 0; error_class = 0 }

-- The master is found in the third round.
abbrev rounds : ℕ → Looked
rounds i = if ltb i 2 then missing else there

found_in_third : lookup_loop mpi_errors 5 rounds 0 ≡ some (0, 2)
unfolding lookup_loop lookup_round
found_in_third = refl

lookup_loop_success_iff_example :
    (lookup_loop mpi_errors 5 rounds 0 ≡ some (mpi_success, 2))
    ↔ (((i : ℕ) → i < 2 → Absent mpi_errors (rounds i)) × Usable (rounds 2))
lookup_loop_success_iff_example =
    lookup_loop_success_iff mpi_errors rounds 2 5 (omega arith) (omega arith)
