-- ===== src/Lib.antt =====
-- Verification of DistributedEnclave: a central node ("master") hands benchmark work to workers in
-- SEV-SNP guests over MPI. This library models the NPB programs `src/master_npb.c` and
-- `src/worker_npb.c` with the modules they share, and the rounds of the DGEMM benchmark, and states what their own logic guarantees.
--
-- How a run goes. Master and worker find each other through a published MPI name (Rendezvous),
-- under a deadline (Timeout). The worker binds its exchange key to the master's random context and
-- sends an attestation report, which the master checks (Attest). Both derive keys from an
-- owner-signed key exchange and confirm them (Enroll). After that all messages of the pair go
-- through one authenticated channel with counters (Channel, on the layouts of Wire), and the master
-- sends each worker a command for one of six workloads: the dynamic task queue (Taskq), the sparse
-- matrix product (Cg), the counting of random pairs (Ep), the pointer chase (Random), and the
-- memory workloads STREAM and VMAP. Workload has what these share and the exchange of messages of
-- four of them; Program joins the parts to the two programs: the worker's loop over commands, the
-- master's choice of the workload, the shutdown and the output file. The master's options are read
-- before (Config).
--
-- Files and code:
-- Common: names, lists over native numbers, and the algebra of the bit operations.
-- Wire, Wire/*: loads, stores, nonces, associated data and hexadecimal text of
--   `src/master_npb.c`, which `src/worker_npb.c` repeats. A C array is a list of numbers below 256.
-- Sodium: the calls of libsodium, as a record of functions and a record of the laws that its
--   documentation gives. Sodium/Toy has functions without secrecy that meet the laws.
-- Receive: `src/npb_receive.h`.
-- Channel: `secure_send`, `secure_recv`, `workload_send_small`, `workload_recv_small`,
--   `send_bulk`, `recv_bulk` of both programs. They differ in the direction byte, which is an
--   argument; Channel/Sides fixes it per program. `seal` and `unseal` are the parts that the small
--   and the bulk functions repeat.
-- Taskq: tokens, bytes and the jump map; Taskq/Worker is `run_taskq_workload`, Taskq/Check and
--   Taskq/Scheduler are `run_taskq_master`. What the probes of a pass find is an argument that may
--   depend on everything that happened.
-- Timeout: `src/npb_timeout.c` and `src/npb_mpi_wait.h`.
-- Rendezvous: `src/bench_rendezvous.c`. Calls are logged with their results.
-- Attest: `verify_expected_snp_claims`, `ea_verify_payload`, `verify_sev_snp_report` and the
--   worker's part of the binding.
-- Enroll: the handshake in both `main` functions, cut at the messages.
-- Cg: `generate_sparse_matrix`, the distribution of the rows in `main` of `src/master_npb.c`, and
--   `spmv_kernel` of `src/worker_npb.c`, over any type with the operations used on doubles.
-- Ep: `ep_compute` of `src/worker_npb.c` and the checks of its counts in `main` of
--   `src/master_npb.c`; the deviates are an argument.
-- Random: `run_random_workload` of `src/worker_npb.c`.
-- Keys: `src/owner_keygen.c`, and the readers `load_secret_key` and `load_public_key`. Files are a
--   function of their paths; what the system calls answer is an argument.
-- Workload: the commands, `send_workload_ready`, `wait_for_workload_ready`, `record_generic_result`,
--   and the loops that the functions of the workloads repeat. Messages are typed values here, in the
--   order in which they are sent to one worker; how they become frames is Channel. Workload/Stream,
--   Vmap, Pointers and Tasks are `run_*_master` of `src/master_npb.c` and `run_*_workload` of
--   `src/worker_npb.c` for STREAM, VMAP, RANDOM and TASKQ, each with a Session of both sides.
--   Workload/Doubles has the operations and the laws of doubles, Workload/Numbers an instance.
-- Ep/Rounds, Cg/Rounds: the rounds of EP and CG in both `main` functions.
-- Program/Worker: the loop over the commands in `main` of `src/worker_npb.c`.
-- Program/Master: `main` of `src/master_npb.c` behind the enrollment. Program/Output: its output file.
-- Dgemm: `ppdpc_dgemm` of `src/dgemm_kernel.c`, `verify_row`, and the loops over sizes, runs and
--   commands of `src/master_bench.c` and `src/worker_bench.c`, whose handshake and channel repeat those of the NPB programs.
-- Config: `parse_u64_arg`, `parse_next_u64`, and the options in `main` of `src/master_npb.c`.
--
-- Conventions. A result of 0 or -1 is a Bool, or an Option with what the call writes; the end of
-- the process (MPI_Abort, `_exit`, `die_mpi`) is a value of its own. Fixed-width integers are
-- native numbers with the wrap-around written out. What MPI, libsodium, the file system and other
-- programs answer is an argument.
--
-- Bounds and fuel. `poll` runs on fuel for its passes, and `task_count` passes are proved enough
-- when each pass finds a valid answer; the doubling loop of `build_xorshift_jump` recurs on
-- accessibility; `lookup_loop` runs on fuel for its rounds, and more rounds than sleeps are enough;
-- `command_loop` runs on fuel for its commands, each of which takes at least one message, so that more
-- fuel than messages is enough.
--
-- Not modelled: times, printed text, wiping of memory, the arithmetic on doubles beyond the laws in
-- Workload/Doubles, the choice of an EP bin from two deviates, the text of the output file, the
-- worker's fetch of a report, the options and the output of the DGEMM benchmark, the
-- star and attestation programs in `src/`, and the other parts of the repository
-- (`fort`, `analysis`, `vmbuild`). A message with a tag that nobody receives ends the model of a
-- loop, where MPI would keep it and deliver a later one.
pub mod Common
pub mod Wire
pub mod Workload
pub mod Program
pub mod Dgemm
pub mod Sodium
pub mod Receive
pub mod Channel
pub mod Taskq
pub mod Timeout
pub mod Rendezvous
pub mod Attest
pub mod Enroll
pub mod Cg
pub mod Ep
pub mod Random
pub mod Config
pub mod Keys
