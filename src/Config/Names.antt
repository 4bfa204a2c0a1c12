-- ===== src/Config/Names.antt =====
-- The option names of `main` in src/master_npb.c, and its names of workloads.
use distributed_enclave.Common.{[], ◌∷◌}
use distributed_enclave.Wire.{Bytes}

abbrev pub opt_master : Bytes
opt_master = b'-' ∷ b'-' ∷ b'm' ∷ b'a' ∷ b's' ∷ b't' ∷ b'e' ∷ b'r' ∷ []

abbrev pub opt_workload : Bytes
opt_workload = b'-' ∷ b'-' ∷ b'w' ∷ b'o' ∷ b'r' ∷ b'k' ∷ b'l' ∷ b'o' ∷ b'a' ∷ b'd' ∷ []

abbrev pub opt_ep_n : Bytes
opt_ep_n = b'-' ∷ b'-' ∷ b'e' ∷ b'p' ∷ b'-' ∷ b'n' ∷ []

abbrev pub opt_cg_n : Bytes
opt_cg_n = b'-' ∷ b'-' ∷ b'c' ∷ b'g' ∷ b'-' ∷ b'n' ∷ []

abbrev pub opt_cg_nzpc : Bytes
opt_cg_nzpc = b'-' ∷ b'-' ∷ b'c' ∷ b'g' ∷ b'-' ∷ b'n' ∷ b'z' ∷ b'p' ∷ b'c' ∷ []

abbrev pub opt_cg_iters : Bytes
opt_cg_iters = b'-' ∷ b'-' ∷ b'c' ∷ b'g' ∷ b'-' ∷ b'i' ∷ b't' ∷ b'e' ∷ b'r' ∷ b's' ∷ []

abbrev pub opt_stream_array_mib : Bytes
opt_stream_array_mib =
    b'-' ∷ b'-' ∷ b's' ∷ b't' ∷ b'r' ∷ b'e' ∷ b'a' ∷ b'm' ∷ b'-' ∷ b'a' ∷ b'r' ∷ b'r' ∷ b'a' ∷ b'y'
    ∷ b'-' ∷ b'm' ∷ b'i' ∷ b'b' ∷ []

abbrev pub opt_stream_warmup : Bytes
opt_stream_warmup =
    b'-' ∷ b'-' ∷ b's' ∷ b't' ∷ b'r' ∷ b'e' ∷ b'a' ∷ b'm' ∷ b'-' ∷ b'w' ∷ b'a' ∷ b'r' ∷ b'm' ∷ b'u'
    ∷ b'p' ∷ []

abbrev pub opt_random_mib : Bytes
opt_random_mib =
    b'-' ∷ b'-' ∷ b'r' ∷ b'a' ∷ b'n' ∷ b'd' ∷ b'o' ∷ b'm' ∷ b'-' ∷ b'm' ∷ b'i' ∷ b'b' ∷ []

abbrev pub opt_random_accesses : Bytes
opt_random_accesses =
    b'-' ∷ b'-' ∷ b'r' ∷ b'a' ∷ b'n' ∷ b'd' ∷ b'o' ∷ b'm' ∷ b'-' ∷ b'a' ∷ b'c' ∷ b'c' ∷ b'e' ∷ b's'
    ∷ b's' ∷ b'e' ∷ b's' ∷ []

abbrev pub opt_random_warmup_accesses : Bytes
opt_random_warmup_accesses =
    b'-' ∷ b'-' ∷ b'r' ∷ b'a' ∷ b'n' ∷ b'd' ∷ b'o' ∷ b'm' ∷ b'-' ∷ b'w' ∷ b'a' ∷ b'r' ∷ b'm' ∷ b'u'
    ∷ b'p' ∷ b'-' ∷ b'a' ∷ b'c' ∷ b'c' ∷ b'e' ∷ b's' ∷ b's' ∷ b'e' ∷ b's' ∷ []

abbrev pub opt_vmap_mib : Bytes
opt_vmap_mib = b'-' ∷ b'-' ∷ b'v' ∷ b'm' ∷ b'a' ∷ b'p' ∷ b'-' ∷ b'm' ∷ b'i' ∷ b'b' ∷ []

abbrev pub opt_task_count : Bytes
opt_task_count =
    b'-' ∷ b'-' ∷ b't' ∷ b'a' ∷ b's' ∷ b'k' ∷ b'-' ∷ b'c' ∷ b'o' ∷ b'u' ∷ b'n' ∷ b't' ∷ []

abbrev pub opt_task_bytes : Bytes
opt_task_bytes =
    b'-' ∷ b'-' ∷ b't' ∷ b'a' ∷ b's' ∷ b'k' ∷ b'-' ∷ b'b' ∷ b'y' ∷ b't' ∷ b'e' ∷ b's' ∷ []

abbrev pub opt_task_iters : Bytes
opt_task_iters =
    b'-' ∷ b'-' ∷ b't' ∷ b'a' ∷ b's' ∷ b'k' ∷ b'-' ∷ b'i' ∷ b't' ∷ b'e' ∷ b'r' ∷ b's' ∷ []

abbrev pub opt_runs : Bytes
opt_runs = b'-' ∷ b'-' ∷ b'r' ∷ b'u' ∷ b'n' ∷ b's' ∷ []

abbrev pub opt_no_encrypt : Bytes
opt_no_encrypt =
    b'-' ∷ b'-' ∷ b'n' ∷ b'o' ∷ b'-' ∷ b'e' ∷ b'n' ∷ b'c' ∷ b'r' ∷ b'y' ∷ b'p' ∷ b't' ∷ []

abbrev pub opt_output : Bytes
opt_output = b'-' ∷ b'-' ∷ b'o' ∷ b'u' ∷ b't' ∷ b'p' ∷ b'u' ∷ b't' ∷ []

abbrev pub word_ep : Bytes
word_ep = b'e' ∷ b'p' ∷ []

abbrev pub word_cg : Bytes
word_cg = b'c' ∷ b'g' ∷ []

abbrev pub word_stream : Bytes
word_stream = b's' ∷ b't' ∷ b'r' ∷ b'e' ∷ b'a' ∷ b'm' ∷ []

abbrev pub word_random : Bytes
word_random = b'r' ∷ b'a' ∷ b'n' ∷ b'd' ∷ b'o' ∷ b'm' ∷ []

abbrev pub word_vmap : Bytes
word_vmap = b'v' ∷ b'm' ∷ b'a' ∷ b'p' ∷ []

abbrev pub word_taskq : Bytes
word_taskq = b't' ∷ b'a' ∷ b's' ∷ b'k' ∷ b'q' ∷ []
