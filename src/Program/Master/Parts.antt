-- ===== src/Program/Master/Parts.antt =====
-- The six workloads with such workers, for a configuration in its ranges.
use distributed_enclave.Common.{ℕ, ◌*◌, ◌/◌, ◌<◌, ◌≤◌, ◌≡◌, refl, arith, true, false, ◌==◌}
use distributed_enclave.Common.{some, Bool-cases, inl, inr, ltb}
use native.Mathlib.Nat.{le-div_iff_mul-le}
use distributed_enclave.Cg.{Csr, generate_sparse_matrix, int_max}
use distributed_enclave.Cg.Gather.{generated}
use distributed_enclave.Cg.Rounds.Session.{cg_messages, cg_session}
use distributed_enclave.Cg.Rounds.{bulk_limit, cg_cmd}
use distributed_enclave.Config.{Config, int64_max}
use distributed_enclave.Config.Ranges.{InRange}
use distributed_enclave.Ep.Rounds.{ep_cmd}
use distributed_enclave.Ep.Rounds.Session.{ep_session}
use distributed_enclave.Program.Worker.{workload_end}
use distributed_enclave.Program.Master.{queue_of, workload_part}
use distributed_enclave.Program.Master.Honest.{
  serves_ep, serves_cg, serves_stream, serves_random, serves_vmap, serves_taskq, surroundings,
  honest, Cooperates,
}
use distributed_enclave.Taskq.Worker.{TaskqCmd}
use distributed_enclave.Random.{mib_bytes}
use distributed_enclave.Workload.{
  workload_ep, workload_cg, workload_stream, workload_random, workload_vmap, workload_taskq,
  send_workload_ready,
}
use distributed_enclave.Workload.Doubles.{Doubles, IsIeee}
use distributed_enclave.Workload.Pointers.{random_cmd}
use distributed_enclave.Workload.Pointers.Session.{random_session}
use distributed_enclave.Workload.Stream.{stream_cmd}
use distributed_enclave.Workload.Stream.Session.{stream_session}
use distributed_enclave.Workload.Tasks.{task_queue_cmd}
use distributed_enclave.Workload.Tasks.Session.{run_messages, taskq_session}
use distributed_enclave.Workload.Vmap.{vmap_cmd}
use distributed_enclave.Workload.Vmap.Session.{VmapFinite, vmap_session}

module _ {D : Type 0} (ops : Doubles D) (ieee : IsIeee D ops) (bin : ℕ → ℕ → ℕ) (rand : ℕ → ℕ)
    (scaled : ℕ → D) (cfg : Config) (r : InRange cfg) (pos : 0 < cfg.task_bytes) where
  abbrev pub Runs : Type 0
  Runs = Cooperates ops bin rand scaled cfg (
      workload_part ops (surroundings ops bin rand scaled cfg) (honest ops bin rand scaled cfg pos)
        cfg cfg.target)

  few_runs : cfg.num_runs ≤ 1000
  few_runs = ground (arith, r)

  pub ep_part : cfg.ep_n * cfg.target ≤ int64_max → cfg.workload ≡ workload_ep → Runs
  unfolding workload_part workload_end
  ep_part room is =
      let (ends, serves) =
        ep_session {D = D} bin cfg.ep_n cfg.target cfg.encrypt room cfg.num_runs few_runs in
      rw (workload_part, is)
        (
          ends,
          λ w known.
              let (messages, gets, is_served) = serves w known in
              (
                ep_cmd cfg.encrypt cfg.num_runs cfg.ep_n,
                messages,
                gets,
                refl,
                refl,
                refl,
                λ rest. rw (workload_end, is_served rest) refl,
                serves_ep refl is_served,
              ),
        )

  matrix_generated :
      cfg.cg_n * cfg.cg_nzpc ≤ int_max
      → (a : Csr D) × (generate_sparse_matrix rand scaled true cfg.cg_n cfg.cg_nzpc ≡ some a)
  unfolding generate_sparse_matrix
  matrix_generated product =
      let some_rows : (cfg.cg_n == 0) ≡ false = ground (arith, r) in
      let some_columns : 0 < cfg.cg_nzpc = ground (arith, r) in
      let columns : (cfg.cg_nzpc == 0) ≡ false = ground arith in
      let fits : ltb (int_max / cfg.cg_nzpc) cfg.cg_n ≡ false =
        ground (arith, (le-div_iff_mul-le some_columns).1 product) in
      (
        generated rand scaled cfg.cg_n cfg.cg_nzpc,
        rw (generate_sparse_matrix, some_rows, columns, fits) refl,
      )

  pub cg_part :
      cfg.cg_n * cfg.cg_nzpc ≤ int_max
      → (cfg.workload ≡ workload_cg → 8 * (cfg.cg_n * cfg.cg_nzpc) ≤ bulk_limit cfg.encrypt)
      → cfg.workload ≡ workload_cg
      → Runs
  unfolding workload_part workload_end
  cg_part product fits is =
      let (a, made) = matrix_generated product in
      let (ends, serves) =
        cg_session ops rand scaled a cfg.cg_n cfg.cg_nzpc cfg.cg_iters cfg.target cfg.num_runs
          cfg.encrypt made (ground (arith, r)) (ground (arith, r)) (ground (arith, r)) few_runs
          (fits is) in
      rw (workload_part, is, honest, made)
        (
          ends,
          λ w known.
              let (gets, is_served) = serves w known in
              (
                cg_cmd cfg.encrypt cfg.num_runs cfg.cg_n cfg.cg_nzpc cfg.cg_iters cfg.target w,
                cg_messages ops cfg.cg_n cfg.cg_iters cfg.target cfg.num_runs a w,
                gets,
                refl,
                refl,
                refl,
                λ rest. rw (workload_end, is_served rest) refl,
                serves_cg refl a made is_served,
              ),
        )

  pub stream_part : cfg.workload ≡ workload_stream → Runs
  unfolding workload_part workload_end send_workload_ready
  stream_part is =
      let (low, high) = r.1.1.1.1.1.0 in
      let (ends, serves) =
        stream_session ops ieee cfg.target cfg.num_runs cfg.stream_array_mib cfg.stream_warmup
          cfg.encrypt low high few_runs in
      rw (workload_part, is)
        (
          ends,
          λ w known.
              let (messages, gets, is_served) = serves w known in
              (
                stream_cmd cfg.encrypt cfg.num_runs cfg.stream_array_mib cfg.stream_warmup,
                messages,
                gets,
                refl,
                refl,
                refl,
                λ rest. rw (workload_end, is_served rest) refl,
                serves_stream refl is_served,
              ),
        )

  pub random_part : cfg.workload ≡ workload_random → Runs
  unfolding workload_part workload_end send_workload_ready
  random_part is =
      let (ends, serves) =
        random_session {D = D} cfg.target cfg.num_runs cfg.random_mib cfg.random_accesses
          cfg.random_warmup_accesses cfg.encrypt (ground (arith, r)) (ground (arith, r))
          (ground (arith, r)) few_runs in
      rw (workload_part, is)
        (
          ends,
          λ w known.
              let (messages, results, gets, same, is_served) = serves w known in
              (
                random_cmd cfg.encrypt cfg.num_runs cfg.random_mib cfg.random_accesses
                    cfg.random_warmup_accesses,
                messages,
                gets,
                refl,
                refl,
                refl,
                λ rest. rw (workload_end, is_served rest) refl,
                serves_random refl results same is_served,
              ),
        )

  pub vmap_part :
      VmapFinite ops (cfg.vmap_mib * mib_bytes / 8) → cfg.workload ≡ workload_vmap → Runs
  unfolding workload_part workload_end send_workload_ready
  vmap_part finite is =
      let (ends, serves) =
        vmap_session ops ieee cfg.target cfg.num_runs cfg.vmap_mib cfg.encrypt (ground (arith, r))
          (ground (arith, r)) few_runs finite in
      rw (workload_part, is)
        (
          ends,
          λ w known.
              let (messages, gets, is_served) = serves w known in
              (
                vmap_cmd cfg.encrypt cfg.num_runs cfg.vmap_mib,
                messages,
                gets,
                refl,
                refl,
                refl,
                λ rest. rw (workload_end, is_served rest) refl,
                serves_vmap refl is_served,
              ),
        )

  abbrev queue : TaskqCmd
  queue = queue_of (record cfg { workload = workload_taskq }) cfg.target

  some_tasks : 0 < queue.task_count
  some_tasks = elim (Bool-cases (cfg.task_count == 0)) [
    | inl default ↦ rw default (ground (arith, r))
    | inr given ↦ rw given (ground arith)
  ]

  pub taskq_part : cfg.workload ≡ workload_taskq → Runs
  unfolding workload_part workload_end send_workload_ready
  taskq_part is =
      let (ends, serves) =
        taskq_session {D = D} queue pos cfg.target cfg.encrypt (ground (arith, r))
          (ground (arith, r)) some_tasks (ground (arith, r)) few_runs in
      rw (workload_part, is)
        (
          ends,
          λ w known.
              let (tasks, assigned, gets, is_served) = serves w known in
              (
                task_queue_cmd cfg.encrypt queue,
                run_messages {D = D} queue 1 tasks,
                gets,
                refl,
                refl,
                refl,
                λ rest. rw (workload_end, is_served rest) refl,
                serves_taskq refl tasks assigned refl is_served,
              ),
        )
