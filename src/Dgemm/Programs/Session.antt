-- ===== src/Dgemm/Programs/Session.antt =====
-- The two DGEMM programs, from the first command to the last, with workers that do what their code does.
use distributed_enclave.Common.{
  ℕ, ◌+◌, ◌*◌, ◌%◌, ◌<◌, ◌≤◌, ◌≡◌, refl, sym, ap, ◌∙◌, arith, Bool, true, not, ◌||◌, ltb, ◌==◌,
  length, length-append, length-fill, All,
}
use distributed_enclave.Common.{
  List, [], ◌∷◌, ◌++◌, Option, some, fill, replicate, Bool-cases, Option-cases, inl, inr,
}
use mathlib.Core.List.{append_assoc, append-nil}
use native.Mathlib.Nat.{mul-le-mul_right}
use distributed_enclave.Workload.Doubles.{Doubles, IsIeee}
use distributed_enclave.Workload.Sends.{
  to_worker, to_worker-append, to_worker-fill, to_worker-to_all,
}
use distributed_enclave.Dgemm.{
  int_max, max_bench_matrix_dim, max_bench_runs, bench_cmd_ok, bench_size_cmd,
}
use distributed_enclave.Dgemm.Rounds.{Tolerant, bench_size_cmd_accepted}
use distributed_enclave.Dgemm.Programs.{
  Bench, max_bench_results, BenchOut, bench_command, bench_done_cmd, BenchResult, bench_complete,
  bench_size, bench_runs, bench_sizes, bench_done, wants_command, next_run, bench_worker, size_cmd,
}
use distributed_enclave.Dgemm.Programs.Runs.{
  enough_memory, honest_bench, row, share, all_rows, all_blocks, blocks_before, bench_runs_complete,
}

module _ {D : Type 0} (ops : Doubles D) (ieee : IsIeee D ops) (nworkers num_runs : ℕ)
    (encrypt verify : Bool) (matrices : ℕ → Option (List D × List D)) (some_run : 1 ≤ num_runs)
    (few : num_runs ≤ max_bench_runs)
    (sound : (m : ℕ) (a b : List D)
      → matrices m ≡ some (a, b)
      → (length b ≡ m * m) × Tolerant ops a b m) where
  abbrev bench : Bench D
  bench = honest_bench ops nworkers num_runs encrypt verify matrices

  command_heard :
      (m w : ℕ) (rest : List (Option (BenchOut D)))
      → bench_cmd_ok (size_cmd ops bench m w) ≡ true
      → bench_worker ops enough_memory wants_command
          (some (bench_command (size_cmd ops bench m w)) ∷ rest)
        ≡ bench_worker ops enough_memory (next_run (size_cmd ops bench m w) num_runs) rest
  unfolding bench_worker bench_size_cmd
  command_heard m w rest ok = rw (bench_worker, ok) refl

  bench_size_complete :
      (m : ℕ) (a b : List D) (rows : List BenchResult)
      → matrices m ≡ some (a, b)
      → 1 ≤ m
      → m ≤ max_bench_matrix_dim
      → m % nworkers ≡ 0
      → length rows + num_runs ≤ max_bench_results
      → let sent = bench_size ops bench m a b rows in
        (sent.1
          ≡ some (rows ++ fill (row ops nworkers num_runs encrypt verify matrices m) 1 num_runs))
        × ((w : ℕ)
            → w < nworkers
            → (rest : List (Option (BenchOut D)))
            → bench_worker ops enough_memory wants_command (to_worker w sent.0 ++ rest)
              ≡ blocks_before
                  (replicate num_runs
                    (share ops nworkers num_runs encrypt verify matrices m w (a, b)))
                  (bench_worker ops enough_memory wants_command rest))
  unfolding bench_size
  bench_size_complete m a b rows known low high divides room =
      let (size, tolerant) = sound m a b known in
      let (ends, serves) =
        bench_runs_complete ops nworkers num_runs encrypt verify matrices m a b size ieee tolerant
          low divides known num_runs 1 rows room in
      (
        ends,
        λ w k rest.
            rw
              (
                bench_size,
                to_worker-append w
                    (fill (λ v. (v, bench_command (size_cmd ops bench m v))) 0 nworkers)
                    (bench_runs ops bench m a b num_runs 1 rows).0,
                to_worker-fill w 0 nworkers (λ v. bench_command (size_cmd ops bench m v))
                    (omega arith) (omega (arith, k)),
              )
              (command_heard m w
                  (to_worker w (bench_runs ops bench m a b num_runs 1 rows).0 ++ rest)
                  (bench_size_cmd_accepted m nworkers num_runs w encrypt low high divides some_run
                    few k)
                ∙ serves w k rest),
      )

  done_heard :
      bench_worker ops enough_memory wants_command (some (bench_command bench_done_cmd) ∷ [])
      ≡ ([], bench_done)
  unfolding bench_worker
  done_heard = refl

  -- What is left out is left out on both sides, and what is used is used whole.
  bench_sizes_complete :
      (sizes : List ℕ) (rows : List BenchResult)
      → All (λ m. (1 ≤ m) × (m ≤ max_bench_matrix_dim)) sizes
      → length rows + length sizes * num_runs ≤ max_bench_results
      → let sending = bench_sizes ops bench sizes rows in
        (sending.1
          ≡ bench_complete (rows ++ all_rows ops nworkers num_runs encrypt verify matrices sizes))
        × ((w : ℕ)
            → w < nworkers
            → bench_worker ops enough_memory wants_command (to_worker w sending.0)
              ≡ (all_blocks ops nworkers num_runs encrypt verify matrices w sizes, bench_done))
  unfolding bench_sizes
  bench_sizes_complete [] rows known room = (
    ap bench_complete (sym (append-nil rows)),
    λ w k.
        rw
          (
            bench_sizes,
            to_worker-to_all {M = BenchOut D} w nworkers (bench_command bench_done_cmd) k,
          )
          done_heard,
  )
  bench_sizes_complete (m ∷ sizes) rows known room =
      elim (Bool-cases (not (m % nworkers == 0) || ltb int_max (m * m))) [
        | inl skipped ↦
            let (ends, serves) = bench_sizes_complete sizes rows known.1 (omega (arith, room)) in
            (rw (bench_sizes, skipped) ends, λ w k. rw (bench_sizes, skipped) (serves w k))
        | inr used ↦ elim (Option-cases (matrices m)) [
          | inl missing ↦
              let (ends, serves) = bench_sizes_complete sizes rows known.1 (omega (arith, room)) in
              (
                rw (bench_sizes, used, missing) ends,
                λ w k. rw (bench_sizes, used, missing) (serves w k),
              )
          | inr ((a, b), there) ↦
              let divides : m % nworkers ≡ 0 = ground arith in
              let new = fill (row ops nworkers num_runs encrypt verify matrices m) 1 num_runs in
              let (table, heard) =
                bench_size_complete m a b rows there known.0.0 known.0.1 divides
                  (omega (arith, room)) in
              let (ends, serves) = bench_sizes_complete sizes (rows ++ new) known.1 (
                omega (
                  arith,
                  room,
                  length-append rows new,
                  length-fill (row ops nworkers num_runs encrypt verify matrices m) 1 num_runs,
                )) in
              (
                rw (bench_sizes, used, there, table)
                    (ends
                      ∙ ap bench_complete (
                          append_assoc rows new
                            (all_rows ops nworkers num_runs encrypt verify matrices sizes))),
                λ w k.
                    rw
                      (
                        bench_sizes,
                        used,
                        there,
                        table,
                        to_worker-append w (bench_size ops bench m a b rows).0
                            (bench_sizes ops bench sizes (rows ++ new)).0,
                      )
                      (heard w k (to_worker w (bench_sizes ops bench sizes (rows ++ new)).0)
                        ∙ ap
                            (blocks_before (
                              replicate num_runs
                                (share ops nworkers num_runs encrypt verify matrices m w (a, b))))
                            (serves w k)),
              )
        ]
      ]

  -- For at most 32 sizes in the range that the master allows, when doubles stay finite and nothing over
  -- a scale is within the tolerance: the master comes to its output with the rows of every size that it
  -- uses, run by run, and each worker accepts every command, returns its rows of the product in every
  -- run, and leaves its loop by the last command. Every worker has enough memory, calls succeed, and
  -- measured times are in order.
  pub bench_session :
      (sizes : List ℕ)
      → All (λ m. (1 ≤ m) × (m ≤ max_bench_matrix_dim)) sizes
      → length sizes ≤ 32
      → let sending =
          bench_sizes ops (honest_bench ops nworkers num_runs encrypt verify matrices) sizes [] in
        (sending.1 ≡ bench_complete (all_rows ops nworkers num_runs encrypt verify matrices sizes))
        × ((w : ℕ)
            → w < nworkers
            → bench_worker ops enough_memory wants_command (to_worker w sending.0)
              ≡ (all_blocks ops nworkers num_runs encrypt verify matrices w sizes, bench_done))
  bench_session sizes known short =
      bench_sizes_complete sizes [] known (omega (arith, mul-le-mul_right num_runs short, few))
