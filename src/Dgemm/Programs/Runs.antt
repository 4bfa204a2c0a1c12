-- ===== src/Dgemm/Programs/Runs.antt =====
-- The runs of one size with workers that do what their code does.
use distributed_enclave.Common.{
  ℕ, zero, suc, ◌+◌, ◌*◌, ◌/◌, ◌%◌, ◌<◌, ◌≤◌, ◌≡◌, refl, sym, ap, ◌∙◌, arith, Bool, true, false,
  ◌&&◌, leb, ◌==◌, length, length-append,
}
use distributed_enclave.Common.{
  List, [], ◌∷◌, ◌++◌, Option, none, some, fill, replicate, Bool-cases, inl, inr,
}
use mathlib.Core.List.{append_assoc, append-nil}
use distributed_enclave.Workload.Doubles.{Doubles, IsIeee}
use distributed_enclave.Workload.Sends.{to_worker, to_worker-append}
use distributed_enclave.Dgemm.{
  BenchCmd, bench_size_cmd, a_block, bench_run, ppdpc_dgemm, rows_from, dgemm_row,
}
use distributed_enclave.Dgemm.Product.{length-a_block}
use distributed_enclave.Dgemm.Rounds.{
  Tolerant, bench_answers, bench_worker_run-rows, bench_run-ppdpc_dgemm,
}
use distributed_enclave.Dgemm.Programs.{
  max_bench_results, BenchOut, bench_a, bench_b, BenchResult, record_bench, Bench, size_cmd,
  scatter, bench_runs, matrices_of, BenchWorkerEnd, wants_command, wants_a, next_run, push_block,
  bench_worker,
}

-- A worker whose mallocs succeed for every command.
abbrev pub enough_memory : BenchCmd → Bool
enough_memory cmd = true

module _ {D : Type 0} where
  abbrev pub blocks_before :
      List (List D) → List (List D) × BenchWorkerEnd → List (List D) × BenchWorkerEnd
  blocks_before first (blocks, ending) = (first ++ blocks, ending)

module _ {D : Type 0} (ops : Doubles D) (nworkers num_runs : ℕ) (encrypt verify : Bool)
    (matrices : ℕ → Option (List D × List D)) where
  abbrev pub answers_for : Option (List D × List D) → ℕ → ℕ → Option (List D × Bool)
  answers_for none m w = none
  answers_for (some (a, b)) m w = bench_answers ops a b m nworkers num_runs encrypt w

  -- Each worker answers a run with the product of its block, with a time in order.
  abbrev pub honest_bench : Bench D
  honest_bench = record {
    nworkers = nworkers;
    encrypt = encrypt;
    verify = verify;
    num_runs = num_runs;
    matrices = matrices;
    answers = λ m run w. answers_for (matrices m) m w;
  }

  abbrev pub row : ℕ → ℕ → BenchResult
  row m run = record { matrix_size = m; num_workers = nworkers; encrypted = encrypt; run = run }

  -- The rows of the product of a size that fall to a worker.
  abbrev pub share : ℕ → ℕ → List D × List D → List D
  share m w (a, b) = rows_from (dgemm_row ops a b m m) (w * (m / nworkers)) (m / nworkers)

  abbrev pub rows_for : ℕ → Option (List D × List D) → List BenchResult
  rows_for m none = []
  rows_for m (some (a, b)) = fill (row m) 1 num_runs

  abbrev pub blocks_for : ℕ → ℕ → Option (List D × List D) → List (List D)
  blocks_for m w none = []
  blocks_for m w (some (a, b)) = replicate num_runs (share m w (a, b))

  -- The rows of the table, and the blocks that a worker returns, size by size.
  abbrev pub all_rows : List ℕ → List BenchResult
  all_rows [] = []
  all_rows (m ∷ sizes) = rows_for m (matrices_of ops honest_bench m) ++ all_rows sizes

  abbrev pub all_blocks : ℕ → List ℕ → List (List D)
  all_blocks w [] = []
  all_blocks w (m ∷ sizes) = blocks_for m w (matrices_of ops honest_bench m) ++ all_blocks w sizes

  module _ (m : ℕ) (a b : List D) where
    abbrev pub cmd : ℕ → BenchCmd
    cmd w = size_cmd ops honest_bench m w

    scatter_before :
        (left i w : ℕ) → w < i → to_worker w (scatter ops honest_bench m a b left i) ≡ []
    unfolding scatter
    scatter_before zero i w h = refl
    scatter_before (suc left) i w h =
        let apart : (i == w) ≡ false = ground arith in
        rw apart (scatter_before left (i + 1) w (omega arith))

    to_worker-scatter :
        (left i w : ℕ)
        → i ≤ w
        → w < i + left
        → to_worker w (scatter ops honest_bench m a b left i)
          ≡ some (bench_a (a_block ops a m (cmd w))) ∷ some (bench_b b) ∷ []
    unfolding scatter
    to_worker-scatter zero i w low high = absurd (omega arith)
    to_worker-scatter (suc left) i w low high = elim (Bool-cases (i == w)) [
      | inl here ↦
          rw (here, scatter_before left (i + 1) w (ground arith))
            (ap (λ v. some (bench_a (a_block ops a m (cmd v))) ∷ some (bench_b b) ∷ [])
              (ground arith))
      | inr apart ↦ rw apart (to_worker-scatter left (i + 1) w (ground arith) (omega arith))
    ]

    module _ (size : length b ≡ m * m) where
      run_served :
          (w left : ℕ) (rest : List (Option (BenchOut D)))
          → bench_worker ops enough_memory
              (wants_a (cmd w) left)
              (some (bench_a (a_block ops a m (cmd w))) ∷ some (bench_b b) ∷ rest)
            ≡ push_block ops
                (share m w (a, b))
                (bench_worker ops enough_memory (next_run (cmd w) left) rest)
      unfolding bench_worker bench_size_cmd
      run_served w left rest =
          let block : (length (a_block ops a m (cmd w)) == m / nworkers * m) ≡ true =
            ground (arith, length-a_block ops b m a (cmd w)) in
          rw (bench_worker, block, bench_worker_run-rows ops a b m nworkers num_runs encrypt w size)
            refl

      module _ (ieee : IsIeee D ops) (tolerant : Tolerant ops a b m) (some_column : 1 ≤ m)
          (divides : m % nworkers ≡ 0) (known : matrices m ≡ some (a, b)) where
        run_gathered :
            (run : ℕ)
            → bench_run ops a b m nworkers
                (verify && (run == num_runs))
                (λ w. answers_for (matrices m) m w)
              ≡ some (ppdpc_dgemm ops a b m m m)
        run_gathered run =
            ap
              (λ o.
                bench_run ops a b m nworkers (verify && (run == num_runs)) (λ w. answers_for o m w))
              known
            ∙ bench_run-ppdpc_dgemm ops a b m nworkers num_runs encrypt
                (verify && (run == num_runs)) ieee tolerant some_column divides size

        pub bench_runs_complete :
            (left run : ℕ) (rows : List BenchResult)
            → length rows + left ≤ max_bench_results
            → let runs = bench_runs ops honest_bench m a b left run rows in
              (runs.1 ≡ some (rows ++ fill (row m) run left))
              × ((w : ℕ)
                  → w < nworkers
                  → (rest : List (Option (BenchOut D)))
                  → bench_worker ops enough_memory
                      (next_run (cmd w) left)
                      (to_worker w runs.0 ++ rest)
                    ≡ blocks_before
                        (replicate left (share m w (a, b)))
                        (bench_worker ops enough_memory wants_command rest))
        unfolding bench_runs record_bench
        bench_runs_complete zero run rows room = (ap some (sym (append-nil rows)), λ w k rest. refl)
        bench_runs_complete (suc left) run rows room =
            let fits : leb max_bench_results (length rows) ≡ false = ground arith in
            let sends = scatter ops honest_bench m a b nworkers 0 in
            let more = bench_runs ops honest_bench m a b left (run + 1) (rows ++ row m run ∷ []) in
            let (ends, serves) =
              bench_runs_complete left (run + 1) (rows ++ row m run ∷ [])
                (omega (arith, room, length-append rows (row m run ∷ []))) in
            (
              rw (bench_runs, run_gathered run, record_bench, fits)
                  (ends
                    ∙ ap some (append_assoc rows (row m run ∷ []) (fill (row m) (run + 1) left))),
              λ w k rest.
                  rw
                    (
                      bench_runs,
                      run_gathered run,
                      record_bench,
                      fits,
                      to_worker-append w sends more.0,
                      to_worker-scatter nworkers 0 w (omega arith) (omega (arith, k)),
                    )
                    (run_served w left (to_worker w more.0 ++ rest)
                      ∙ ap (push_block ops (share m w (a, b))) (serves w k rest)),
            )
