-- ===== src/Dgemm/Rounds.antt =====
-- A run of the DGEMM benchmark with workers that do what their code does.
use distributed_enclave.Common.{
  ℕ, zero, suc, ◌+◌, ◌-◌, ◌*◌, ◌/◌, ◌%◌, ◌<◌, ◌≤◌, ◌≡◌, refl, sym, ap, ◌∙◌, arith, Bool, true,
  false, ◌==◌, length,
}
use distributed_enclave.Common.{List, ◌++◌, Option, none, some, Bool-cases, inl, inr}
use native.Mathlib.Nat.{mul-le-mul_right, mul-le-mul_left, div-add-mod}
use distributed_enclave.Workload.Doubles.{Doubles, IsIeee}
use distributed_enclave.Dgemm.{
  max_bench_matrix_dim, max_bench_runs, bench_size_cmd, bench_cmd_ok, rows_from, dgemm_row,
  ppdpc_dgemm, expected_sum, scale, verify_loop, verify_row, verify_workers, a_block,
  bench_worker_run, gather_blocks, bench_run,
}
use distributed_enclave.Dgemm.Product.{
  rows_from-append, length-rows_from, length-dgemm_row, ppdpc_dgemm-entry, ppdpc_dgemm-a_block,
  length-a_block,
}

some_factor : (a b : ℕ) → 1 ≤ a * b → 0 < b
some_factor a zero h = absurd (omega (arith, h))
some_factor a (suc b) h = omega arith

-- Every command that the master sends for a size within its bounds passes the worker's conditions.
pub bench_size_cmd_accepted :
    (m nworkers num_runs w : ℕ) (encrypt : Bool)
    → 1 ≤ m
    → m ≤ max_bench_matrix_dim
    → m % nworkers ≡ 0
    → 1 ≤ num_runs
    → num_runs ≤ max_bench_runs
    → w < nworkers
    → bench_cmd_ok (bench_size_cmd m nworkers encrypt num_runs w) ≡ true
unfolding bench_cmd_ok bench_size_cmd
bench_size_cmd_accepted m nworkers num_runs w encrypt low high divides some_run few known =
    let q = m / nworkers in
    let whole : nworkers * q ≡ m = omega (arith, div-add-mod m nworkers, divides) in
    let some_row : 0 < q = some_factor nworkers q (omega (arith, whole, low)) in
    let rows : suc w * q ≤ m =
      omega (arith, mul-le-mul_right q (let e : suc w ≤ nworkers = known in e), whole) in
    let fits : q ≤ m = omega (arith, rows) in
    let start : w * q ≤ m - q = omega (arith, rows) in
    let block : q * m ≤ 8192 * 8192 = omega (
      arith,
      mul-le-mul_right m (let e : q ≤ 8192 = omega (arith, fits, high) in e),
      mul-le-mul_left 8192 high,
    ) in
    let square : m * m ≤ 8192 * 8192 =
      omega (arith, mul-le-mul_right m high, mul-le-mul_left 8192 high) in
    elim (Bool-cases encrypt) [ inl on ↦ rw on (ground arith) | inr off ↦ rw off (ground arith) ]

module _ {D : Type 0} (ops : Doubles D) (a b : List D) (m : ℕ) where
  -- What the check of a row needs of doubles here: the sums are finite, and nothing over a scale is
  -- within the tolerance.
  pub record Tolerant : Type 0 where
    pub finite :
        (row j : ℕ) → ops.isfinite (expected_sum ops a b m row j m 0 (ops.from_nat 0)) ≡ true
    pub nothing :
        (x : D)
        → ops.isfinite x ≡ true
        → ops.gt (ops.div (ops.from_nat 0) (scale ops x)) ops.d1e_9 ≡ false

  module _ (ieee : IsIeee D ops) (tolerant : Tolerant) where
    verify_loop-product :
        (row left j : ℕ)
        → row < m
        → j + left ≤ m
        → verify_loop ops a b (ppdpc_dgemm ops a b m m m) m row left j ≡ true
    unfolding verify_loop
    verify_loop-product row zero j h k = refl
    verify_loop-product row (suc left) j h k =
        let expected = expected_sum ops a b m row j m 0 (ops.from_nat 0) in
        let finite = tolerant.finite row j in
        rw
          (
            verify_loop,
            ppdpc_dgemm-entry ops b m a m row j h (omega (arith, k)),
            ieee.sub_self expected finite,
            ieee.fabs_zero,
            tolerant.nothing expected finite,
          )
          (verify_loop-product row left (j + 1) h (omega (arith, k)))

    verify_workers-product :
        (q left w : ℕ)
        → 0 < q
        → (w + left) * q ≤ m
        → verify_workers ops a b (ppdpc_dgemm ops a b m m m) m q left w ≡ true
    unfolding verify_workers verify_row
    verify_workers-product q zero w pos h = refl
    verify_workers-product q (suc left) w pos h =
        let inside : w * q + q / 2 < m = omega (arith, h, pos) in
        let passes : verify_row ops a b (ppdpc_dgemm ops a b m m m) m (w * q + q / 2) ≡ true =
          verify_loop-product (w * q + q / 2) m 0 inside (omega arith) in
        rw (verify_workers, passes) (verify_workers-product q left (w + 1) pos (omega (arith, h)))

  module _ (nworkers num_runs : ℕ) (encrypt : Bool) where
    -- What worker `w` answers, with a time in order.
    abbrev with_time : Option (List D) → Option (List D × Bool)
    with_time none = none
    with_time (some block) = some (block, true)

    abbrev pub bench_answers : ℕ → Option (List D × Bool)
    bench_answers w =
        let cmd = bench_size_cmd m nworkers encrypt num_runs w in
        with_time (bench_worker_run ops cmd (a_block ops a m cmd) b)

    pub bench_worker_run-rows :
        (w : ℕ)
        → length b ≡ m * m
        → let cmd = bench_size_cmd m nworkers encrypt num_runs w in
          bench_worker_run ops cmd (a_block ops a m cmd) b
          ≡ some (rows_from (dgemm_row ops a b m m) (w * (m / nworkers)) (m / nworkers))
    unfolding bench_worker_run bench_size_cmd
    bench_worker_run-rows w size =
        let cmd = bench_size_cmd m nworkers encrypt num_runs w in
        let whole : (length b == m * m) ≡ true = ground (arith, size) in
        let block : (length (a_block ops a m cmd) == m / nworkers * m) ≡ true =
          ground (arith, length-a_block ops b m a cmd) in
        rw (bench_worker_run, whole, block) (ap some (ppdpc_dgemm-a_block ops b m a cmd))

    bench_answers-rows :
        (w : ℕ)
        → length b ≡ m * m
        → bench_answers w
          ≡ some (rows_from (dgemm_row ops a b m m) (w * (m / nworkers)) (m / nworkers), true)
    bench_answers-rows w size = ap with_time (bench_worker_run-rows w size)

    gather_blocks-rows :
        (left w : ℕ)
        → length b ≡ m * m
        → gather_blocks (m / nworkers * m) bench_answers left w
          ≡ some (rows_from (dgemm_row ops a b m m) (w * (m / nworkers)) (left * (m / nworkers)))
    unfolding gather_blocks rows_from
    gather_blocks-rows zero w size =
        ap (λ k. some (rows_from (dgemm_row ops a b m m) (w * (m / nworkers)) k))
          (let e : 0 ≡ 0 * (m / nworkers) = omega arith in e)
    gather_blocks-rows (suc left) w size =
        let q = m / nworkers in
        let row = dgemm_row ops a b m m in
        let whole : (length (rows_from row (w * q) q) == q * m) ≡ true =
          ground (arith, length-rows_from row m (w * q) q (length-dgemm_row ops b m a)) in
        rw (gather_blocks, bench_answers-rows w size, whole, gather_blocks-rows left (w + 1) size)
          (ap some (
            ap (λ i. rows_from row (w * q) q ++ rows_from row i (left * q))
              (let e : (w + 1) * q ≡ w * q + q = omega arith in e)
            ∙ sym (rows_from-append row (w * q) q (left * q))
            ∙ ap (rows_from row (w * q)) (let e : q + left * q ≡ suc left * q = omega arith in e)))

    -- When the number of workers divides the size: what the workers compute on their rows, put together,
    -- is the whole product, and it passes the check of a row of every worker, if doubles stay finite and
    -- nothing over a scale is within the tolerance.
    pub bench_run-ppdpc_dgemm :
        (check : Bool)
        → IsIeee D ops
        → Tolerant
        → 1 ≤ m
        → m % nworkers ≡ 0
        → length b ≡ m * m
        → bench_run ops a b m nworkers check bench_answers ≡ some (ppdpc_dgemm ops a b m m m)
    unfolding bench_run ppdpc_dgemm
    bench_run-ppdpc_dgemm check ieee tolerant low divides size =
        let q = m / nworkers in
        let whole : nworkers * q ≡ m = omega (arith, div-add-mod m nworkers, divides) in
        let some_row : 0 < q = some_factor nworkers q (omega (arith, whole, low)) in
        let gathered : gather_blocks (q * m) bench_answers nworkers 0
            ≡ some (ppdpc_dgemm ops a b m m m) =
          gather_blocks-rows nworkers 0 size
          ∙ ap (λ i. some (rows_from (dgemm_row ops a b m m) i (nworkers * q)))
              (let e : 0 * q ≡ 0 = omega arith in e)
          ∙ ap (λ n. some (rows_from (dgemm_row ops a b m m) 0 n)) whole in
        let passes =
          verify_workers-product ieee tolerant q nworkers 0 some_row (omega (arith, whole)) in
        elim (Bool-cases check) [
          | inl on ↦ rw (bench_run, gathered, passes, on) refl
          | inr off ↦ rw (bench_run, gathered, off) refl
        ]
