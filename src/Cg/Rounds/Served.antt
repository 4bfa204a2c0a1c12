-- ===== src/Cg/Rounds/Served.antt =====
-- What a worker of the CG workload expects of its rows, and the runs on the vectors that it is sent.
use distributed_enclave.Common.{
  ℕ, zero, suc, ◌+◌, ◌-◌, ◌*◌, ◌≤◌, ◌≡◌, refl, ap, ◌∙◌, arith, Bool, true, ◌==◌, length,
  length-fill, length-take, length-drop, get_or-fill, get_or,
}
use distributed_enclave.Common.{List, [], ◌++◌, Option, some, fill, drop}
use mathlib.Core.Path.{subst}
use mathlib.Core.List.{append_assoc}
use distributed_enclave.Cg.{Csr, ptr, row_start, row_count, row_slice, spmv_kernel}
use distributed_enclave.Cg.Slices.{Rising, ptr_mono}
use distributed_enclave.Workload.{Out, cg_x, served, results_before, worker_loop}
use distributed_enclave.Workload.Doubles.{Doubles}
use distributed_enclave.Cg.Rounds.{bulk_fits, cg_ops, cg_respond}
use distributed_enclave.Cg.Rounds.Sends.{slice_of, power, length-power}

-- A list that many times over.
abbrev pub repeated : {A : Type 0} → ℕ → List A → List A
repeated zero xs = []
repeated (suc n) xs = xs ++ repeated n xs

-- The messages with the vectors of one run.
abbrev pub vectors : {D : Type 0} → Doubles D → ℕ → Csr D → ℕ → ℕ → List (Option (Out D))
vectors ops cg_n a i n = fill (λ k. some (cg_x (power ops cg_n a k))) i n

module _ {D : Type 0} (ops : Doubles D) (encrypt : Bool) (cg_n : ℕ) (a : Csr D) where
  -- One run of a worker, and what follows.
  worker_run :
      (nrows : ℕ) (slice : Csr D) (n i more run : ℕ) (rest : List (Option (Out D)))
      → bulk_fits encrypt (8 * nrows) ≡ true
      → worker_loop
          (cg_respond ops encrypt nrows cg_n slice)
          (n + more)
          run
          (vectors ops cg_n a i n ++ rest)
        ≡ results_before
            (fill (λ k. spmv_kernel (cg_ops ops) nrows slice (power ops cg_n a k)) i n)
            (worker_loop (cg_respond ops encrypt nrows cg_n slice) more (run + n) rest)
  unfolding worker_loop
  worker_run nrows slice zero i more run rest fits =
      let all_left : 0 + more ≡ more = omega arith in
      let same_run : run + 0 ≡ run = omega arith in rw (all_left, same_run) refl
  worker_run nrows slice (suc n) i more run rest fits =
      let sized : (length (power ops cg_n a i) == cg_n) ≡ true =
        ground (arith, length-power ops cg_n a i) in
      let next : suc n + more ≡ suc (n + more) = omega arith in
      let same_run : run + 1 + n ≡ run + suc n = omega arith in
      rw
        (
          next,
          worker_loop,
          sized,
          fits,
          worker_run nrows slice n (i + 1) more (run + 1) rest fits,
          same_run,
        )
        refl

  pub worker_runs :
      (nrows : ℕ) (slice : Csr D) (cg_iters n run : ℕ) (rest : List (Option (Out D)))
      → bulk_fits encrypt (8 * nrows) ≡ true
      → worker_loop
          (cg_respond ops encrypt nrows cg_n slice)
          (n * cg_iters)
          run
          (repeated n (vectors ops cg_n a 0 cg_iters) ++ rest)
        ≡ (
          repeated n
              (fill (λ k. spmv_kernel (cg_ops ops) nrows slice (power ops cg_n a k)) 0 cg_iters),
          served rest,
        )
  unfolding worker_loop
  worker_runs nrows slice cg_iters zero run rest fits =
      let none_left : 0 * cg_iters ≡ 0 = omega arith in rw none_left refl
  worker_runs nrows slice cg_iters (suc n) run rest fits =
      let split : suc n * cg_iters ≡ cg_iters + n * cg_iters = omega arith in
      rw
        (
          split,
          append_assoc (vectors ops cg_n a 0 cg_iters) (repeated n (vectors ops cg_n a 0 cg_iters))
              rest,
          worker_run nrows slice cg_iters 0 (n * cg_iters) run
              (repeated n (vectors ops cg_n a 0 cg_iters) ++ rest) fits,
          worker_runs nrows slice cg_iters n (run + cg_iters) rest fits,
        )
        refl

-- The sizes of a slice, as the worker expects them.
pub slice_sizes :
    {D : Type 0} (cg_n nworkers w : ℕ) (a : Csr D)
    → Rising a cg_n
    → ptr a cg_n ≡ length a.val
    → length a.col_idx ≡ length a.val
    → row_start cg_n nworkers w + row_count cg_n nworkers w ≤ cg_n
    → let slice = slice_of cg_n nworkers a w in
      let rc = row_count cg_n nworkers w in
      (length slice.row_ptr ≡ rc + 1)
      × (length slice.col_idx ≡ get_or slice.row_ptr rc 0)
      × (length slice.val ≡ get_or slice.row_ptr rc 0)
      × (get_or slice.row_ptr rc 0 ≤ length a.val)
unfolding row_slice
slice_sizes cg_n nworkers w a rising entries columns inside =
    let rs = row_start cg_n nworkers w in
    let rc = row_count cg_n nworkers w in
    let nnz = ptr a (rs + rc) - ptr a rs in
    let last : get_or (fill (λ r. ptr a (rs + r) - ptr a rs) 0 (rc + 1)) rc 0 ≡ nnz =
      get_or-fill (λ r. ptr a (rs + r) - ptr a rs) 0 (rc + 1) rc 0 (omega arith)
      ∙ ap (λ k. ptr a (rs + k) - ptr a rs) (omega arith) in
    let whole : rs + rc + (cg_n - (rs + rc)) ≡ cg_n = omega arith in
    let fits : ptr a (rs + rc) ≤ length a.val = omega (
      arith,
      entries,
      subst (λ k. ptr a (rs + rc) ≤ ptr a k) whole
          (ptr_mono a cg_n rising (rs + rc) (cg_n - (rs + rc)) (omega arith)),
    ) in
    let up = ptr_mono a cg_n rising rs rc inside in
    (
      length-fill _ 0 (rc + 1),
      length-take nnz (drop (ptr a rs) a.col_idx)
          ∙ omega (arith, length-drop (ptr a rs) a.col_idx, columns, fits, up, last),
      length-take nnz (drop (ptr a rs) a.val)
          ∙ omega (arith, length-drop (ptr a rs) a.val, fits, up, last),
      omega (arith, last, fits),
    )
