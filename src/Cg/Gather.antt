-- ===== src/Cg/Gather.antt =====
-- The vector that the master gathers from all workers is the product with the whole matrix.
use distributed_enclave.Common.{
  ℕ, zero, suc, ◌+◌, ◌-◌, ◌*◌, ◌/◌, ◌%◌, ◌≤◌, ◌<◌, ◌≡◌, refl, sym, ap, ◌∙◌, arith, Bool, List, ◌∷◌,
  ◌++◌, some, fill, get_or-fill, length-fill, All, length,
}
use native.Mathlib.Nat.{mul-le-mul_right, mul-div-le, div-mul-le_self, mod-lt}
use mathlib.Core.List.{append-nil}
use distributed_enclave.Cg.{
  Doubles, Csr, ptr, int_max, generate_sparse_matrix, row_start, row_count, row_slice, spmv_row,
  spmv_kernel, gather_rows,
}
use distributed_enclave.Cg.Slices.{Rising, spmv_row-row_slice}

All-fill :
    {A : Type 0} (P : A → Type 0) (f : ℕ → A) (i n : ℕ) → ((k : ℕ) → P (f k)) → All P (fill f i n)
All-fill P f i zero holds = tt
All-fill P f i (suc n) holds = (holds i, All-fill P f (i + 1) n holds)

fill-append :
    {A : Type 0} (f : ℕ → A) (i m n : ℕ) → fill f i (m + n) ≡ fill f i m ++ fill f (i + m) n
fill-append f i zero n =
    (let e : 0 + n ≡ n = omega arith in ap (fill f i) e) ∙ ap (λ k. fill f k n) (omega arith)
fill-append f i (suc m) n =
    let e : suc m + n ≡ suc (m + n) = omega arith in
    ap (fill f i) e
    ∙ ap (◌∷◌ (f i))
        (fill-append f (i + 1) m n ∙ ap (λ k. fill f (i + 1) m ++ fill f k n) (omega arith))

fill-shift :
    {A : Type 0} (f g : ℕ → A) (i k n : ℕ)
    → ((j : ℕ) → j < n → f (i + j) ≡ g (k + j))
    → fill f i n ≡ fill g k n
fill-shift f g i k zero same = refl
fill-shift f g i k (suc n) same =
    let here : f i ≡ g k = ap f (omega arith) ∙ same 0 (omega arith) ∙ ap g (omega arith) in
    let rest =
      fill-shift f g (i + 1) (k + 1) n
        (λ j h. ap f (omega arith) ∙ same (suc j) (omega arith) ∙ ap g (omega arith)) in
    rw (here, rest) refl

module _ {D : Type 0} (ops : Doubles D) (a : Csr D) (x : List D) (cg_n nworkers : ℕ)
    (rising : Rising a cg_n) where
  slice_product :
      (rs rc : ℕ)
      → rs + rc ≤ cg_n
      → spmv_kernel ops rc (row_slice a rs rc) x ≡ fill (spmv_row ops a x) rs rc
  unfolding spmv_kernel
  slice_product rs rc fits =
      fill-shift (spmv_row ops (row_slice a rs rc) x) (spmv_row ops a x) 0 rs rc (λ j h.
        ap (spmv_row ops (row_slice a rs rc) x) (omega arith)
        ∙ spmv_row-row_slice ops a x rs rc cg_n rising fits j h)

  -- The rows before worker `w` are rows of the matrix.
  rows_fit : (w : ℕ) → w ≤ nworkers → row_start cg_n nworkers w ≤ cg_n
  unfolding row_start
  rows_fit w h = omega (arith, mul-le-mul_right (cg_n / nworkers) h, mul-div-le cg_n nworkers)

  inner_count : (w : ℕ) → w + 1 < nworkers → row_count cg_n nworkers w ≡ cg_n / nworkers
  unfolding row_count
  inner_count w h = ground arith

  last_count :
      (w : ℕ) → w + 1 ≡ nworkers → row_count cg_n nworkers w ≡ cg_n - row_start cg_n nworkers w
  unfolding row_count row_start
  last_count w h = ground arith

  next_start :
      (w : ℕ) → row_start cg_n nworkers (w + 1) ≡ row_start cg_n nworkers w + cg_n / nworkers
  unfolding row_start
  next_start w = omega arith

  abbrev row : ℕ → D
  row = spmv_row ops a x

  gather_rows-from :
      (left w : ℕ)
      → w + left ≡ nworkers
      → 0 < left
      → gather_rows ops cg_n nworkers a x w left
        ≡ fill row (row_start cg_n nworkers w) (cg_n - row_start cg_n nworkers w)
  unfolding gather_rows
  gather_rows-from zero w e pos = absurd (omega arith)
  gather_rows-from (suc zero) w e pos =
      let rs = row_start cg_n nworkers w in
      let fits = rows_fit w (omega arith) in
      rw (last_count w e, slice_product rs (cg_n - rs) (omega arith))
        (append-nil (fill row rs (cg_n - rs)))
  gather_rows-from (suc (suc left)) w e pos =
      let rs = row_start cg_n nworkers w in
      let q = cg_n / nworkers in
      let next = next_start w in
      let fits : rs + q ≤ cg_n = omega (arith, rows_fit (w + 1) (omega arith), next) in
      let rest = gather_rows-from (suc left) (w + 1) (omega arith) (omega arith) in
      let whole : cg_n - rs ≡ q + (cg_n - (rs + q)) = omega arith in
      ap
        (◌++◌ (
          spmv_kernel ops (row_count cg_n nworkers w) (row_slice a rs (row_count cg_n nworkers w))
            x))
        rest
      ∙ rw (inner_count w (omega arith), slice_product rs q fits, next, whole)
          (sym (fill-append row rs q (cg_n - (rs + q))))

-- With at least one worker and row pointers that do not fall, the parts that the workers compute on
-- their slices, put together in the order of the workers, are the product with the whole matrix.
pub gather_rows-spmv_kernel :
    {D : Type 0} (ops : Doubles D) (a : Csr D) (x : List D) (cg_n nworkers : ℕ)
    → Rising a cg_n
    → 0 < nworkers
    → gather_rows ops cg_n nworkers a x 0 nworkers ≡ spmv_kernel ops cg_n a x
unfolding spmv_kernel row_start
gather_rows-spmv_kernel ops a x cg_n nworkers rising pos =
    gather_rows-from ops a x cg_n nworkers rising nworkers 0 (omega arith) pos
    ∙ (let none_before : 0 * (cg_n / nworkers) ≡ 0 = omega arith in
        let all_rows : cg_n - 0 ≡ cg_n = omega arith in
        ap (λ k. fill (spmv_row ops a x) k (cg_n - k)) none_before
        ∙ ap (fill (spmv_row ops a x) 0) all_rows)

abbrev pub generated : {D : Type 0} → (ℕ → ℕ) → (ℕ → D) → ℕ → ℕ → Csr D
generated rand scaled n nzpc = record {
  row_ptr = fill (λ i. i * nzpc) 0 (n + 1);
  col_idx = fill (λ k. rand (2 * k) % n) 0 (n * nzpc);
  val = fill (λ k. scaled (rand (2 * k + 1))) 0 (n * nzpc);
}

-- The matrix that the master generates has as many entries as its last pointer says, every column
-- index is below `n`, and its pointers do not fall and fit into an `int`.
pub generate_sparse_matrix-shape :
    {D : Type 0} (rand : ℕ → ℕ) (scaled : ℕ → D) (allocated : Bool) (n nzpc : ℕ) (a : Csr D)
    → generate_sparse_matrix rand scaled allocated n nzpc ≡ some a
    → Rising a n
      × (ptr a n ≡ length a.val)
      × (length a.col_idx ≡ length a.val)
      × (length a.val ≤ int_max)
      × All (λ c. c < n) a.col_idx
unfolding generate_sparse_matrix
generate_sparse_matrix-shape rand scaled allocated n nzpc a e =
    let entries : n * nzpc ≤ int_max = omega (
      arith,
      mul-le-mul_right nzpc (let h : n ≤ int_max / nzpc = ground arith in h),
      div-mul-le_self int_max nzpc,
    ) in
    let same : a ≡ generated rand scaled n nzpc = ground arith in
    let some_rows : 0 < n = ground arith in
    rw same (
      λ i h. omega (
        arith,
        get_or-fill (λ k. k * nzpc) 0 (n + 1) i 0 (omega arith),
        get_or-fill (λ k. k * nzpc) 0 (n + 1) (i + 1) 0 (omega arith),
      ),
      get_or-fill (λ k. k * nzpc) 0 (n + 1) n 0 (omega arith)
          ∙ (let e : (0 + n) * nzpc ≡ n * nzpc = omega arith in e)
          ∙ sym (length-fill (λ k. scaled (rand (2 * k + 1))) 0 (n * nzpc)),
      length-fill (λ k. rand (2 * k) % n) 0 (n * nzpc)
          ∙ sym (length-fill (λ k. scaled (rand (2 * k + 1))) 0 (n * nzpc)),
      omega (arith, length-fill (λ k. scaled (rand (2 * k + 1))) 0 (n * nzpc)),
      All-fill (λ c. c < n) (λ k. rand (2 * k) % n) 0 (n * nzpc)
          (λ k. mod-lt (rand (2 * k)) some_rows),
    )
