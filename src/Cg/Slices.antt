-- ===== src/Cg/Slices.antt =====
-- A worker's rows of its slice are the rows of the whole matrix.
use distributed_enclave.Common.{
  ℕ, zero, suc, ◌+◌, ◌-◌, ◌≤◌, ◌<◌, ◌≡◌, refl, sym, ap, ◌∙◌, arith, List, [], ◌∷◌, get_or, take,
  drop, get_or-fill,
}
use mathlib.Core.Path.{subst}
use distributed_enclave.Cg.{Doubles, Csr, ptr, row_slice, row_sum, spmv_row}

get_or-drop :
    {A : Type 0} (s : ℕ) (xs : List A) (j : ℕ) (d : A)
    → get_or (drop s xs) j d ≡ get_or xs (s + j) d
get_or-drop zero xs j d = ap (λ k. get_or xs k d) (omega arith)
get_or-drop (suc s) [] j d = refl
get_or-drop (suc s) (x ∷ xs) j d =
    get_or-drop s xs j d
    ∙ (let e : suc s + j ≡ suc (s + j) = omega arith in ap (λ k. get_or (x ∷ xs) k d) (sym e))

get_or-take :
    {A : Type 0} (n : ℕ) (xs : List A) (j : ℕ) (d : A)
    → j < n
    → get_or (take n xs) j d ≡ get_or xs j d
get_or-take zero xs j d h = absurd (omega arith)
get_or-take (suc n) [] j d h = refl
get_or-take (suc n) (x ∷ xs) zero d h = refl
get_or-take (suc n) (x ∷ xs) (suc j) d h = get_or-take n xs j d (omega arith)

-- The row pointers do not fall.
abbrev pub Rising : {D : Type 0} → Csr D → ℕ → Type 0
Rising a n = (i : ℕ) → i < n → ptr a i ≤ ptr a (i + 1)

pub ptr_mono :
    {D : Type 0} (a : Csr D) (n : ℕ) → Rising a n → (i k : ℕ) → i + k ≤ n → ptr a i ≤ ptr a (i + k)
ptr_mono a n rising i zero h = rw (let e : i + 0 ≡ i = omega arith in e) (omega arith)
ptr_mono a n rising i (suc k) h =
    let here : i + suc k ≡ i + k + 1 = omega arith in
    rw here (omega (arith, ptr_mono a n rising i k (omega arith), rising (i + k) (omega arith)))

module _ {D : Type 0} (ops : Doubles D) (a : Csr D) (x : List D) (rs rc : ℕ) where
  abbrev nnz : ℕ
  nnz = ptr a (rs + rc) - ptr a rs

  get_or-slice :
      {A : Type 0} (xs : List A) (j : ℕ) (d : A)
      → j < nnz
      → get_or (take nnz (drop (ptr a rs) xs)) j d ≡ get_or xs (ptr a rs + j) d
  get_or-slice xs j d h = get_or-take nnz (drop (ptr a rs) xs) j d h ∙ get_or-drop (ptr a rs) xs j d

  -- The sum after entry `j` of the slice.
  abbrev term : ℕ → D → D
  term j sum = ops.add sum (
      ops.mul (get_or a.val (ptr a rs + j) ops.zero_d)
        (get_or x (get_or a.col_idx (ptr a rs + j) 0) ops.zero_d))

  row_sum-row_slice :
      (n j : ℕ) (sum : D)
      → j + n ≤ nnz
      → row_sum ops (row_slice a rs rc) x n j sum ≡ row_sum ops a x n (ptr a rs + j) sum
  unfolding row_sum row_slice
  row_sum-row_slice zero j sum h = refl
  row_sum-row_slice (suc n) j sum h =
      let e : ptr a rs + (j + 1) ≡ ptr a rs + j + 1 = omega arith in
      rw (get_or-slice a.val j ops.zero_d (omega arith), get_or-slice a.col_idx j 0 (omega arith))
        (row_sum-row_slice n (j + 1) (term j sum) (omega arith)
          ∙ ap (λ k. row_sum ops a x n k (term j sum)) e)

  -- The pointers of the slice, up to the one behind its last row.
  ptr-row_slice : (i : ℕ) → i ≤ rc → ptr (row_slice a rs rc) i ≡ ptr a (rs + i) - ptr a rs
  unfolding row_slice
  ptr-row_slice i h =
      get_or-fill (λ r. ptr a (rs + r) - ptr a rs) 0 (rc + 1) i 0 (omega arith)
      ∙ ap (λ k. ptr a (rs + k) - ptr a rs) (omega arith)

  pub spmv_row-row_slice :
      (n : ℕ)
      → Rising a n
      → rs + rc ≤ n
      → (i : ℕ) → i < rc
      → spmv_row ops (row_slice a rs rc) x i ≡ spmv_row ops a x (rs + i)
  unfolding spmv_row
  spmv_row-row_slice n rising fits i h =
      let low = ptr_mono a n rising rs i (omega arith) in
      let next : rs + (i + 1) ≡ rs + i + 1 = omega arith in
      let step = rising (rs + i) (omega arith) in
      let rest : ptr a (rs + i + 1) ≤ ptr a (rs + rc) =
        subst (λ k. ptr a (rs + i + 1) ≤ ptr a k) (omega arith)
          (ptr_mono a n rising (rs + i + 1) (rc - (i + 1)) (omega arith)) in
      let from = ptr a (rs + i) - ptr a rs in
      let n' = ptr a (rs + i + 1) - ptr a rs - from in
      let same_length : n' ≡ ptr a (rs + i + 1) - ptr a (rs + i) = omega arith in
      let same_from : ptr a rs + from ≡ ptr a (rs + i) = omega arith in
      rw (ptr-row_slice i (omega arith), ptr-row_slice (i + 1) (omega arith), next)
        (row_sum-row_slice n' from ops.zero_d (omega arith)
          ∙ ap (λ k. row_sum ops a x k (ptr a rs + from) ops.zero_d) same_length
          ∙ ap (λ k. row_sum ops a x (ptr a (rs + i + 1) - ptr a (rs + i)) k ops.zero_d) same_from)
