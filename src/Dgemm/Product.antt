-- ===== src/Dgemm/Product.antt =====
-- The entries of the product, and the product of a block of rows.
use distributed_enclave.Common.{
  ℕ, zero, suc, ◌+◌, ◌*◌, ◌<◌, ◌≤◌, ◌≡◌, refl, sym, ap, ◌∙◌, arith, length, length-fill,
  get_or-fill, length-append,
}
use distributed_enclave.Common.{List, [], ◌∷◌, ◌++◌, fill, get_or}
use mathlib.Core.List.{append_assoc}
use native.Mathlib.Nat.{mul-le-mul_right}
use distributed_enclave.Workload.Doubles.{Doubles}
use distributed_enclave.Dgemm.{
  rows_from, entry, add_row, row_loop, dgemm_row, ppdpc_dgemm, expected_sum, a_block, BenchCmd,
}

module _ {A : Type 0} (d : A) where
  get_or-append_left :
      (xs ys : List A) (k : ℕ) → k < length xs → get_or (xs ++ ys) k d ≡ get_or xs k d
  get_or-append_left [] ys k h = absurd (omega arith)
  get_or-append_left (x ∷ xs) ys zero h = refl
  get_or-append_left (x ∷ xs) ys (suc k) h = get_or-append_left xs ys k (omega (arith, h))

  get_or-append_right :
      (xs ys : List A) (k : ℕ) → get_or (xs ++ ys) (length xs + k) d ≡ get_or ys k d
  get_or-append_right [] ys k = ap (λ i. get_or ys i d) (omega arith)
  get_or-append_right (x ∷ xs) ys k =
      ap (λ i. get_or (x ∷ xs ++ ys) i d)
        (let e : suc (length xs) + k ≡ suc (length xs + k) = omega arith in e)
      ∙ get_or-append_right xs ys k

  pub get_or-fill_zero : (f : ℕ → A) (n j : ℕ) → j < n → get_or (fill f 0 n) j d ≡ f j
  get_or-fill_zero f n j h = get_or-fill f 0 n j d h ∙ ap f (omega arith)

module _ {D : Type 0} where
  pub rows_from-append :
      (row : ℕ → List D) (i n k : ℕ)
      → rows_from row i (n + k) ≡ rows_from row i n ++ rows_from row (i + n) k
  unfolding rows_from
  rows_from-append row i zero k =
      ap (λ j. rows_from row i j) (let e : 0 + k ≡ k = omega arith in e)
      ∙ ap (λ j. rows_from row j k) (let e : i ≡ i + 0 = omega arith in e)
  rows_from-append row i (suc n) k =
      ap (λ j. rows_from row i j) (let e : suc n + k ≡ suc (n + k) = omega arith in e)
      ∙ ap (λ rest. row i ++ rest)
          (rows_from-append row (i + 1) n k
            ∙ ap (λ j. rows_from row (i + 1) n ++ rows_from row j k)
                (let e : i + 1 + n ≡ i + suc n = omega arith in e))
      ∙ sym (append_assoc (row i) (rows_from row (i + 1) n) (rows_from row (i + suc n) k))

  pub rows_from-same :
      (row row' : ℕ → List D) (i i' n : ℕ)
      → ((r : ℕ) → r < n → row (i + r) ≡ row' (i' + r))
      → rows_from row i n ≡ rows_from row' i' n
  unfolding rows_from
  rows_from-same row row' i i' zero same = refl
  rows_from-same row row' i i' (suc n) same =
      let now : row i ≡ row' i' =
        ap row (let e : i ≡ i + 0 = omega arith in e)
        ∙ same 0 (omega arith)
        ∙ ap row' (let e : i' + 0 ≡ i' = omega arith in e) in
      let later : (r : ℕ) → r < n → row (i + 1 + r) ≡ row' (i' + 1 + r) = λ r h.
        ap row (let e : i + 1 + r ≡ i + suc r = omega arith in e)
        ∙ same (suc r) (omega (arith, h))
        ∙ ap row' (let e : i' + suc r ≡ i' + 1 + r = omega arith in e) in
      ap (λ x. x ++ rows_from row (i + 1) n) now
      ∙ ap (λ x. row' i' ++ x) (rows_from-same row row' (i + 1) (i' + 1) n later)

  pub length-rows_from :
      (row : ℕ → List D) (columns i n : ℕ)
      → ((r : ℕ) → length (row r) ≡ columns)
      → length (rows_from row i n) ≡ n * columns
  unfolding rows_from
  length-rows_from row columns i zero size = omega arith
  length-rows_from row columns i (suc n) size = omega (
    arith,
    length-append (row i) (rows_from row (i + 1) n),
    size i,
    length-rows_from row columns (i + 1) n size,
  )

  rows_from-entry :
      (d : D) (row : ℕ → List D) (columns i n r j : ℕ)
      → ((k : ℕ) → length (row k) ≡ columns)
      → r < n
      → j < columns
      → get_or (rows_from row i n) (r * columns + j) d ≡ get_or (row (i + r)) j d
  unfolding rows_from
  rows_from-entry d row columns i zero r j size h k = absurd (omega (arith, h))
  rows_from-entry d row columns i (suc n) zero j size h k =
      ap (λ x. get_or (row i ++ rows_from row (i + 1) n) x d)
        (let e : 0 * columns + j ≡ j = omega arith in e)
      ∙ get_or-append_left d (row i) (rows_from row (i + 1) n) j (omega (arith, size i, k))
      ∙ ap (λ x. get_or (row x) j d) (let e : i ≡ i + 0 = omega arith in e)
  rows_from-entry d row columns i (suc n) (suc r) j size h k =
      ap (λ x. get_or (row i ++ rows_from row (i + 1) n) x d)
        (let e : suc r * columns + j ≡ length (row i) + (r * columns + j) = omega (arith, size i) in
          e)
      ∙ get_or-append_right d (row i) (rows_from row (i + 1) n) (r * columns + j)
      ∙ rows_from-entry d row columns (i + 1) n r j size (omega (arith, h)) k
      ∙ ap (λ x. get_or (row x) j d) (let e : i + 1 + r ≡ i + suc r = omega arith in e)

module _ {D : Type 0} (ops : Doubles D) (b : List D) (m : ℕ) where
  row_loop-entry :
      (a : List D) (row j left inner : ℕ) (c : List D)
      → j < m
      → entry ops (row_loop ops a b m m row left inner c) j
        ≡ expected_sum ops a b m row j left inner (entry ops c j)
  unfolding row_loop expected_sum add_row
  row_loop-entry a row j zero inner c h = refl
  row_loop-entry a row j (suc left) inner c h =
      row_loop-entry a row j left (inner + 1)
        (add_row ops a b m m (entry ops a (row * m + inner)) inner c) h
      ∙ ap (expected_sum ops a b m row j left (inner + 1)) (
          get_or-fill_zero (ops.from_nat 0)
            (λ column.
              ops.add (entry ops c column)
                (ops.mul (entry ops a (row * m + inner)) (entry ops b (inner * m + column))))
            m j h)

  length-row_loop :
      (a : List D) (row left inner : ℕ) (c : List D)
      → length c ≡ m
      → length (row_loop ops a b m m row left inner c) ≡ m
  unfolding row_loop add_row
  length-row_loop a row zero inner c h = h
  length-row_loop a row (suc left) inner c h =
      length-row_loop a row left (inner + 1)
        (add_row ops a b m m (entry ops a (row * m + inner)) inner c) (length-fill _ 0 m)

  pub length-dgemm_row : (a : List D) (row : ℕ) → length (dgemm_row ops a b m m row) ≡ m
  unfolding dgemm_row
  length-dgemm_row a row = length-row_loop a row m 0 _ (length-fill _ 0 m)

  -- An entry of the product is the sum that the master's check computes, addition by addition.
  pub ppdpc_dgemm-entry :
      (a : List D) (rows row j : ℕ)
      → row < rows
      → j < m
      → entry ops (ppdpc_dgemm ops a b rows m m) (row * m + j)
        ≡ expected_sum ops a b m row j m 0 (ops.from_nat 0)
  unfolding ppdpc_dgemm dgemm_row
  ppdpc_dgemm-entry a rows row j h k =
      rows_from-entry (ops.from_nat 0) (dgemm_row ops a b m m) m 0 rows row j (length-dgemm_row a) h
        k
      ∙ ap (λ r. entry ops (dgemm_row ops a b m m r) j) (let e : 0 + row ≡ row = omega arith in e)
      ∙ row_loop-entry a row j m 0 (fill (λ column. ops.from_nat 0) 0 m) k
      ∙ ap (expected_sum ops a b m row j m 0)
          (get_or-fill_zero (ops.from_nat 0) (λ column. ops.from_nat 0) m j k)

  row_loop-same :
      (a a' : List D) (row row' left inner : ℕ) (c : List D)
      → ((k : ℕ) → k < inner + left → entry ops a (row * m + k) ≡ entry ops a' (row' * m + k))
      → row_loop ops a b m m row left inner c ≡ row_loop ops a' b m m row' left inner c
  unfolding row_loop add_row
  row_loop-same a a' row row' zero inner c same = refl
  row_loop-same a a' row row' (suc left) inner c same =
      ap (λ v. row_loop ops a b m m row left (inner + 1) (add_row ops a b m m v inner c))
        (same inner (omega arith))
      ∙ row_loop-same a a' row row' left (inner + 1)
          (add_row ops a b m m (entry ops a' (row' * m + inner)) inner c)
          (λ k h. same k (omega (arith, h)))

  -- The product of a block of rows is that part of the whole product.
  pub ppdpc_dgemm-a_block :
      (a : List D) (cmd : BenchCmd)
      → ppdpc_dgemm ops (a_block ops a m cmd) b cmd.row_count m m
        ≡ rows_from (dgemm_row ops a b m m) cmd.row_start cmd.row_count
  unfolding ppdpc_dgemm dgemm_row a_block
  ppdpc_dgemm-a_block a cmd =
      rows_from-same (dgemm_row ops (a_block ops a m cmd) b m m) (dgemm_row ops a b m m) 0
        cmd.row_start cmd.row_count
        (λ r h.
          ap (dgemm_row ops (a_block ops a m cmd) b m m) (let e : 0 + r ≡ r = omega arith in e)
          ∙ row_loop-same (a_block ops a m cmd) a r (cmd.row_start + r) m 0
              (fill (λ column. ops.from_nat 0) 0 m)
              (λ k small.
                let inside : r * m + k < cmd.row_count * m =
                  omega
                    (arith, small, mul-le-mul_right m (let e : suc r ≤ cmd.row_count = h in e)) in
                get_or-fill_zero (ops.from_nat 0) (λ i. entry ops a (cmd.row_start * m + i))
                  (cmd.row_count * m) (r * m + k) inside
                ∙ ap (entry ops a) (omega arith)))

  pub length-a_block :
      (a : List D) (cmd : BenchCmd) → length (a_block ops a m cmd) ≡ cmd.row_count * m
  unfolding a_block
  length-a_block a cmd =
      length-fill (λ i. entry ops a (cmd.row_start * m + i)) 0 (cmd.row_count * m)
