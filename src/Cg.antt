-- ===== src/Cg.antt =====
-- The sparse matrix-vector product of the CG workload: the matrix and its rows' distribution in
-- src/master_npb.c, and the kernel in src/worker_npb.c. Doubles are any type with the operations used.
pub mod Slices
pub mod Gather
pub mod Rounds
mod Tests
use distributed_enclave.Common.{
  ℕ, zero, suc, ◌+◌, ◌-◌, ◌*◌, ◌/◌, ◌^◌, Bool, true, false, not, ◌||◌, ltb, leb, ◌==◌, ◌%◌,
}
use distributed_enclave.Common.{
  List, [], ◌∷◌, ◌++◌, Option, none, some, if◌then◌else◌, get_or, take, drop, fill,
}

abbrev pub int_max : ℕ
int_max = 2 ^ 31 - 1

-- The operations on `double` that the kernel uses.
pub record Doubles (D : Type 0) : Type 0 where
  pub zero_d : D
  pub add : D → D → D
  pub mul : D → D → D

-- A matrix by rows. The entries of row `i` are those from `row_ptr[i]` to before `row_ptr[i + 1]`.
pub record Csr (D : Type 0) : Type 0 where
  pub row_ptr : List ℕ
  pub col_idx : List ℕ
  pub val : List D

abbrev pub ptr : {D : Type 0} → Csr D → ℕ → ℕ
ptr a i = get_or a.row_ptr i 0

-- `generate_sparse_matrix`: `rand` gives the numbers that rand() returns after srand, one after the
-- other, and `scaled` what the source makes of one; `allocated` says that the mallocs succeeded.
unfoldable pub generate_sparse_matrix :
    {D : Type 0} → (ℕ → ℕ) → (ℕ → D) → Bool → ℕ → ℕ → Option (Csr D)
generate_sparse_matrix rand scaled allocated n nzpc =
    if (n == 0) || ((nzpc == 0) || ltb (int_max / nzpc) n)
    then none
    else if not allocated
    then none
    else some (record {
      row_ptr = fill (λ i. i * nzpc) 0 (n + 1);
      col_idx = fill (λ k. rand (2 * k) % n) 0 (n * nzpc);
      val = fill (λ k. scaled (rand (2 * k + 1))) 0 (n * nzpc);
    })

unfoldable pub row_start : ℕ → ℕ → ℕ → ℕ
row_start cg_n nworkers w = w * (cg_n / nworkers)

unfoldable pub row_count : ℕ → ℕ → ℕ → ℕ
row_count cg_n nworkers w =
    if w == nworkers - 1 then cg_n - w * (cg_n / nworkers) else cg_n / nworkers

module _ {D : Type 0} where
  -- What the master sends to a worker whose rows are the `rc` rows from `rs` on.
  unfoldable pub row_slice : Csr D → ℕ → ℕ → Csr D
  row_slice a rs rc =
      let nnz = ptr a (rs + rc) - ptr a rs in
      record {
        row_ptr = fill (λ r. ptr a (rs + r) - ptr a rs) 0 (rc + 1);
        col_idx = take nnz (drop (ptr a rs) a.col_idx);
        val = take nnz (drop (ptr a rs) a.val);
      }

  module _ (ops : Doubles D) (a : Csr D) (x : List D) where
    -- `for (j = ...; j < row_ptr[i + 1]; j++) sum += val[j] * x[col_idx[j]]`, `n` times from `j` on.
    unfoldable pub row_sum : ℕ → ℕ → D → D
    row_sum zero j sum = sum
    row_sum (suc n) j sum = row_sum n (j + 1) (
        ops.add sum
          (ops.mul (get_or a.val j ops.zero_d) (get_or x (get_or a.col_idx j 0) ops.zero_d)))

    unfoldable pub spmv_row : ℕ → D
    spmv_row i = row_sum (ptr a (i + 1) - ptr a i) (ptr a i) ops.zero_d

  unfoldable pub spmv_kernel : Doubles D → ℕ → Csr D → List D → List D
  spmv_kernel ops nrows a x = fill (spmv_row ops a x) 0 nrows

  -- `recv_bulk` into `y + row_starts[w]` for each worker in turn, from worker `w` on: the parts
  -- follow each other in `y`.
  unfoldable pub gather_rows : Doubles D → ℕ → ℕ → Csr D → List D → ℕ → ℕ → List D
  gather_rows ops cg_n nworkers a x w zero = []
  gather_rows ops cg_n nworkers a x w (suc left) =
      let rc = row_count cg_n nworkers w in
      spmv_kernel ops rc (row_slice a (row_start cg_n nworkers w) rc) x
      ++ gather_rows ops cg_n nworkers a x (w + 1) left
