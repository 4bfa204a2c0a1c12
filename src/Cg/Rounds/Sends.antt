-- ===== src/Cg/Rounds/Sends.antt =====
-- The rows and vectors that the master of the CG workload sends to one worker, and the parts that
-- workers return, for the reference iteration on the whole matrix.
use distributed_enclave.Common.{
  ℕ, zero, suc, ◌+◌, ◌-◌, ◌*◌, ◌/◌, ◌≤◌, ◌<◌, ◌≡◌, refl, ap, ◌∙◌, arith, Bool, true, false, ◌==◌,
  length, length-map, length-fill, length-replicate,
}
use distributed_enclave.Common.{List, [], ◌∷◌, Option, some, fill, inl, inr, Bool-cases}
use distributed_enclave.Cg.{Csr, row_start, row_count, row_slice, spmv_kernel, gather_rows}
use distributed_enclave.Cg.Slices.{Rising}
use distributed_enclave.Cg.Gather.{gather_rows-spmv_kernel}
use distributed_enclave.Workload.{NpbCmd, Out, command, cg_rowptr, cg_colidx, cg_val, cg_x, to_all}
use distributed_enclave.Workload.Doubles.{Doubles}
use distributed_enclave.Workload.Loops.{to_worker, to_worker-append, to_worker-to_all}
use native.Mathlib.Nat.{mul-le-mul_right, mul-div-le}
use distributed_enclave.Cg.Rounds.{
  bulk_fits, bulk_limit, cg_ops, norm_loop, normalised, start_vector, send_slices, gather_parts,
  cg_iterations,
}

abbrev pub slice_of : {D : Type 0} → ℕ → ℕ → Csr D → ℕ → Csr D
slice_of cg_n nworkers a w = row_slice a (row_start cg_n nworkers w) (row_count cg_n nworkers w)

pub rows_inside :
    (cg_n nworkers w : ℕ)
    → w < nworkers
    → row_start cg_n nworkers w + row_count cg_n nworkers w ≤ cg_n
unfolding row_start row_count
rows_inside cg_n nworkers w known = elim (Bool-cases (w == nworkers - 1)) [
  | inl last ↦
      rw last (omega (arith, mul-le-mul_right (cg_n / nworkers) known, mul-div-le cg_n nworkers))
  | inr inner ↦
      rw inner (omega (arith, mul-le-mul_right (cg_n / nworkers) known, mul-div-le cg_n nworkers))
]

module _ {D : Type 0} (encrypt : Bool) (cmd : ℕ → NpbCmd) (cg_n nworkers : ℕ) (a : Csr D) where
  -- What one worker gets before the iterations.
  abbrev pub slice_messages : ℕ → List (Option (Out D))
  slice_messages w =
      some (command (cmd w))
      ∷ some (cg_rowptr (slice_of cg_n nworkers a w).row_ptr)
      ∷ some (cg_colidx (slice_of cg_n nworkers a w).col_idx)
      ∷ some (cg_val (slice_of cg_n nworkers a w).val)
      ∷ []

  -- The three messages with the rows of worker `w` are small enough.
  pub record SliceFits (w : ℕ) : Type 0 where
    pub row_ptr_fits : bulk_fits encrypt (4 * length (slice_of cg_n nworkers a w).row_ptr) ≡ true
    pub col_idx_fits : bulk_fits encrypt (4 * length (slice_of cg_n nworkers a w).col_idx) ≡ true
    pub val_fits : bulk_fits encrypt (8 * length (slice_of cg_n nworkers a w).val) ≡ true

  module _ (fits : (w : ℕ) → w < nworkers → SliceFits w) where
    slices_none : (i : ℕ) → send_slices encrypt cmd cg_n nworkers a 0 i ≡ ([], true)
    unfolding send_slices
    slices_none i = refl

    slices_next :
        (left i : ℕ)
        → i < nworkers
        → let (more, all_sent) = send_slices encrypt cmd cg_n nworkers a left (i + 1) in
          send_slices encrypt cmd cg_n nworkers a (suc left) i ≡ (
            (i, command (cmd i))
                ∷ (i, cg_rowptr (slice_of cg_n nworkers a i).row_ptr)
                ∷ (i, cg_colidx (slice_of cg_n nworkers a i).col_idx)
                ∷ (i, cg_val (slice_of cg_n nworkers a i).val)
                ∷ more,
            all_sent,
          )
    unfolding send_slices
    slices_next left i known =
        let fit = fits i known in
        rw (send_slices, fit.row_ptr_fits, fit.col_idx_fits, fit.val_fits) refl

    pub send_slices_all :
        (left i : ℕ)
        → i + left ≤ nworkers
        → (send_slices encrypt cmd cg_n nworkers a left i).1 ≡ true
    send_slices_all zero i inside = rw (slices_none i) refl
    send_slices_all (suc left) i inside =
        rw (slices_next left i (omega arith)) (send_slices_all left (i + 1) (omega arith))

    slices_before :
        (left i w : ℕ)
        → i + left ≤ nworkers
        → w < i
        → to_worker w (send_slices encrypt cmd cg_n nworkers a left i).0 ≡ []
    slices_before zero i w inside h = rw (slices_none i) refl
    slices_before (suc left) i w inside h =
        let apart : (i == w) ≡ false = ground arith in
        rw (slices_next left i (omega arith), apart)
          (slices_before left (i + 1) w (omega arith) (omega arith))

    pub to_worker-send_slices :
        (left i w : ℕ)
        → i + left ≤ nworkers
        → i ≤ w
        → w < i + left
        → to_worker w (send_slices encrypt cmd cg_n nworkers a left i).0 ≡ slice_messages w
    to_worker-send_slices zero i w inside low high = absurd (omega arith)
    to_worker-send_slices (suc left) i w inside low high = elim (Bool-cases (i == w)) [
      | inl here ↦
          rw
            (
              slices_next left i (omega arith),
              here,
              slices_before left (i + 1) w (omega arith) (ground arith),
            )
            (ap slice_messages (ground arith))
      | inr apart ↦
          rw (slices_next left i (omega arith), apart)
            (to_worker-send_slices left (i + 1) w (omega arith) (ground arith) (omega arith))
    ]

module _ {D : Type 0} (ops : Doubles D) (cg_n : ℕ) (a : Csr D) where
  abbrev pub product : List D → List D
  product x = spmv_kernel (cg_ops ops) cg_n a x

  -- The iteration on one machine.
  unfoldable pub power : ℕ → List D
  power zero = start_vector ops cg_n
  power (suc k) = normalised ops (power k) (product (power k))

  power-next : (k : ℕ) → power (k + 1) ≡ normalised ops (power k) (product (power k))
  unfolding power
  power-next k = let e : k + 1 ≡ suc k = omega arith in rw e refl

  length-product : (x : List D) → length (product x) ≡ cg_n
  unfolding spmv_kernel
  length-product x = length-fill _ 0 cg_n

  length-normalised :
      (x y : List D) → length x ≡ cg_n → length y ≡ cg_n → length (normalised ops x y) ≡ cg_n
  unfolding normalised
  length-normalised x y p q =
      elim (Bool-cases (ops.gt (ops.sqrt (norm_loop ops (ops.from_nat 0) y)) (ops.from_nat 0))) [
        | inl moves ↦ rw moves (length-map y _ ∙ q)
        | inr stays ↦ rw stays p
      ]

  pub length-power : (k : ℕ) → length (power k) ≡ cg_n
  unfolding power
  length-power zero = length-replicate cg_n _
  length-power (suc k) =
      length-normalised (power k) (product (power k)) (length-power k) (length-product (power k))

  module _ (nworkers : ℕ) where
    -- What worker `w` returns for a vector.
    abbrev pub part : ℕ → List D → List D
    part w x = spmv_kernel (cg_ops ops) (row_count cg_n nworkers w) (slice_of cg_n nworkers a w) x

    abbrev pub part_answers : ℕ → ℕ → Option (List D × Bool)
    part_answers iter w = some (part w (power iter), true)

  module _ (encrypt : Bool) (nworkers : ℕ) (rising : Rising a cg_n) (pos : 0 < nworkers)
      (fits : 8 * cg_n ≤ bulk_limit encrypt) where
    length-part : (w : ℕ) (x : List D) → length (part nworkers w x) ≡ row_count cg_n nworkers w
    unfolding spmv_kernel
    length-part w x = length-fill _ 0 (row_count cg_n nworkers w)

    gather_parts-rows :
        (iter left w : ℕ)
        → w + left ≤ nworkers
        → gather_parts encrypt cg_n nworkers (part_answers nworkers iter) left w
          ≡ some (gather_rows (cg_ops ops) cg_n nworkers a (power iter) w left)
    unfolding gather_parts gather_rows
    gather_parts-rows iter zero w inside = refl
    gather_parts-rows iter (suc left) w inside =
        let rows_fit : bulk_fits encrypt (8 * row_count cg_n nworkers w) ≡ true =
          ground (arith, rows_inside cg_n nworkers w (omega arith), fits) in
        let size : (length (part nworkers w (power iter)) == row_count cg_n nworkers w) ≡ true =
          ground (arith, length-part w (power iter)) in
        rw (gather_parts, rows_fit, size, gather_parts-rows iter left (w + 1) (omega arith)) refl

    gather_parts-product :
        (iter : ℕ)
        → gather_parts encrypt cg_n nworkers (part_answers nworkers iter) nworkers 0
          ≡ some (product (power iter))
    gather_parts-product iter =
        gather_parts-rows iter nworkers 0 (omega arith)
        ∙ ap some (gather_rows-spmv_kernel (cg_ops ops) a (power iter) cg_n nworkers rising pos)

    -- With these parts the master's iterations are those of one machine, and each worker gets the
    -- vector of each iteration.
    pub cg_iterations-power :
        (left iter : ℕ)
        → ((cg_iterations ops encrypt cg_n nworkers
              (part_answers nworkers)
              left
              iter
              (power iter)).1
            ≡ some (power (iter + left)))
          × ((w : ℕ)
              → w < nworkers
              → to_worker w
                  (cg_iterations ops encrypt cg_n nworkers
                    (part_answers nworkers)
                    left
                    iter
                    (power iter)).0
                ≡ fill (λ k. some (cg_x (power k))) iter left)
    unfolding cg_iterations
    cg_iterations-power zero iter = (ap (λ k. some (power k)) (omega arith), λ w known. refl)
    cg_iterations-power (suc left) iter =
        let (ends, sends) = cg_iterations-power left (iter + 1) in
        let next = power-next iter in
        let x_fits : bulk_fits encrypt (8 * length (power iter)) ≡ true =
          ground (arith, length-power iter, fits) in
        let gathered = gather_parts-product iter in
        let rest =
          cg_iterations ops encrypt cg_n nworkers (part_answers nworkers) left (iter + 1)
            (power (iter + 1)) in
        (
          rw (cg_iterations, x_fits, gathered, ← next)
              (ends ∙ ap (λ k. some (power k)) (omega arith)),
          λ w known.
              rw
                (
                  cg_iterations,
                  x_fits,
                  gathered,
                  ← next,
                  to_worker-append w (to_all nworkers (cg_x (power iter))) rest.0,
                  to_worker-to_all {M = Out D} w nworkers (cg_x (power iter)) known,
                  sends w known,
                )
                refl,
        )
