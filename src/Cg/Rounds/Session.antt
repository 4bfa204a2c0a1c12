-- ===== src/Cg/Rounds/Session.antt =====
-- The master and the workers in the CG workload.
use distributed_enclave.Common.{
  ℕ, zero, suc, ◌+◌, ◌/◌, ◌≤◌, ◌<◌, ◌≡◌, refl, sym, ap, arith, Bool, true, false, ltb, leb, ◌==◌,
  length, length-append, length-fill, get_or, ◌*◌, ◌∙◌,
}
use distributed_enclave.Common.{List, [], ◌∷◌, ◌++◌, Option, some, fill}
use native.Mathlib.Nat.{mul-le-mul_right, mul-le-mul_left, mul-div-le}
use mathlib.Core.List.{append-nil, append_assoc}
use distributed_enclave.Cg.{Csr, ptr, generate_sparse_matrix, row_count, int_max}
use distributed_enclave.Cg.Slices.{Rising}
use distributed_enclave.Cg.Gather.{generate_sparse_matrix-shape}
use distributed_enclave.Workload.{
  NpbCmd, workload_cg, NpbResult, record_if_room, max_runs, max_results, Out, command, cg_rowptr,
  cg_colidx, cg_val, complete, Sending, served,
}
use distributed_enclave.Workload.Doubles.{Doubles}
use distributed_enclave.Workload.Loops.{to_worker, to_worker-append, rows_of}
use distributed_enclave.Cg.Rounds.{
  after_slices, bulk_limit, bulk_fits, size_max, cg_cmd, start_vector, send_slices, cg_iterations,
  cg_runs, run_cg_master, run_cg_workload,
}
use distributed_enclave.Cg.Rounds.Sends.{
  rows_inside, SliceFits, send_slices_all, slice_of, to_worker-send_slices, power, part,
  part_answers, cg_iterations-power,
}
use distributed_enclave.Cg.Rounds.Served.{repeated, vectors, worker_runs, slice_sizes}

module _ {D : Type 0} (ops : Doubles D) (cg_n cg_nzpc cg_iters nworkers num_runs : ℕ)
    (encrypt : Bool) (a : Csr D) (rising : Rising a cg_n) (entries : ptr a cg_n ≡ length a.val)
    (columns : length a.col_idx ≡ length a.val) (few_entries : length a.val ≤ int_max)
    (few_rows : cg_n ≤ int_max) (some_row : 0 < cg_n) (some_iteration : 0 < cg_iters)
    (some_run : 0 < num_runs) (pos : 0 < nworkers)
    (values_fit : 8 * length a.val ≤ bulk_limit encrypt)
    (vector_fits : 8 * cg_n ≤ bulk_limit encrypt) where
  abbrev cmd : ℕ → NpbCmd
  cmd = cg_cmd encrypt num_runs cg_n cg_nzpc cg_iters nworkers

  worker_part :
      (w : ℕ) (rest : List (Option (Out D)))
      → w < nworkers
      → run_cg_workload ops (cmd w) true (
          some (cg_rowptr (slice_of cg_n nworkers a w).row_ptr)
          ∷ some (cg_colidx (slice_of cg_n nworkers a w).col_idx)
          ∷ some (cg_val (slice_of cg_n nworkers a w).val)
          ∷ (repeated num_runs (vectors ops cg_n a 0 cg_iters) ++ rest))
        ≡ (
          repeated num_runs
              (fill (λ k. part ops cg_n a nworkers w (power ops cg_n a k)) 0 cg_iters),
          served rest,
        )
  unfolding run_cg_workload
  worker_part w rest known =
      let rc = row_count cg_n nworkers w in
      let inside = rows_inside cg_n nworkers w known in
      let (rows, cols, vals, bound) = slice_sizes cg_n nworkers w a rising entries columns inside in
      let slice = slice_of cg_n nworkers a w in
      let a₁ : (cg_n == 0) ≡ false = ground arith in
      let a₂ : (cg_iters == 0) ≡ false = ground arith in
      let a₃ : (num_runs == 0) ≡ false = ground arith in
      let a₄ : ltb (size_max / 8) rc ≡ false = ground (arith, inside) in
      let a₅ : ltb (size_max / 8) cg_n ≡ false = ground arith in
      let a₆ : ltb (size_max / 4) (rc + 1) ≡ false = ground (arith, inside) in
      let b₁ : bulk_fits encrypt (4 * (rc + 1)) ≡ true = ground (arith, inside) in
      let b₂ : bulk_fits encrypt (4 * get_or slice.row_ptr rc 0) ≡ true = ground (arith, bound) in
      let b₃ : bulk_fits encrypt (8 * get_or slice.row_ptr rc 0) ≡ true = ground (arith, bound) in
      let b₄ : bulk_fits encrypt (8 * cg_n) ≡ true = ground arith in
      let b₅ : bulk_fits encrypt (8 * rc) ≡ true = ground (arith, inside) in
      let a₇ : (length slice.row_ptr == rc + 1) ≡ true = ground (arith, rows) in
      let a₈ : ltb (size_max / 8) (get_or slice.row_ptr rc 0) ≡ false = ground (arith, bound) in
      let a₉ : (length slice.col_idx == get_or slice.row_ptr rc 0) ≡ true = ground (arith, cols) in
      let a₁₀ : (length slice.val == get_or slice.row_ptr rc 0) ≡ true = ground (arith, vals) in
      rw (run_cg_workload, a₁, a₂, a₃, a₄, a₅, a₆, a₇, a₈, a₉, a₁₀, b₁, b₂, b₃, b₄)
        (worker_runs ops encrypt cg_n a rc slice cg_iters num_runs 1 rest b₅)

  all_fit : (w : ℕ) → w < nworkers → SliceFits encrypt cmd cg_n nworkers a w
  all_fit w known =
      let rc = row_count cg_n nworkers w in
      let inside = rows_inside cg_n nworkers w known in
      let (rows, cols, vals, bound) = slice_sizes cg_n nworkers w a rising entries columns inside in
      record {
        row_ptr_fits = ground (arith, rows, inside);
        col_idx_fits = ground (arith, cols, bound);
        val_fits = ground (arith, vals, bound);
      }

  abbrev answers : ℕ → ℕ → ℕ → Option (List D × Bool)
  answers run iter w = part_answers ops cg_n a nworkers iter w

  abbrev runs : ℕ → ℕ → List NpbResult → Sending D
  runs left run rows = cg_runs ops cg_n cg_iters nworkers encrypt answers left run rows

  runs-complete :
      (left run : ℕ) (rows : List NpbResult)
      → length rows + left ≤ max_results
      → ((runs left run rows).1 ≡ complete (rows ++ rows_of workload_cg nworkers encrypt run left))
        × ((w : ℕ)
            → w < nworkers
            → to_worker w (runs left run rows).0 ≡ repeated left (vectors ops cg_n a 0 cg_iters))
  unfolding cg_runs record_if_room power
  runs-complete zero run rows few = (ap complete (sym (append-nil rows)), λ w known. refl)
  runs-complete (suc left) run rows few =
      let (ends, vectors_sent) =
        cg_iterations-power ops cg_n a encrypt nworkers rising pos vector_fits cg_iters 0 in
      let sent =
        (cg_iterations ops encrypt cg_n nworkers (answers run) cg_iters 0
          (start_vector ops cg_n)).0 in
      let row : NpbResult = record {
        workload = workload_cg;
        num_workers = nworkers;
        encrypted = encrypt;
        run = run;
      } in
      let fits : leb max_results (length rows) ≡ false = ground arith in
      let (more, others) =
        runs-complete left (run + 1) (rows ++ row ∷ [])
          (omega (arith, length-append rows (row ∷ []))) in
      (
        rw (cg_runs, ends, record_if_room, fits, more)
            (ap complete
              (append_assoc rows (row ∷ []) (rows_of workload_cg nworkers encrypt (run + 1) left))),
        λ w known.
            rw
              (
                cg_runs,
                ends,
                record_if_room,
                fits,
                to_worker-append w sent (runs left (run + 1) (rows ++ row ∷ [])).0,
                vectors_sent w known,
                others w known,
              )
              refl,
      )

generated_size :
    {D : Type 0} (rand : ℕ → ℕ) (scaled : ℕ → D) (a : Csr D) (n nzpc : ℕ)
    → generate_sparse_matrix rand scaled true n nzpc ≡ some a
    → (0 < n) × (n ≤ int_max) × (length a.val ≡ n * nzpc) × (n ≤ n * nzpc)
unfolding generate_sparse_matrix
generated_size rand scaled a n nzpc e =
    let low : n ≤ int_max / nzpc = ground arith in
    let some_entry : 0 < nzpc = ground arith in
    (
      ground arith,
      omega
          (arith, mul-le-mul_right nzpc low, mul-div-le int_max nzpc, mul-le-mul_left n some_entry),
      ground (arith, length-fill (λ k. scaled (rand (2 * k + 1))) 0 (n * nzpc)),
      omega (arith, mul-le-mul_left n some_entry),
    )

-- What a worker gets behind its command.
abbrev pub cg_messages :
    {D : Type 0} → Doubles D → ℕ → ℕ → ℕ → ℕ → Csr D → ℕ → List (Option (Out D))
cg_messages ops cg_n cg_iters nworkers num_runs a w =
    let slice = slice_of cg_n nworkers a w in
    some (cg_rowptr slice.row_ptr)
    ∷ some (cg_colidx slice.col_idx)
    ∷ some (cg_val slice.val)
    ∷ repeated num_runs (vectors ops cg_n a 0 cg_iters)

-- In the CG workload, on a matrix that the master has generated, whose values fit into one bulk message
-- (8 bytes for each of cg_n * cg_nzpc entries, at most INT_MAX, less 28 when encrypted), with at least
-- one worker, iteration and run, at most `max_runs` runs, enough memory, an empty table and times in
-- order: when each worker answers with its rows of the product for the vector of the iteration on one
-- machine, the master comes to its end with one row for each run, in order, and sends each worker the
-- command, the row pointers, columns and values of its rows, and in each run the vectors of that
-- iteration, and nothing else. The worker, on these messages, returns its parts of the products, in
-- order, and is through.
pub cg_session :
    {D : Type 0} (ops : Doubles D) (rand : ℕ → ℕ) (scaled : ℕ → D) (a : Csr D)
    (cg_n cg_nzpc cg_iters nworkers num_runs : ℕ) (encrypt : Bool)
    → generate_sparse_matrix rand scaled true cg_n cg_nzpc ≡ some a
    → 0 < nworkers
    → 0 < cg_iters
    → 0 < num_runs
    → num_runs ≤ max_runs
    → 8 * (cg_n * cg_nzpc) ≤ bulk_limit encrypt
    → let cmd = cg_cmd encrypt num_runs cg_n cg_nzpc cg_iters nworkers in
      let sending =
        run_cg_master ops nworkers encrypt num_runs cg_n cg_nzpc cg_iters
          (some a)
          (λ run iter w. part_answers ops cg_n a nworkers iter w)
          [] in
      (sending.1 ≡ complete (rows_of workload_cg nworkers encrypt 1 num_runs))
      × ((w : ℕ)
          → w < nworkers
          → let messages = cg_messages ops cg_n cg_iters nworkers num_runs a w in
            (to_worker w sending.0 ≡ some (command (cmd w)) ∷ messages)
            × ((rest : List (Option (Out D)))
                → run_cg_workload ops (cmd w) true (messages ++ rest) ≡ (
                  repeated num_runs
                      (fill (λ k. part ops cg_n a nworkers w (power ops cg_n a k)) 0 cg_iters),
                  served rest,
                )))
unfolding run_cg_master
cg_session {D} ops rand scaled a cg_n cg_nzpc cg_iters nworkers num_runs encrypt generated pos
      some_iteration some_run few fits =
    let (rising, entries, columns, few_entries, _) =
      generate_sparse_matrix-shape rand scaled true cg_n cg_nzpc a generated in
    let (some_row, few_rows, size, wide) = generated_size rand scaled a cg_n cg_nzpc generated in
    let cmds = cg_cmd encrypt num_runs cg_n cg_nzpc cg_iters nworkers in
    let values_fit : 8 * length a.val ≤ bulk_limit encrypt = omega (arith, fits, size) in
    let vector_fits : 8 * cg_n ≤ bulk_limit encrypt = omega (arith, fits, wide) in
    let fit =
      all_fit ops cg_n cg_nzpc cg_iters nworkers num_runs encrypt a rising entries columns
        few_entries few_rows some_row some_iteration some_run pos values_fit vector_fits in
    let (ends, vectors_sent) =
      runs-complete ops cg_n cg_nzpc cg_iters nworkers num_runs encrypt a rising entries columns
        few_entries few_rows some_row some_iteration some_run pos values_fit vector_fits num_runs 1
        [] (omega (arith, few)) in
    let slices = send_slices encrypt cmds cg_n nworkers a nworkers 0 in
    let whole : slices ≡ (slices.0, true) =
      ap (λ b. (slices.0, b))
        (send_slices_all encrypt cmds cg_n nworkers a fit nworkers 0 (omega arith)) in
    let runs =
      cg_runs ops cg_n cg_iters nworkers encrypt
        (λ run iter v. part_answers ops cg_n a nworkers iter v) num_runs 1 [] in
    (
      ap (λ s. (after_slices s runs).1) whole ∙ ends,
      λ w known. (
        ap (λ s. to_worker w (after_slices s runs).0) whole
            ∙ rw
                (
                  to_worker-append w slices.0 runs.0,
                  to_worker-send_slices encrypt cmds cg_n nworkers a fit nworkers 0 w (omega arith)
                      (omega arith) (omega arith),
                  vectors_sent w known,
                )
                refl,
        λ rest.
            worker_part ops cg_n cg_nzpc cg_iters nworkers num_runs encrypt a rising entries columns
              few_entries few_rows some_row some_iteration some_run pos values_fit vector_fits w
              rest known,
      ),
    )
