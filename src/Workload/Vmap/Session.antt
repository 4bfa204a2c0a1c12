-- ===== src/Workload/Vmap/Session.antt =====
-- The master and the workers in the workload VMAP.
use distributed_enclave.Common.{
  ℕ, zero, suc, ◌+◌, ◌-◌, ◌*◌, ◌/◌, ◌%◌, ◌≤◌, ◌<◌, ◌≡◌, refl, ap, ◌∙◌, arith, Bool, true, false,
  ◌&&◌, ltb, ◌==◌,
}
use distributed_enclave.Common.{List, [], ◌∷◌, ◌++◌, map, Option, some, fill, length-fill}
use distributed_enclave.Random.{mib_bytes}
use distributed_enclave.Workload.{
  workload_vmap, WorkloadReady, send_workload_ready, ready_ok, wait_for_workload_ready, max_runs,
  Out, command, vmap_input, complete, served, answer,
}
use distributed_enclave.Workload.Doubles.{Doubles, IsIeee}
use distributed_enclave.Workload.Loops.{
  to_worker, wait_for_workload_ready_all, gather_loop-some, rows_of, started-complete,
  worker_loop-served,
}
use distributed_enclave.Workload.Stream.{sum_loop}
use distributed_enclave.Workload.Stream.Session.{checked_mib_bytes_fits}
use distributed_enclave.Workload.Vmap.{
  VmapResult, vmap_cmd, vmap_min_mib, vmap_max_mib, vmap_transform, vmap_input_value, element,
  samples_ok, vmap_result, vmap_respond, run_vmap_workload, expected_loop, vmap_check,
  run_vmap_master,
}

module _ {D : Type 0} (ops : Doubles D) where
  -- Doubles do not overflow here: the values that are mapped lie between -8 and 24.
  pub record VmapFinite (count : ℕ) : Type 0 where
    pub values : (i : ℕ) → ops.isfinite (vmap_transform ops (vmap_input_value ops i)) ≡ true
    pub total : ops.isfinite (expected_loop ops count 0 (ops.from_nat 0)) ≡ true

  -- The worker's sum of the mapped block is the master's, addition by addition.
  sum_loop-map :
      (n i : ℕ) (s : D)
      → sum_loop ops s (map (vmap_transform ops) (fill (vmap_input_value ops) i n))
        ≡ expected_loop ops n i s
  unfolding sum_loop expected_loop
  sum_loop-map zero i s = refl
  sum_loop-map (suc n) i s =
      sum_loop-map n (i + 1) (ops.add s (vmap_transform ops (vmap_input_value ops i)))

  element-map :
      (n i j : ℕ)
      → j < n
      → element ops (map (vmap_transform ops) (fill (vmap_input_value ops) i n)) j
        ≡ vmap_transform ops (vmap_input_value ops (i + j))
  element-map zero i j h = absurd (omega arith)
  element-map (suc n) i zero h = ap (λ k. vmap_transform ops (vmap_input_value ops k)) (omega arith)
  element-map (suc n) i (suc j) h =
      element-map n (i + 1) j (omega (arith, h))
      ∙ ap (λ k. vmap_transform ops (vmap_input_value ops k)) (omega arith)

  element-fill :
      (n i j : ℕ)
      → j < n
      → element ops (fill (vmap_input_value ops) i n) j ≡ vmap_input_value ops (i + j)
  element-fill zero i j h = absurd (omega arith)
  element-fill (suc n) i zero h = ap (vmap_input_value ops) (omega arith)
  element-fill (suc n) i (suc j) h =
      element-fill n (i + 1) j (omega (arith, h)) ∙ ap (vmap_input_value ops) (omega arith)

  abbrev block : ℕ → List D
  block count = fill (vmap_input_value ops) 0 count

  -- The block and the result that a worker sends for a run.
  abbrev pub worker_reply : ℕ → ℕ → List D × VmapResult D
  worker_reply count run = vmap_result ops run (block count) count true

  module _ (ieee : IsIeee D ops) where
    sample_same :
        (count j : ℕ)
        → VmapFinite count
        → j < count
        → ops.eq
            (element ops (map (vmap_transform ops) (block count)) j)
            (vmap_transform ops (element ops (block count) j))
          ≡ true
    sample_same count j finite h =
        rw (element-map count 0 j h, element-fill count 0 j h)
          (ieee.eq_refl _ (finite.values (0 + j)))

    samples_same :
        (count : ℕ)
        → VmapFinite count
        → 0 < count
        → samples_ok ops (block count) (map (vmap_transform ops) (block count)) count ≡ true
    samples_same count finite h =
        rw
          (
            sample_same count 0 finite h,
            sample_same count (count / 2) finite (omega (arith, h)),
            sample_same count (count - 1) finite (omega (arith, h)),
          )
          refl

    vmap_result-accepted :
        (count run w : ℕ)
        → VmapFinite count
        → 0 < count
        → vmap_check ops count
            (expected_loop ops count 0 (ops.from_nat 0))
            run
            tt
            w
            (some (worker_reply count run))
          ≡ some tt
    unfolding vmap_check vmap_result
    vmap_result-accepted count run w finite h =
        let itself : (run == run) ≡ true = ground arith in
        rw
          (
            vmap_check,
            vmap_result,
            sum_loop-map count 0 (ops.from_nat 0),
            finite.total,
            samples_same count finite h,
            itself,
            ieee.sub_self _ finite.total,
            ieee.fabs_zero,
            ieee.tolerance (ops.fabs (expected_loop ops count 0 (ops.from_nat 0))),
          )
          refl

    worker_part :
        (num_runs mib : ℕ) (encrypt : Bool) (rest : List (Option (Out D)))
        → vmap_min_mib ≤ mib
        → mib ≤ vmap_max_mib
        → let count = mib * mib_bytes / 8 in
          run_vmap_workload ops
            (vmap_cmd encrypt num_runs mib)
            true
            (λ run. true)
            (fill (λ r. some (vmap_input (block count))) 1 num_runs ++ rest)
          ≡ (
            send_workload_ready workload_vmap true count,
            fill (worker_reply count) 1 num_runs,
            served rest,
          )
    unfolding run_vmap_workload
    worker_part num_runs mib encrypt rest low high =
        let count = mib * mib_bytes / 8 in
        let fits = checked_mib_bytes_fits mib (omega (arith, high)) in
        let not_low : ltb mib vmap_min_mib ≡ false = ground arith in
        let not_high : ltb vmap_max_mib mib ≡ false = ground arith in
        let whole : (mib * mib_bytes % 8 == 0) ≡ true = ground arith in
        let hears : (r : ℕ)
            → vmap_respond ops count (λ run. true) r (vmap_input (block count))
              ≡ answer (worker_reply count r) =
          λ r. ground (arith, length-fill (vmap_input_value ops) 0 count) in
        let serves =
          worker_loop-served (vmap_respond ops count (λ run. true))
            (λ run. vmap_input (block count)) (worker_reply count) num_runs 1 rest hears in
        rw (run_vmap_workload, not_low, not_high, fits, whole, serves) refl

    -- In the workload VMAP, with a size that both programs allow, at most `max_runs` runs, enough
    -- memory on both sides, an empty table, and no overflow of the doubles: the master comes to its end
    -- with one row for each run, in order. It sends every worker the command and the block for each run,
    -- and on these a worker reports that it is ready, returns the blocks and results that the master
    -- takes, and is through. Measured times are taken to be in order.
    pub vmap_session :
        (nworkers num_runs mib : ℕ) (encrypt : Bool)
        → vmap_min_mib ≤ mib
        → mib ≤ vmap_max_mib
        → num_runs ≤ max_runs
        → VmapFinite (mib * mib_bytes / 8)
        → let count = mib * mib_bytes / 8 in
          let cmd = vmap_cmd encrypt num_runs mib in
          let ready = send_workload_ready workload_vmap true count in
          let sending =
            run_vmap_master ops nworkers encrypt num_runs mib true
              (λ w. some ready)
              (λ run w. some (worker_reply count run))
              [] in
          (sending.1 ≡ complete (rows_of workload_vmap nworkers encrypt 1 num_runs))
          × ((w : ℕ)
              → w < nworkers
              → (inputs : List (Option (Out D))) × (to_worker w sending.0
                  ≡ some (command cmd) ∷ inputs)
                × ((rest : List (Option (Out D)))
                    → run_vmap_workload ops cmd true (λ run. true) (inputs ++ rest)
                      ≡ (ready, fill (worker_reply count) 1 num_runs, served rest)))
    unfolding run_vmap_master send_workload_ready
    vmap_session nworkers num_runs mib encrypt low high few finite =
        let count = mib * mib_bytes / 8 in
        let cmd = vmap_cmd encrypt num_runs mib in
        let ready : WorkloadReady = send_workload_ready workload_vmap true count in
        let fits = checked_mib_bytes_fits mib (omega (arith, high)) in
        let whole : (mib * mib_bytes % 8 == 0) ≡ true = ground arith in
        let check = vmap_check ops count (expected_loop ops count 0 (ops.from_nat 0)) in
        let ok : ready_ok workload_vmap count (some ready) ≡ true = ground arith in
        let waits =
          wait_for_workload_ready_all workload_vmap count (λ w. some ready) nworkers 0 (λ w. ok) in
        let all_ready : (wait_for_workload_ready workload_vmap count (λ w. some ready) nworkers 0
              && true)
            ≡ true =
          rw waits refl in
        let accepted = λ (run : ℕ).
          gather_loop-some (check run) (λ w. some (worker_reply count run)) (λ w s. Unit {0})
            (λ w s p. (tt, vmap_result-accepted count run w finite (omega (arith, low)), tt))
            nworkers 0 tt tt in
        let (ends, sends) =
          started-complete {D = D} workload_vmap nworkers encrypt (λ run. vmap_input (block count))
            check tt (λ run w. some (worker_reply count run)) cmd
            (wait_for_workload_ready workload_vmap count (λ w. some ready) nworkers 0 && true)
            num_runs all_ready accepted (omega (arith, few)) in
        (
          rw (run_vmap_master, fits, whole) ends,
          λ w known. (
            fill (λ r. some (vmap_input (block count))) 1 num_runs,
            rw (run_vmap_master, fits, whole) (sends w known),
            λ rest. worker_part num_runs mib encrypt rest low high,
          ),
        )
