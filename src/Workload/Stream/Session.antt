-- ===== src/Workload/Stream/Session.antt =====
-- The master and the workers in the workload STREAM.
use distributed_enclave.Common.{
  ℕ, zero, suc, ◌+◌, ◌*◌, ◌/◌, ◌%◌, ◌≤◌, ◌<◌, ◌≡◌, refl, ap, ◌∙◌, arith, Bool, true, false, ltb,
  ◌==◌,
}
use distributed_enclave.Common.{List, [], ◌∷◌, ◌++◌, Option, some, replicate, fill}
use distributed_enclave.Random.{checked_mib_bytes, mib_bytes}
use distributed_enclave.Workload.{
  workload_stream, WorkloadReady, send_workload_ready, ready_ok, wait_for_workload_ready, max_runs,
  Out, command, stream_run, complete, served, answer,
}
use distributed_enclave.Workload.Doubles.{Doubles, IsIeee, exact_max}
use distributed_enclave.Workload.Loops.{
  to_worker, wait_for_workload_ready_all, gather_loop-some, rows_of, started-complete,
  worker_loop-served,
}
use distributed_enclave.Workload.Stream.{
  StreamResult, stream_cmd, stream_min_mib, stream_max_mib, triad, sum_loop, stream_result,
  stream_respond, run_stream_workload, stream_check, run_stream_master,
}

pub checked_mib_bytes_fits : (mib : ℕ) → mib ≤ 256 → checked_mib_bytes mib ≡ some (mib * mib_bytes)
unfolding checked_mib_bytes
checked_mib_bytes_fits mib h = ground arith

module _ {D : Type 0} (ops : Doubles D) where
  -- The result that a worker sends for a run.
  abbrev pub worker_result : ℕ → ℕ → StreamResult D
  worker_result element_count run =
      stream_result ops run (replicate element_count (ops.from_nat 1))
        (replicate element_count (ops.from_nat 2)) element_count true

module _ {D : Type 0} (ops : Doubles D) (ieee : IsIeee D ops) where
  -- The sum of the array is exact: seven for each element.
  sum_loop-triad :
      (n start : ℕ)
      → start + 7 * n ≤ exact_max
      → sum_loop ops
          (ops.from_nat start)
          (triad ops (replicate n (ops.from_nat 1)) (replicate n (ops.from_nat 2)))
        ≡ ops.from_nat (start + 7 * n)
  unfolding sum_loop triad
  sum_loop-triad zero start h = ap ops.from_nat (omega arith)
  sum_loop-triad (suc n) start h =
      rw
        (
          ieee.mul_exact 3 2 (omega arith),
          ieee.add_exact 1 6 (omega arith),
          ieee.add_exact start 7 (omega (arith, h)),
        )
        (sum_loop-triad n (start + 7) (omega (arith, h)) ∙ ap ops.from_nat (omega arith))

  abbrev expected : ℕ → D
  expected element_count = ops.mul (ops.from_nat 7) (ops.from_nat element_count)

  stream_result-accepted :
      (element_count run w : ℕ)
      → 7 * element_count ≤ exact_max
      → stream_check ops
          (expected element_count)
          run
          tt
          w
          (some (worker_result ops element_count run))
        ≡ some tt
  unfolding stream_check stream_result
  stream_result-accepted n run w h =
      let total : sum_loop ops (ops.from_nat 0)
            (triad ops (replicate n (ops.from_nat 1)) (replicate n (ops.from_nat 2)))
          ≡ ops.from_nat (7 * n) =
        sum_loop-triad n 0 (omega (arith, h)) ∙ ap ops.from_nat (omega arith) in
      let finite = ieee.whole_finite (7 * n) h in
      let same = ieee.eq_refl (ops.from_nat (7 * n)) finite in
      let itself : (run == run) ≡ true = ground arith in
      rw (stream_check, stream_result, total, ieee.mul_exact 7 n h, finite, same, itself) refl

  worker_part :
      (num_runs array_mib warmup : ℕ) (encrypt : Bool) (rest : List (Option (Out D)))
      → stream_min_mib ≤ array_mib
      → array_mib ≤ stream_max_mib
      → let count = array_mib * mib_bytes / 8 in
        run_stream_workload ops
          (stream_cmd encrypt num_runs array_mib warmup)
          true
          (λ run. true)
          (fill (λ r. some (stream_run r)) 1 num_runs ++ rest)
        ≡ (
          send_workload_ready workload_stream true count,
          fill (worker_result ops count) 1 num_runs,
          served rest,
        )
  unfolding run_stream_workload
  worker_part num_runs array_mib warmup encrypt rest low high =
      let count = array_mib * mib_bytes / 8 in
      let fits = checked_mib_bytes_fits array_mib (omega (arith, high)) in
      let not_low : ltb array_mib stream_min_mib ≡ false = ground arith in
      let not_high : ltb stream_max_mib array_mib ≡ false = ground arith in
      let whole : (array_mib * mib_bytes % 8 == 0) ≡ true = ground arith in
      let hears : (r : ℕ)
          → stream_respond ops count (λ run. true) r (stream_run r)
            ≡ answer (worker_result ops count r) =
        λ r. ground arith in
      let serves =
        worker_loop-served (stream_respond ops count (λ run. true)) stream_run
          (worker_result ops count) num_runs 1 rest hears in
      rw (run_stream_workload, not_low, not_high, fits, whole, serves) refl

  -- In the workload STREAM, with a size that both programs allow, at most `max_runs` runs and an empty
  -- table: the master comes to its end with one row for each run, in order. It sends every worker the
  -- command and a message for each run, and on these a worker with enough memory reports that it is
  -- ready, gives the results that the master takes, each verified, and is through. Measured times are
  -- taken to be in order.
  pub stream_session :
      (nworkers num_runs array_mib warmup : ℕ) (encrypt : Bool)
      → stream_min_mib ≤ array_mib
      → array_mib ≤ stream_max_mib
      → num_runs ≤ max_runs
      → let count = array_mib * mib_bytes / 8 in
        let cmd = stream_cmd encrypt num_runs array_mib warmup in
        let ready = send_workload_ready workload_stream true count in
        let sending =
          run_stream_master ops nworkers encrypt num_runs array_mib warmup
            (λ w. some ready)
            (λ run w. some (worker_result ops count run))
            [] in
        (sending.1 ≡ complete (rows_of workload_stream nworkers encrypt 1 num_runs))
        × ((w : ℕ)
            → w < nworkers
            → (triggers : List (Option (Out D))) × (to_worker w sending.0
                ≡ some (command cmd) ∷ triggers)
              × ((rest : List (Option (Out D)))
                  → run_stream_workload ops cmd true (λ run. true) (triggers ++ rest)
                    ≡ (ready, fill (worker_result ops count) 1 num_runs, served rest)))
  unfolding run_stream_master send_workload_ready
  stream_session nworkers num_runs array_mib warmup encrypt low high few =
      let count = array_mib * mib_bytes / 8 in
      let cmd = stream_cmd encrypt num_runs array_mib warmup in
      let ready : WorkloadReady = send_workload_ready workload_stream true count in
      let fits = checked_mib_bytes_fits array_mib (omega (arith, high)) in
      let ok : ready_ok workload_stream count (some ready) ≡ true = ground arith in
      let all_ready =
        wait_for_workload_ready_all workload_stream count (λ w. some ready) nworkers 0 (λ w. ok) in
      let accepted = λ (run : ℕ).
        gather_loop-some (stream_check ops (expected count) run)
          (λ w. some (worker_result ops count run)) (λ w s. Unit {0})
          (λ w s p. (tt, stream_result-accepted count run w (omega (arith, high)), tt)) nworkers 0
          tt tt in
      let (ends, sends) =
        started-complete {D = D} workload_stream nworkers encrypt stream_run
          (stream_check ops (expected count)) tt (λ run w. some (worker_result ops count run)) cmd
          (wait_for_workload_ready workload_stream count (λ w. some ready) nworkers 0) num_runs
          all_ready accepted (omega (arith, few)) in
      (
        rw (run_stream_master, fits) ends,
        λ w known. (
          fill (λ r. some (stream_run r)) 1 num_runs,
          rw (run_stream_master, fits) (sends w known),
          λ rest. worker_part num_runs array_mib warmup encrypt rest low high,
        ),
      )
