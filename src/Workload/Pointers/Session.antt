-- ===== src/Workload/Pointers/Session.antt =====
-- The master and the workers in the workload RANDOM.
use distributed_enclave.Common.{
  ℕ, zero, suc, ◌+◌, ◌*◌, ◌/◌, ◌≤◌, ◌<◌, ◌≡◌, refl, sym, ap, ◌∙◌, arith, Bool, true, ◌==◌, ◌⊎◌, inl,
}
use distributed_enclave.Common.{List, [], ◌∷◌, ◌++◌, map, Option, none, some, if◌then◌else◌, fill}
use mathlib.Core.Path.{fun_ext}
use distributed_enclave.Random.{
  mib_bytes, random_min_mib, random_max_mib, Prepared, run_random_workload, random_run,
}
use distributed_enclave.Random.Chase.{run_random_workload-random_run}
use distributed_enclave.Workload.{
  workload_random, WorkloadReady, send_workload_ready, ready_ok, wait_for_workload_ready, max_runs,
  Out, command, random_run_trigger, Sending, complete, served, answer,
}
use distributed_enclave.Workload.Loops.{
  to_worker, wait_for_workload_ready_all, gather_loop-some, rows_of, started-complete,
  worker_loop-served,
}
use distributed_enclave.Workload.Stream.Session.{checked_mib_bytes_fits}
use distributed_enclave.Workload.Pointers.{
  RandomResult, random_cmd, random_result, random_respond, serve_random_workload, random_check,
  run_random_master,
}

-- What a worker sends in a run, if its preparation succeeds.
abbrev pub answer_of : Option Prepared → ℕ → ℕ → Option RandomResult
answer_of none accesses run = none
answer_of (some p) accesses run = some (random_result p accesses run true)

abbrev pub random_answer : ℕ → ℕ → ℕ → ℕ → Option RandomResult
random_answer mib warmup_accesses accesses run =
    answer_of (run_random_workload mib warmup_accesses accesses true) accesses run

-- Behind the first worker the expected token is its token.
abbrev Expects : ℕ → ℕ → ℕ → Type 0
Expects token worker expected_token = (worker ≡ 0) ⊎ (expected_token ≡ token)

random_result-accepted :
    (p : Prepared) (accesses run w s : ℕ)
    → (random_run p accesses).1 ≡ true
    → Expects (random_run p accesses).0 w s
    → (s' : ℕ) × (random_check run s w (some (random_result p accesses run true)) ≡ some s')
      × Expects (random_run p accesses).0 (w + 1) s'
unfolding random_check random_result
random_result-accepted p accesses run w s verified expects =
    (if w == 0 then (random_run p accesses).0 else s, ground arith, ground arith)

worker_part :
    {D : Type 0} (p : Prepared) (num_runs mib accesses warmup_accesses : ℕ) (encrypt : Bool)
    (rest : List (Option (Out D)))
    → run_random_workload mib warmup_accesses accesses true ≡ some p
    → serve_random_workload {D = D}
        (random_cmd encrypt num_runs mib accesses warmup_accesses)
        true
        (λ run. true)
        (fill (λ r. some (random_run_trigger r)) 1 num_runs ++ rest)
      ≡ (
        send_workload_ready workload_random true p.element_count,
        fill (λ run. random_result p accesses run true) 1 num_runs,
        served rest,
      )
unfolding serve_random_workload
worker_part {D} p num_runs mib accesses warmup_accesses encrypt rest prepared =
    let hears : (r : ℕ)
        → random_respond {D = D} p accesses (λ run. true) r (random_run_trigger r)
          ≡ answer (random_result p accesses r true) =
      λ r. ground arith in
    let serves =
      worker_loop-served {D = D} (random_respond p accesses (λ run. true)) random_run_trigger
        (λ run. random_result p accesses run true) num_runs 1 rest hears in
    rw (serve_random_workload, prepared, serves) refl

map-fill :
    {A B : Type 0} (f : A → B) (g : ℕ → A) (i n : ℕ) → map f (fill g i n) ≡ fill (λ k. f (g k)) i n
map-fill f g i zero = refl
map-fill f g i (suc n) = ap (◌∷◌ (f (g i))) (map-fill f g (i + 1) n)

-- In the workload RANDOM, with a size and a number of accesses that both programs allow, at most
-- `max_runs` runs and an empty table: on the results of the worker's own code the master comes to
-- its end with one row for each run, in order. It sends every worker the command and a message for
-- each run, and on these a worker with enough memory reports that it is ready, gives these results,
-- one for each run, and is through. Measured times are taken to be in order.
pub random_session :
    {D : Type 0} (nworkers num_runs mib accesses warmup_accesses : ℕ) (encrypt : Bool)
    → random_min_mib ≤ mib
    → mib ≤ random_max_mib
    → 0 < accesses
    → num_runs ≤ max_runs
    → let cmd = random_cmd encrypt num_runs mib accesses warmup_accesses in
      let ready = send_workload_ready workload_random true (mib * mib_bytes / 4) in
      let sending : Sending D =
        run_random_master nworkers encrypt num_runs mib accesses warmup_accesses
          (λ w. some ready)
          (λ run w. random_answer mib warmup_accesses accesses run)
          [] in
      (sending.1 ≡ complete (rows_of workload_random nworkers encrypt 1 num_runs))
      × ((w : ℕ)
          → w < nworkers
          → (triggers : List (Option (Out D))) × (results : List RandomResult) × (to_worker w
                sending.0
              ≡ some (command cmd) ∷ triggers)
            × (map some results ≡ fill (random_answer mib warmup_accesses accesses) 1 num_runs)
            × ((rest : List (Option (Out D)))
                → serve_random_workload cmd true (λ run. true) (triggers ++ rest)
                  ≡ (ready, results, served rest)))
unfolding run_random_master send_workload_ready
random_session {D} nworkers num_runs mib accesses warmup_accesses encrypt low high some_access few =
    let (p, prepared, count, verified) =
      run_random_workload-random_run mib warmup_accesses accesses low high some_access in
    let cmd = random_cmd encrypt num_runs mib accesses warmup_accesses in
    let ready : WorkloadReady = send_workload_ready workload_random true (mib * mib_bytes / 4) in
    let result = λ (run : ℕ). random_result p accesses run true in
    let fits = checked_mib_bytes_fits mib (omega (arith, high)) in
    let ok : ready_ok workload_random (mib * mib_bytes / 4) (some ready) ≡ true = ground arith in
    let all_ready =
      wait_for_workload_ready_all workload_random (mib * mib_bytes / 4) (λ w. some ready) nworkers 0
        (λ w. ok) in
    let accepted = λ (run : ℕ).
      gather_loop-some (random_check run) (λ w. some (result run))
        (Expects (random_run p accesses).0)
        (λ w s expects. random_result-accepted p accesses run w s verified expects) nworkers 0 0
        (inl refl) in
    let (ends, sends) =
      started-complete {D = D} workload_random nworkers encrypt random_run_trigger random_check 0
        (λ run w. some (result run)) cmd
        (wait_for_workload_ready workload_random (mib * mib_bytes / 4) (λ w. some ready) nworkers 0)
        num_runs all_ready accepted (omega (arith, few)) in
    let is : (run : ℕ) → random_answer mib warmup_accesses accesses run ≡ some (result run) =
      λ run. ap (λ o. answer_of o accesses run) prepared in
    let same : ◌≡◌ {A = ℕ → ℕ → Option RandomResult}
        (λ run w. random_answer mib warmup_accesses accesses run) (λ run w. some (result run)) =
      fun_ext (λ run. fun_ext (λ w. is run)) in
    (
      rw (run_random_master, fits, same) ends,
      λ w known. (
        fill (λ r. some (random_run_trigger r)) 1 num_runs,
        fill result 1 num_runs,
        rw (run_random_master, fits, same) (sends w known),
        map-fill some result 1 num_runs ∙ ap (λ f. fill f 1 num_runs) (sym (fun_ext is)),
        λ rest.
            rw (← count)
              (worker_part p num_runs mib accesses warmup_accesses encrypt rest prepared),
      ),
    )
