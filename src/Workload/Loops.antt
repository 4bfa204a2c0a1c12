-- ===== src/Workload/Loops.antt =====
-- The loops over workers and runs, for any checks and answers.
use distributed_enclave.Common.{
  ℕ, zero, suc, ◌+◌, ◌≤◌, ◌<◌, ◌≡◌, refl, sym, ap, ◌∙◌, arith, Bool, true, false, not, leb, ◌==◌,
  length, length-append,
}
use distributed_enclave.Common.{
  List, [], ◌∷◌, ◌++◌, Option, none, some, if◌then◌else◌, fill, inl, inr, Option-cases, Bool-cases,
}
use mathlib.Core.Path.{subst}
use mathlib.Core.List.{append_assoc, append-nil}
pub use distributed_enclave.Workload.Sends.{
  to_worker, to_worker-append, to_worker-fill, to_worker-to_all,
}
use distributed_enclave.Workload.{
  NpbCmd, command, WorkloadReady, ready_ok, wait_for_workload_ready, NpbResult,
  record_generic_result, max_results, Out, MasterEnd, complete, refused, exhausted, Sending,
  after_sends, to_all, gather_loop, master_loop, served, Heard, answer, worker_loop,
}

pub wait_for_workload_ready_all :
    (workload expected_count : ℕ) (reports : ℕ → Option WorkloadReady) (left worker : ℕ)
    → ((w : ℕ) → ready_ok workload expected_count (reports w) ≡ true)
    → wait_for_workload_ready workload expected_count reports left worker ≡ true
unfolding wait_for_workload_ready
wait_for_workload_ready_all workload expected_count reports zero worker ok = refl
wait_for_workload_ready_all workload expected_count reports (suc left) worker ok =
    rw (ok worker)
      (wait_for_workload_ready_all workload expected_count reports left (worker + 1) ok)

module _ {R S : Type 0} (check : S → ℕ → Option R → Option S) (answers : ℕ → Option R) where
  -- An invariant of the variables that every accepted result keeps, and by which it is accepted.
  pub gather_loop-some :
      (P : ℕ → S → Type 0)
      → ((w : ℕ) (s : S) → P w s → (s' : S) × (check s w (answers w) ≡ some s') × P (w + 1) s')
      → (left worker : ℕ) (s : S) → P worker s
      → (s' : S) × (gather_loop check answers left worker s ≡ some s')
  unfolding gather_loop
  gather_loop-some P step zero worker s p = (s, refl)
  gather_loop-some P step (suc left) worker s p =
      let (s₁, passed, p₁) = step worker s p in
      let (s₂, rest) = gather_loop-some P step left (worker + 1) s₁ p₁ in
      (s₂, rw (gather_loop, passed) rest)

  -- Behind a loop that comes to its end, each result has passed a check.
  pub gather_loop-passed :
      (left worker : ℕ) (s s' : S)
      → gather_loop check answers left worker s ≡ some s'
      → (w : ℕ) → worker ≤ w
      → w < worker + left
      → (before : S) × (after : S) × (check before w (answers w) ≡ some after)
  unfolding gather_loop
  gather_loop-passed zero worker s s' e w low high = absurd (omega arith)
  gather_loop-passed (suc left) worker s s' e w low high =
      elim (Option-cases (check s worker (answers worker))) [
        | inl missing ↦ absurd (ground arith)
        | inr (s₁, passed) ↦ elim (Bool-cases (worker == w)) [
          | inl here ↦ (s, s₁, subst (λ v. check s v (answers v) ≡ some s₁) (ground arith) passed)
          | inr apart ↦
              gather_loop-passed left (worker + 1) s₁ s' (ground arith) w (ground arith)
                (omega arith)
        ]
      ]

-- The rows of the runs from `run` on.
abbrev pub rows_of : ℕ → ℕ → Bool → ℕ → ℕ → List NpbResult
rows_of workload nworkers encrypt run left =
    fill (λ r. record { workload = workload; num_workers = nworkers; encrypted = encrypt; run = r })
      run left

module _ {D R S : Type 0} (workload nworkers : ℕ) (encrypt : Bool) (message : ℕ → Out D)
    (check : ℕ → S → ℕ → Option R → Option S) (initial : S) (answers : ℕ → ℕ → Option R) where
  abbrev runs : ℕ → ℕ → List NpbResult → Sending D
  runs left run rows =
      master_loop workload nworkers encrypt message check initial answers left run rows

  abbrev gathered : ℕ → Option S
  gathered run = gather_loop (check run) (answers run) nworkers 0 initial

  -- Every run is accepted, and the table has room: all rows are recorded, and each worker gets the
  -- message of each run.
  pub master_loop-complete :
      ((run : ℕ) → (s : S) × (gathered run ≡ some s))
      → (left run : ℕ) (rows : List NpbResult) → length rows + left ≤ max_results
      → ((runs left run rows).1 ≡ complete (rows ++ rows_of workload nworkers encrypt run left))
        × ((w : ℕ)
            → w < nworkers
            → to_worker w (runs left run rows).0 ≡ fill (λ r. some (message r)) run left)
  unfolding master_loop record_generic_result
  master_loop-complete ok zero run rows room =
      (ap complete (sym (append-nil rows)), λ w known. refl)
  master_loop-complete ok (suc left) run rows room =
      let (s, accepted) = ok run in
      let row : NpbResult = record {
        workload = workload;
        num_workers = nworkers;
        encrypted = encrypt;
        run = run;
      } in
      let fits : leb max_results (length rows) ≡ false = ground arith in
      let (ends, sends) =
        master_loop-complete ok left (run + 1) (rows ++ row ∷ [])
          (omega (arith, length-append rows (row ∷ []))) in
      (
        rw (master_loop, accepted, fits, ends)
            (ap complete
              (append_assoc rows (row ∷ []) (rows_of workload nworkers encrypt (run + 1) left))),
        λ w known.
            rw
              (
                master_loop,
                accepted,
                fits,
                to_worker-append w (to_all nworkers (message run))
                    (runs left (run + 1) (rows ++ row ∷ [])).0,
                to_worker-to_all w nworkers (message run) known,
                sends w known,
              )
              refl,
      )

  -- The same behind the commands and the reports.
  pub started-complete :
      (cmd : NpbCmd) (all_ready : Bool) (num_runs : ℕ)
      → all_ready ≡ true
      → ((run : ℕ) → (s : S) × (gathered run ≡ some s))
      → num_runs ≤ max_results
      → let sending : Sending D =
          after_sends
            (to_all nworkers (command cmd))
            (if not all_ready then ([], refused) else runs num_runs 1 []) in
        (sending.1 ≡ complete (rows_of workload nworkers encrypt 1 num_runs))
        × ((w : ℕ)
            → w < nworkers
            → to_worker w sending.0 ≡ some (command cmd) ∷ fill (λ r. some (message r)) 1 num_runs)
  started-complete cmd all_ready num_runs ready ok room =
      let (ends, sends) = master_loop-complete ok num_runs 1 [] (omega (arith, room)) in
      rw ready (
        ends,
        λ w known.
            rw
              (
                to_worker-append w (to_all nworkers (command cmd)) (runs num_runs 1 []).0,
                to_worker-to_all {M = Out D} w nworkers (command cmd) known,
                sends w known,
              )
              refl,
      )

  -- Behind the commands and the reports, a part that is complete has its rows and its checks.
  pub started-accepted :
      (cmd : NpbCmd) (all_ready : Bool) (num_runs : ℕ) (rows rows' : List NpbResult)
      → (after_sends
          (to_all nworkers (command cmd))
          (if not all_ready then ([], refused) else runs num_runs 1 rows)).1
        ≡ complete rows'
      → (all_ready ≡ true) × ((runs num_runs 1 rows).1 ≡ complete rows')
  started-accepted cmd true num_runs rows rows' e = (refl, e)
  started-accepted cmd false num_runs rows rows' e = absurd (ground arith)

  abbrev row_at : ℕ → NpbResult
  row_at run = record {
    workload = workload;
    num_workers = nworkers;
    encrypted = encrypt;
    run = run;
  }

  -- The end of a loop, step by step.
  abbrev end_of : Option S → Option (List NpbResult) → ℕ → ℕ → MasterEnd
  end_of none recorded left run = refused
  end_of (some s) none left run = exhausted
  end_of (some s) (some rows) left run = (runs left (run + 1) rows).1

  master_loop-end_of :
      (left run : ℕ) (rows : List NpbResult)
      → (runs (suc left) run rows).1
        ≡ end_of (gathered run) (record_generic_result workload nworkers encrypt run rows) left run
  unfolding master_loop
  master_loop-end_of left run rows = elim (Option-cases (gathered run)) [
    | inl missing ↦ rw (master_loop, missing) refl
    | inr (s, accepted) ↦
        elim (Option-cases (record_generic_result workload nworkers encrypt run rows)) [
          | inl full ↦ rw (master_loop, accepted, full) refl
          | inr (rows', recorded) ↦ rw (master_loop, accepted, recorded) refl
        ]
  ]

  recorded_row :
      (run : ℕ) (rows rows' : List NpbResult)
      → record_generic_result workload nworkers encrypt run rows ≡ some rows'
      → rows' ≡ rows ++ row_at run ∷ []
  unfolding record_generic_result
  recorded_row run rows rows' e = ground arith

  end_of-cases :
      (g : Option S) (recorded : Option (List NpbResult)) (left run : ℕ) (rows' : List NpbResult)
      → end_of g recorded left run ≡ complete rows'
      → (s : S) × (rows₁ : List NpbResult) × (g ≡ some s)
        × (recorded ≡ some rows₁)
        × ((runs left (run + 1) rows₁).1 ≡ complete rows')
  end_of-cases none recorded left run rows' e = absurd (ground arith)
  end_of-cases (some s) none left run rows' e = absurd (ground arith)
  end_of-cases (some s) (some rows₁) left run rows' e = (s, rows₁, refl, refl, e)

  -- Behind a loop that is complete, the table has a row for each run, in order, and the results of
  -- every run have passed the checks.
  pub master_loop-accepted :
      (left run : ℕ) (rows rows' : List NpbResult)
      → (runs left run rows).1 ≡ complete rows'
      → (rows' ≡ rows ++ rows_of workload nworkers encrypt run left)
        × ((r : ℕ) → run ≤ r → r < run + left → (s : S) × (gathered r ≡ some s))
  unfolding master_loop
  master_loop-accepted zero run rows rows' e =
      (ground (arith, append-nil rows), λ r low high. absurd (omega arith))
  master_loop-accepted (suc left) run rows rows' e =
      let (s, rows₁, accepted, recorded, e') =
        end_of-cases (gathered run) (record_generic_result workload nworkers encrypt run rows) left
          run rows' (sym (master_loop-end_of left run rows) ∙ e) in
      let (table, others) = master_loop-accepted left (run + 1) rows₁ rows' e' in
      (
        table
            ∙ ap (λ t. t ++ rows_of workload nworkers encrypt (run + 1) left)
                (recorded_row run rows rows₁ recorded)
            ∙ append_assoc rows (row_at run ∷ [])
                (rows_of workload nworkers encrypt (run + 1) left),
        λ r low high. elim (Bool-cases (r == run)) [
          | inl here ↦ (s, subst (λ k. gathered k ≡ some s) (ground arith) accepted)
          | inr apart ↦ others r (ground arith) (omega (arith, high))
        ],
      )

-- A worker that gets the message of each run answers each run, and leaves what follows.
pub worker_loop-served :
    {D R : Type 0} (respond : ℕ → Out D → Heard R) (message : ℕ → Out D) (result : ℕ → R)
    (left run : ℕ) (rest : List (Option (Out D)))
    → ((r : ℕ) → respond r (message r) ≡ answer (result r))
    → worker_loop respond left run (fill (λ r. some (message r)) run left ++ rest)
      ≡ (fill result run left, served rest)
unfolding worker_loop
worker_loop-served respond message result zero run rest ok = refl
worker_loop-served respond message result (suc left) run rest ok =
    rw (worker_loop, ok run, worker_loop-served respond message result left (run + 1) rest ok) refl
