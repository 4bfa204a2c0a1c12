-- ===== src/Ep/Tests.antt =====
-- Runs of the EP checks.
use distributed_enclave.Common.{
  ℕ, ◌%◌, ◌*◌, ◌≡◌, ◌≢◌, refl, arith, true, List, [], ◌∷◌, Bool, length, replicate, fill, ◌<◌, ◌++◌,
  Option, some,
}
use distributed_enclave.Common.Int.{ℤ, pos, negsuc}
use distributed_enclave.Ep.{
  ep_bins, totals, invalid, overflow, total_of, npb_rand, initial_state, add_counts, gather_results,
  ep_compute,
}
use distributed_enclave.Ep.Rounds.{ep_cmd, seed_of, run_ep_master, ep_worker_loop}
use distributed_enclave.Ep.Rounds.Seeds.{seed_of_distinct}
use distributed_enclave.Ep.Rounds.Session.{ep_answers, ep_session}
use distributed_enclave.Workload.{workload_ep, Out, command, complete, Sending, served}
use distributed_enclave.Workload.Loops.{to_worker, rows_of}
use distributed_enclave.Ep.Results.{gather_results-total_of}

npb_rand_run : npb_rand (npb_rand (initial_state (pos 5))) ≡ 8332136941469
unfolding npb_rand initial_state
npb_rand_run = refl

abbrev results : List (List ℤ × Bool)
results =
    (pos 3 ∷ pos 1 ∷ replicate 8 (pos 0), true) ∷ (pos 0 ∷ pos 4 ∷ replicate 8 (pos 0), true) ∷ []

negative_count :
    gather_results 4 ((negsuc 0 ∷ pos 5 ∷ replicate 8 (pos 0), true) ∷ []) (replicate 10 0)
    ≡ invalid
unfolding gather_results add_counts
negative_count = refl

gather_results-total_of_example :
    (gather_results 4 results (replicate ep_bins 0) ≢ overflow)
    × ((sums : List ℕ)
        → gather_results 4 results (replicate ep_bins 0) ≡ totals sums
        → total_of sums ≡ 4 * length results)
gather_results-total_of_example = gather_results-total_of 4 results (omega arith)

abbrev first_bin : ℕ → ℕ → ℕ
first_bin a b = a % 12

abbrev sending : Sending ℕ
sending = run_ep_master 2 true 3 4 (ep_answers first_bin 4 2) []

ep_session_example :
    (sending.1 ≡ complete (rows_of workload_ep 2 true 1 3))
    × ((w : ℕ)
        → w < 2
        → (seeds : List (Option (Out ℕ))) × (to_worker w sending.0
            ≡ some (command (ep_cmd true 3 4)) ∷ seeds)
          × ((rest : List (Option (Out ℕ)))
              → ep_worker_loop first_bin 4 3 (seeds ++ rest)
                ≡ (fill (λ run. ep_compute first_bin 4 (pos (seed_of 2 run w))) 1 3, served rest)))
ep_session_example = ep_session {D = ℕ} first_bin 4 2 true (omega arith) 3 (omega arith)

seed_of_distinct_example : ◌≡◌ {A = ℕ} 2 2 × ◌≡◌ {A = ℕ} 1 1
seed_of_distinct_example =
    seed_of_distinct 3 2 2 1 1 (omega arith) (omega arith) (omega arith) (omega arith) (omega arith)
      (omega arith) (omega arith) refl
