-- ===== src/Ep/Results.antt =====
-- The master's sums over all workers.
use distributed_enclave.Common.{
  ℕ, zero, suc, ◌+◌, ◌*◌, ◌≤◌, ◌≡◌, ◌≢◌, refl, sym, ◌∙◌, arith, Bool, true, not, ◌||◌, ◌==◌, length,
  map, All,
}
use distributed_enclave.Common.{List, [], ◌∷◌, if◌then◌else◌, replicate, inl, inr, Bool-cases}
use mathlib.Core.Path.{subst}
use distributed_enclave.Common.Int.{ℤ, pos}
use distributed_enclave.Ep.{
  ep_bins, int64_max, initial_state, ep_compute, Gathered, totals, invalid, overflow, total_of,
  Added, added, bad_count, over, add_counts, gather_results,
}
use distributed_enclave.Ep.Counts.{
  ep_loop-total_of, AddedFits, add_counts-AddedFits, add_counts-map,
}

abbrev pub GatheredFits : ℕ → ℕ → List ℕ → Gathered → Type 0
GatheredFits ep_n nresults sums (totals sums') = total_of sums' ≡ total_of sums + ep_n * nresults
GatheredFits ep_n nresults sums invalid = Unit
GatheredFits ep_n nresults sums overflow = ⊥

-- The rest of the loop behind the counts of one result.
abbrev after_counts : ℕ → Bool → List (List ℤ × Bool) → Added → Gathered
after_counts ep_n finite results bad_count = invalid
after_counts ep_n finite results over = overflow
after_counts ep_n finite results (added worker_pairs sums') =
    if not (worker_pairs == ep_n) || not finite then invalid else gather_results ep_n results sums'

gather_results-step :
    (ep_n : ℕ) (counts : List ℤ) (finite : Bool) (results : List (List ℤ × Bool)) (sums : List ℕ)
    → gather_results ep_n ((counts, finite) ∷ results) sums
      ≡ after_counts ep_n finite results (add_counts ep_n 0 counts sums)
unfolding gather_results
gather_results-step ep_n counts finite results sums = ground arith

GatheredFits-more :
    (ep_n nresults : ℕ) (sums sums' : List ℕ) (result : Gathered)
    → total_of sums' ≡ total_of sums + ep_n
    → GatheredFits ep_n nresults sums' result
    → GatheredFits ep_n (suc nresults) sums result
GatheredFits-more ep_n nresults sums sums' (totals sums'') more fits = omega (arith, more, fits)
GatheredFits-more ep_n nresults sums sums' invalid more fits = tt
GatheredFits-more ep_n nresults sums sums' overflow more fits = fits

after_counts-GatheredFits :
    (ep_n bound : ℕ) (finite : Bool) (results : List (List ℤ × Bool)) (sums : List ℕ)
    (counted : Added)
    → AddedFits ep_n 0 bound sums counted
    → ((sums' : List ℕ)
        → All (λ sum. sum ≤ bound + ep_n) sums'
        → GatheredFits ep_n (length results) sums' (gather_results ep_n results sums'))
    → GatheredFits ep_n (suc (length results)) sums (after_counts ep_n finite results counted)
after_counts-GatheredFits ep_n bound finite results sums bad_count fits rest = tt
after_counts-GatheredFits ep_n bound finite results sums over fits rest = fits
after_counts-GatheredFits ep_n bound finite results sums (added pairs sums') (grows, total, all)
      rest =
    elim (Bool-cases (not (pairs == ep_n) || not finite)) [
      | inl bad ↦ rw bad tt
      | inr good ↦
          (let counted : pairs ≡ ep_n = ground arith in
            let step = rest sums' all in
            rw good (GatheredFits-more ep_n (length results) sums sums' _ (omega arith) step))
    ]

gather_results-GatheredFits :
    (ep_n bound : ℕ) (results : List (List ℤ × Bool)) (sums : List ℕ)
    → All (λ sum. sum ≤ bound) sums
    → bound + ep_n * length results ≤ int64_max
    → GatheredFits ep_n (length results) sums (gather_results ep_n results sums)
unfolding gather_results
gather_results-GatheredFits ep_n bound [] sums all room = omega arith
gather_results-GatheredFits ep_n bound ((counts, finite) ∷ results) sums all room =
    let room' : bound + ep_n + ep_n * length results ≤ int64_max = omega arith in
    after_counts-GatheredFits ep_n bound finite results sums (add_counts ep_n 0 counts sums)
      (add_counts-AddedFits ep_n 0 bound counts sums all (omega arith))
      (λ sums' all'. gather_results-GatheredFits ep_n (bound + ep_n) results sums' all' room')

zeros : (n : ℕ) → (total_of (replicate n 0) ≡ 0) × All (λ sum. sum ≤ 0) (replicate n 0)
zeros zero = (refl, tt)
zeros (suc n) = (omega (arith, zeros n), (omega arith, (zeros n).1))

-- Whatever the workers send: when `ep_n` times the number of results fits into an `int64_t`, as the
-- program checks at its start, no total leaves that range, and totals that are accepted are those
-- of exactly `ep_n` pairs per worker.
pub gather_results-total_of :
    (ep_n : ℕ) (results : List (List ℤ × Bool))
    → ep_n * length results ≤ int64_max
    → (gather_results ep_n results (replicate ep_bins 0) ≢ overflow)
      × ((sums : List ℕ)
          → gather_results ep_n results (replicate ep_bins 0) ≡ totals sums
          → total_of sums ≡ ep_n * length results)
gather_results-total_of ep_n results room =
    let (none_yet, all) = zeros ep_bins in
    let fits = gather_results-GatheredFits ep_n 0 results (replicate ep_bins 0) all (omega arith) in
    (
      λ e. subst (GatheredFits ep_n (length results) (replicate ep_bins 0)) e fits,
      λ sums e. omega (
        arith,
        subst (GatheredFits ep_n (length results) (replicate ep_bins 0)) e fits,
        none_yet,
      ),
    )

abbrev pub honest : (ℕ → ℕ → ℕ) → ℕ → ℤ → List ℤ × Bool
honest bin ep_n seed = (map pos (ep_compute bin ep_n seed), true)

honest_from :
    (bin : ℕ → ℕ → ℕ) (ep_n bound : ℕ) (seeds : List ℤ) (sums : List ℕ)
    → length sums ≡ ep_bins
    → All (λ sum. sum ≤ bound) sums
    → bound + ep_n * length seeds ≤ int64_max
    → (sums' : List ℕ) × (gather_results ep_n (map (honest bin ep_n) seeds) sums ≡ totals sums')
unfolding gather_results ep_compute
honest_from bin ep_n bound [] sums n all room = (sums, refl)
honest_from bin ep_n bound (seed ∷ seeds) sums n all room =
    let counts = ep_compute bin ep_n seed in
    let (total, size) = ep_loop-total_of bin ep_n (initial_state seed) (replicate ep_bins 0) refl in
    let counted : total_of counts ≡ ep_n = total ∙ omega arith in
    let (sums', e, len) =
      add_counts-map ep_n 0 bound counts sums (size ∙ sym n) (omega arith) all (omega arith) in
    let (_, _, all') =
      subst (AddedFits ep_n 0 bound sums) e
        (add_counts-AddedFits ep_n 0 bound (map pos counts) sums all (omega arith)) in
    let (sums'', rest) =
      honest_from bin ep_n (bound + ep_n) seeds sums' (len ∙ n) all' (omega arith) in
    let exact : (0 + total_of counts == ep_n) ≡ true = ground arith in
    (
      sums'',
      gather_results-step ep_n (map pos counts) true (map (honest bin ep_n) seeds) sums
          ∙ rw (e, exact) rest,
    )

-- The results of workers that run the kernel on `ep_n` pairs each, with finite sums, are accepted.
pub gather_results-ep_compute :
    (bin : ℕ → ℕ → ℕ) (ep_n : ℕ) (seeds : List ℤ)
    → ep_n * length seeds ≤ int64_max
    → (sums : List ℕ) × (gather_results ep_n (map (honest bin ep_n) seeds) (replicate ep_bins 0)
        ≡ totals sums)
gather_results-ep_compute bin ep_n seeds room =
    honest_from bin ep_n 0 seeds (replicate ep_bins 0) refl (zeros ep_bins).1 (omega arith)
