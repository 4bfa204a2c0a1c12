-- ===== src/Ep.antt =====
-- The EP workload: the worker's counting of pairs in bins (src/worker_npb.c) and the master's checks and
-- sums of the counts (src/master_npb.c). Deviates are computed with doubles: what the kernel makes
-- of two states of its generator is an argument.
pub mod Counts
pub mod Results
pub mod Rounds
mod Tests
use distributed_enclave.Common.{
  ℕ, zero, suc, ◌+◌, ◌-◌, ◌*◌, ◌/◌, ◌%◌, ◌^◌, Bool, true, false, not, ◌||◌, ltb, leb, ◌==◌, length,
}
use distributed_enclave.Common.{
  List, [], ◌∷◌, ◌++◌, map, Option, none, some, if◌then◌else◌, get_or, set, replicate, bit_and,
}
use distributed_enclave.Common.Int.{ℤ, pos, negsuc}

abbrev pub ep_bins : ℕ
ep_bins = 10

abbrev pub int64_max : ℕ
int64_max = 2 ^ 63 - 1

abbrev pub npb_a : ℕ
npb_a = 1220703125

abbrev pub npb_modulus : ℕ
npb_modulus = 2 ^ 46

-- The next state of the generator.
unfoldable pub npb_rand : ℕ → ℕ
npb_rand state = bit_and (npb_a * state % 2 ^ 64) (npb_modulus - 1)

-- `seed_val > 0 ? seed_val & NPB_MASK : 0`, and the default for 0.
unfoldable pub initial_state : ℤ → ℕ
initial_state (negsuc n) = 271828183
initial_state (pos seed) =
    let state = bit_and seed (npb_modulus - 1) in if state == 0 then 271828183 else state

-- The loop over the pairs: `bin` is `(int)lmax` for two states.
unfoldable pub ep_loop : (ℕ → ℕ → ℕ) → ℕ → ℕ → List ℕ → List ℕ
ep_loop bin zero state counts = counts
ep_loop bin (suc pairs) state counts =
    let s₁ = npb_rand state in
    let s₂ = npb_rand s₁ in
    let b = if leb ep_bins (bin s₁ s₂) then ep_bins - 1 else bin s₁ s₂ in
    ep_loop bin pairs s₂ (set counts b (get_or counts b 0 + 1))

unfoldable pub ep_compute : (ℕ → ℕ → ℕ) → ℕ → ℤ → List ℕ
ep_compute bin num_pairs seed_val =
    ep_loop bin num_pairs (initial_state seed_val) (replicate ep_bins 0)

-- What the master makes of the results: the totals by bin, an abort, or a sum that leaves the range
-- of `int64_t`, which C does not define.
pub data Gathered : Type 0 where
  totals : List ℕ → Gathered
  invalid : Gathered
  overflow : Gathered

abbrev pub total_of : List ℕ → ℕ
total_of [] = 0
total_of (n ∷ ns) = n + total_of ns

-- The loop over the bins of one result: the pairs counted and the new totals.
pub data Added : Type 0 where
  added : ℕ → List ℕ → Added
  bad_count : Added
  over : Added

abbrev pub push_total : ℕ → Added → Added
push_total n (added pairs sums) = added pairs (n ∷ sums)
push_total n bad_count = bad_count
push_total n over = over

unfoldable pub add_counts : ℕ → ℕ → List ℤ → List ℕ → Added
add_counts ep_n worker_pairs [] sums = added worker_pairs sums
add_counts ep_n worker_pairs (c ∷ counts) [] = added worker_pairs []
add_counts ep_n worker_pairs (negsuc n ∷ counts) (sum ∷ sums) = bad_count
add_counts ep_n worker_pairs (pos n ∷ counts) (sum ∷ sums) =
    let rest = add_counts ep_n (worker_pairs + n) counts sums in
    if ltb (ep_n - worker_pairs) n
    then bad_count
    else if ltb int64_max (sum + n)
    then over
    else push_total (sum + n) rest

-- One worker's result: its counts, and whether both sums of deviates are finite.
unfoldable pub gather_results : ℕ → List (List ℤ × Bool) → List ℕ → Gathered
gather_results ep_n [] sums = totals sums
gather_results ep_n ((counts, finite) ∷ results) sums = elim (add_counts ep_n 0 counts sums) [
  | bad_count ↦ invalid
  | over ↦ overflow
  | added worker_pairs sums' ↦
      (let rest = gather_results ep_n results sums' in
        if not (worker_pairs == ep_n) || not finite then invalid else rest)
]
