-- ===== src/Ep/Counts.antt =====
-- A worker's counts add up to its pairs, and the master's sums stay in range.
use distributed_enclave.Common.{
  ℕ, zero, suc, ◌+◌, ◌-◌, ◌≤◌, ◌<◌, ◌≡◌, refl, ap, ◌∙◌, arith, true, false, ltb, leb, length, map,
  All, ◌⊎◌, inl, inr,
}
use distributed_enclave.Common.{List, [], ◌∷◌, if◌then◌else◌, get_or, set, length-set}
use distributed_enclave.Common.Int.{ℤ, pos, negsuc}
use distributed_enclave.Ep.{
  ep_bins, int64_max, npb_rand, ep_loop, total_of, Added, added, bad_count, over, push_total,
  add_counts,
}

split : (m n : ℕ) → (m ≤ n) ⊎ (n < m)
split m n = omega arith

total_of-set :
    (counts : List ℕ) (b : ℕ)
    → b < length counts
    → total_of (set counts b (get_or counts b 0 + 1)) ≡ total_of counts + 1
total_of-set [] b h = absurd (omega arith)
total_of-set (n ∷ counts) zero h = omega arith
total_of-set (n ∷ counts) (suc b) h = omega (arith, total_of-set counts b (omega arith))

pub ep_loop-total_of :
    (bin : ℕ → ℕ → ℕ) (pairs state : ℕ) (counts : List ℕ)
    → length counts ≡ ep_bins
    → (total_of (ep_loop bin pairs state counts) ≡ total_of counts + pairs)
      × (length (ep_loop bin pairs state counts) ≡ ep_bins)
unfolding ep_loop
ep_loop-total_of bin zero state counts n = (omega arith, n)
ep_loop-total_of bin (suc pairs) state counts n =
    let s₁ = npb_rand state in
    let s₂ = npb_rand s₁ in
    let b = if leb ep_bins (bin s₁ s₂) then ep_bins - 1 else bin s₁ s₂ in
    let inside : b < length counts = ground arith in
    let counts' = set counts b (get_or counts b 0 + 1) in
    let (total, size) =
      ep_loop-total_of bin pairs s₂ counts' (length-set counts b (get_or counts b 0 + 1) ∙ n) in
    (omega (arith, total, total_of-set counts b inside), size)

All-weaken : (b b' : ℕ) (ns : List ℕ) → b ≤ b' → All (λ n. n ≤ b) ns → All (λ n. n ≤ b') ns
All-weaken b b' [] h all = tt
All-weaken b b' (n ∷ ns) h (first, rest) = (omega arith, All-weaken b b' ns h rest)

-- What holds after one result: no sum left its range, and the totals grew by the pairs counted.
abbrev pub AddedFits : ℕ → ℕ → ℕ → List ℕ → Added → Type 0
AddedFits ep_n pairs bound sums (added pairs' sums') =
    (pairs ≤ pairs')
    × (total_of sums' + pairs ≡ total_of sums + pairs')
    × All (λ sum. sum ≤ bound + ep_n) sums'
AddedFits ep_n pairs bound sums bad_count = Unit
AddedFits ep_n pairs bound sums over = ⊥

push_total-AddedFits :
    (ep_n pairs bound n sum : ℕ) (sums : List ℕ) (rest : Added)
    → sum ≤ bound
    → n ≤ ep_n
    → AddedFits ep_n (pairs + n) bound sums rest
    → AddedFits ep_n pairs bound (sum ∷ sums) (push_total (sum + n) rest)
push_total-AddedFits ep_n pairs bound n sum sums (added pairs' sums') h k (grows, total, all) =
    (omega arith, omega arith, (omega arith, all))
push_total-AddedFits ep_n pairs bound n sum sums bad_count h k fits = tt
push_total-AddedFits ep_n pairs bound n sum sums over h k fits = fits

pub add_counts-AddedFits :
    (ep_n pairs bound : ℕ) (counts : List ℤ) (sums : List ℕ)
    → All (λ sum. sum ≤ bound) sums
    → bound + ep_n ≤ int64_max
    → AddedFits ep_n pairs bound sums (add_counts ep_n pairs counts sums)
unfolding add_counts
add_counts-AddedFits ep_n pairs bound [] sums all room =
    (omega arith, omega arith, All-weaken bound (bound + ep_n) sums (omega arith) all)
add_counts-AddedFits ep_n pairs bound (c ∷ counts) [] all room = (omega arith, omega arith, tt)
add_counts-AddedFits ep_n pairs bound (negsuc c ∷ counts) (sum ∷ sums) all room = tt
add_counts-AddedFits ep_n pairs bound (pos n ∷ counts) (sum ∷ sums) all room =
    elim (split n (ep_n - pairs)) [
      | inl small ↦
          (let in_range : ltb int64_max (sum + n) ≡ false = ground arith in
            let not_more : ltb (ep_n - pairs) n ≡ false = ground arith in
            rw (not_more, in_range)
              (push_total-AddedFits ep_n pairs bound n sum sums
                (add_counts ep_n (pairs + n) counts sums) all.0 (omega arith)
                (add_counts-AddedFits ep_n (pairs + n) bound counts sums all.1 room)))
      | inr large ↦ (let more : ltb (ep_n - pairs) n ≡ true = ground arith in rw more tt)
    ]

-- The counts of an honest worker are not turned down.
pub add_counts-map :
    (ep_n pairs bound : ℕ) (counts sums : List ℕ)
    → length counts ≡ length sums
    → pairs + total_of counts ≤ ep_n
    → All (λ sum. sum ≤ bound) sums
    → bound + ep_n ≤ int64_max
    → (sums' : List ℕ) × (add_counts ep_n pairs (map pos counts) sums
        ≡ added (pairs + total_of counts) sums')
      × (length sums' ≡ length sums)
unfolding add_counts
add_counts-map ep_n pairs bound [] [] n fits all room = ([], ground arith, refl)
add_counts-map ep_n pairs bound (c ∷ counts) (sum ∷ sums) n fits all room =
    let (sums', e, len) =
      add_counts-map ep_n (pairs + c) bound counts sums (omega arith) (omega arith) all.1 room in
    let same : pairs + c + total_of counts ≡ pairs + (c + total_of counts) = omega arith in
    let in_range : ltb int64_max (sum + c) ≡ false = ground arith in
    let not_more : ltb (ep_n - pairs) c ≡ false = ground arith in
    ((sum + c) ∷ sums', rw (not_more, in_range, e, same) refl, ap suc len)
add_counts-map ep_n pairs bound [] (sum ∷ sums) n fits all room = absurd (omega arith)
add_counts-map ep_n pairs bound (c ∷ counts) [] n fits all room = absurd (omega arith)
