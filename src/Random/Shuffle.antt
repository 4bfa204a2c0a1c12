-- ===== src/Random/Shuffle.antt =====
-- The shuffled order is a permutation, and it has a position with entry 0.
use distributed_enclave.Common.{
  ℕ, zero, suc, ◌+◌, ◌-◌, ◌%◌, ◌<◌, ◌≡◌, ◌≢◌, refl, sym, ap, ◌∙◌, arith, true, ◌==◌, length,
}
use distributed_enclave.Common.{
  List, [], ◌∷◌, if◌then◌else◌, set, fill, get_or-fill, length-fill, length-set, ◌⊎◌, inl, inr,
}
use distributed_enclave.Taskq.{xorshift64_step}
use distributed_enclave.Random.{at, swap, shuffle_loop, shuffled}
use native.Mathlib.Nat.{mod-lt}

pub at-set_self : (xs : List ℕ) (i v : ℕ) → i < length xs → at (set xs i v) i ≡ v
at-set_self [] i v h = absurd (omega arith)
at-set_self (x ∷ xs) zero v h = refl
at-set_self (x ∷ xs) (suc i) v h = at-set_self xs i v (omega arith)

pub at-set_ne : (xs : List ℕ) (i j v : ℕ) → i ≢ j → at (set xs i v) j ≡ at xs j
at-set_ne [] i j v ne = refl
at-set_ne (x ∷ xs) zero zero v ne = absurd (ne refl)
at-set_ne (x ∷ xs) zero (suc j) v ne = refl
at-set_ne (x ∷ xs) (suc i) zero v ne = refl
at-set_ne (x ∷ xs) (suc i) (suc j) v ne = at-set_ne xs i j v (λ e. ne (ap suc e))

-- Distinct entries below `n`, of which one is 0.
pub record Order (n : ℕ) (order : List ℕ) : Type 0 where
  pub size : length order ≡ n
  pub bounded : (i : ℕ) → i < n → at order i < n
  pub distinct : (i j : ℕ) → i < n → j < n → at order i ≡ at order j → i ≡ j
  pub zero_at : ℕ
  pub zero_inside : zero_at < n
  pub zero_there : at order zero_at ≡ 0

-- Where the entry at `j` comes from in an exchange of `a` and `b`.
abbrev source : ℕ → ℕ → ℕ → ℕ
source a b j = if j == b then a else if j == a then b else j

eq-cases : (i j : ℕ) → (i ≡ j) ⊎ (i ≢ j)
eq-cases i j = omega arith

at-swap :
    (order : List ℕ) (a b j : ℕ)
    → a < length order
    → b < length order
    → at (swap order a b) j ≡ at order (source a b j)
unfolding swap
at-swap order a b j ha hb = elim (eq-cases j b) [
  | inl same ↦
      (let here : (j == b) ≡ true = ground arith in
        rw (here, same)
          (at-set_self (set order a (at order b)) b (at order a)
            (omega (arith, length-set order a (at order b)))))
  | inr other ↦
      (let behind : at (set (set order a (at order b)) b (at order a)) j
            ≡ at (set order a (at order b)) j =
          at-set_ne (set order a (at order b)) b j (at order a) (λ e. other (sym e)) in
        elim (eq-cases j a) [
          | inl same ↦ rw behind (ground (arith, at-set_self order a (at order b) ha))
          | inr third ↦
              rw behind (ground (arith, at-set_ne order a j (at order b) (λ e. third (sym e))))
        ])
]

length-swap : (order : List ℕ) (a b : ℕ) → length (swap order a b) ≡ length order
unfolding swap
length-swap order a b =
    length-set (set order a (at order b)) b (at order a) ∙ length-set order a (at order b)

source-lt : (n a b j : ℕ) → a < n → b < n → j < n → source a b j < n
source-lt n a b j ha hb h = ground arith

source-injective : (a b i j : ℕ) → source a b i ≡ source a b j → i ≡ j
source-injective a b i j e = ground arith

source_twice : (a b j : ℕ) → source a b (source a b j) ≡ j
source_twice a b j = ground arith

swap-Order :
    (n : ℕ) (order : List ℕ) (a b : ℕ) → a < n → b < n → Order n order → Order n (swap order a b)
swap-Order n order a b ha hb o =
    let moved = λ (j : ℕ). at-swap order a b j (omega (arith, o.size)) (omega (arith, o.size)) in
    record {
      size = length-swap order a b ∙ o.size;
      bounded = λ i h. rw (moved i) (o.bounded (source a b i) (source-lt n a b i ha hb h));
      distinct = λ i j hi hj e. source-injective a b i j (
          o.distinct (source a b i) (source a b j) (source-lt n a b i ha hb hi)
            (source-lt n a b j ha hb hj) (sym (moved i) ∙ e ∙ moved j));
      zero_at = source a b o.zero_at;
      zero_inside = source-lt n a b o.zero_at ha hb o.zero_inside;
      zero_there =
          moved (source a b o.zero_at) ∙ ap (at order) (source_twice a b o.zero_at) ∙ o.zero_there;
    }

shuffle_loop-Order :
    (n i rng : ℕ) (order : List ℕ) → i < n → Order n order → Order n (shuffle_loop i rng order)
unfolding shuffle_loop
shuffle_loop-Order n zero rng order h o = o
shuffle_loop-Order n (suc i) rng order h o =
    let rng' = xorshift64_step rng in
    let other = mod-lt rng' (let some_left : 0 < suc i + 1 = omega arith in some_left) in
    shuffle_loop-Order n i rng' (swap order (suc i) (rng' % (suc i + 1))) (omega arith)
      (swap-Order n order (suc i) (rng' % (suc i + 1)) h (omega arith) o)

at-identity : (n i : ℕ) → i < n → at (fill (λ k. k) 0 n) i ≡ i
at-identity n i h = get_or-fill (λ k. k) 0 n i 0 h ∙ omega arith

identity-Order : (n : ℕ) → 0 < n → Order n (fill (λ k. k) 0 n)
identity-Order n pos = record {
  size = length-fill (λ k. k) 0 n;
  bounded = λ i h. omega (arith, at-identity n i h);
  distinct = λ i j hi hj e. omega (arith, at-identity n i hi, at-identity n j hj, e);
  zero_at = 0;
  zero_inside = pos;
  zero_there = at-identity n 0 pos;
}

-- The order after the shuffle is a permutation of the indexes.
pub shuffled-Order : (n : ℕ) → 0 < n → Order n (shuffled n)
unfolding shuffled
shuffled-Order n pos =
    shuffle_loop-Order n (n - 1) _ (fill (λ k. k) 0 n) (omega arith) (identity-Order n pos)
