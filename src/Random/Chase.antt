-- ===== src/Random/Chase.antt =====
-- Following the links runs through the order: the tokens that the worker expects are those that it
-- reaches.
use distributed_enclave.Common.{
  ℕ, zero, suc, ◌+◌, ◌*◌, ◌/◌, ◌%◌, ◌≤◌, ◌<◌, ◌≡◌, refl, sym, ap, ◌∙◌, arith, true, ◌==◌, length,
}
use distributed_enclave.Common.{
  List, some, if◌then◌else◌, set, replicate, length-set, length-replicate, ◌⊎◌, inl, inr,
  Bool-cases,
}
use native.Mathlib.Nat.{mod-lt, mod-eq_of_lt, add-mod_left, add-mod-mod}
use distributed_enclave.Random.{
  at, next_position, link_loop, zero_loop, chase, shuffled, Prepared, prepare, run_random_workload,
  random_run, checked_mib_bytes, mib_bytes, random_min_mib, random_max_mib,
}
use distributed_enclave.Random.Shuffle.{at-set_self, at-set_ne, Order, shuffled-Order}

next_position-lt : (n i : ℕ) → i < n → next_position n i < n
next_position-lt n i h = ground arith

last_or_before : (i j : ℕ) → j < i + 1 → (j ≡ i) ⊎ (j < i)
last_or_before i j h = omega arith

first_or_after : (i k : ℕ) → i ≤ k → (i ≡ k) ⊎ (i + 1 ≤ k)
first_or_after i k h = omega arith

-- After the loop, each entry from position 0 on is linked to the next one.
abbrev Linked : ℕ → List ℕ → List ℕ → ℕ → Type 0
Linked n order links upto =
    (j : ℕ) → j < upto → at links (at order j) ≡ at order (next_position n j)

next_mod : (n p k : ℕ) → p < n → (next_position n p + k) % n ≡ (p + suc k) % n
next_mod n p k h = elim (Bool-cases (p + 1 == n)) [
  | inl last ↦
      (let around : p + suc k ≡ n + k = ground arith in
        let first : 0 + k ≡ k = omega arith in rw (last, around, first) (sym (add-mod_left n k)))
  | inr inside ↦ rw inside (ap (λ m. m % n) (let e : p + 1 + k ≡ p + suc k = omega arith in e))
]

same_token : (t : ℕ) → (t == t) ≡ true
same_token t = ground arith

zero_loop-lt :
    (n : ℕ) (order : List ℕ) (left i z : ℕ) → z < n → i + left ≤ n → zero_loop order left i z < n
unfolding zero_loop
zero_loop-lt n order zero i z h fits = h
zero_loop-lt n order (suc left) i z h fits =
    zero_loop-lt n order left (i + 1) _ (ground arith) (omega arith)

module _ (n : ℕ) (order : List ℕ) (o : Order n order) where
  link_step :
      (links : List ℕ) (i : ℕ)
      → i < n
      → length links ≡ n
      → Linked n order links i
      → Linked n order (set links (at order i) (at order (next_position n i))) (i + 1)
  link_step links i h size linked j below = elim (last_or_before i j below) [
    | inl here ↦ rw here (at-set_self links (at order i) _ (omega (arith, o.bounded i h)))
    | inr before ↦
        at-set_ne links (at order i) (at order j) _
          (λ e. absurd (omega (arith, o.distinct i j h (omega arith) e)))
        ∙ linked j before
  ]

  link_loop-Linked :
      (left i : ℕ) (links : List ℕ)
      → i + left ≡ n
      → length links ≡ n
      → Linked n order links i
      → Linked n order (link_loop n order left i links) n
  unfolding link_loop
  link_loop-Linked zero i links e size linked = λ j h. linked j (omega arith)
  link_loop-Linked (suc left) i links e size linked =
      link_loop-Linked left (i + 1) _ (omega arith) (length-set links (at order i) _ ∙ size)
        (link_step links i (omega arith) size linked)

  zero_step :
      (left i z : ℕ)
      → ((at order z ≡ 0) ⊎ ((k : ℕ) × (i ≤ k) × (k < i + suc left) × (at order k ≡ 0)))
      → (at order (if at order i == 0 then i else z) ≡ 0)
        ⊎ ((k : ℕ) × (i + 1 ≤ k) × (k < i + 1 + left) × (at order k ≡ 0))
  zero_step left i z known = elim (Bool-cases (at order i == 0)) [
    | inl here ↦ rw here (inl (ground arith))
    | inr away ↦ rw away (elim known [
      | inl found ↦ inl found
      | inr (k, low, high, there) ↦ elim (first_or_after i k low) [
        | inl same ↦ absurd (ground arith)
        | inr later ↦ inr (k, later, omega arith, there)
      ]
    ])
  ]

  zero_loop-zero :
      (left i z : ℕ)
      → ((at order z ≡ 0) ⊎ ((k : ℕ) × (i ≤ k) × (k < i + left) × (at order k ≡ 0)))
      → at order (zero_loop order left i z) ≡ 0
  unfolding zero_loop
  zero_loop-zero zero i z (inl found) = found
  zero_loop-zero zero i z (inr (k, low, high, there)) = absurd (omega arith)
  zero_loop-zero (suc left) i z known = zero_loop-zero left (i + 1) _ (zero_step left i z known)

  -- From the entry at `p`, `k` links lead to the entry `k` positions on, around the end.
  chase-position :
      (links : List ℕ)
      → Linked n order links n
      → (k p : ℕ) → p < n
      → chase links k (at order p) ≡ at order ((p + k) % n)
  unfolding chase
  chase-position links linked zero p h =
      ap (at order) (sym (mod-eq_of_lt h) ∙ ap (λ m. m % n) (omega arith))
  chase-position links linked (suc k) p h =
      ap (chase links k) (linked p h)
      ∙ chase-position links linked k (next_position n p) (next_position-lt n p h)
      ∙ ap (at order) (next_mod n p k h)

-- What `prepare` computes, with the entries of the order in the place of the chased tokens.
module _ (n warmup accesses : ℕ) (pos : 0 < n) where
  abbrev order : List ℕ
  order = shuffled n

  abbrev o : Order n order
  o = shuffled-Order n pos

  abbrev links : List ℕ
  links = link_loop n order n 0 (replicate n 0)

  abbrev start : ℕ
  start = zero_loop order n 0 0

  abbrev warm : ℕ
  warm = (start + warmup % n) % n

  abbrev final : ℕ
  final = (warm + accesses % n) % n

  linked : Linked n order links n
  linked =
      link_loop-Linked n order o n 0 (replicate n 0) (omega arith) (length-replicate n 0)
        (λ j h. absurd (omega arith))

  start_zero : at order start ≡ 0
  start_zero =
      zero_loop-zero n order o n 0 0
        (inr (o.zero_at, omega arith, omega (arith, o.zero_inside), o.zero_there))

  start-lt : start < n
  start-lt = zero_loop-lt n order n 0 0 pos (omega arith)

  warm_reached : chase links warmup 0 ≡ at order warm
  warm_reached =
      ap (chase links warmup) (sym start_zero)
      ∙ chase-position n order o links linked warmup start start-lt
      ∙ ap (at order) (sym (add-mod-mod start warmup n))

  final_reached : chase links accesses (at order warm) ≡ at order final
  final_reached =
      chase-position n order o links linked accesses warm (mod-lt _ pos)
      ∙ ap (at order) (sym (add-mod-mod warm accesses n))

  prepared :
      prepare n warmup accesses
      ≡ some (record {
        element_count = n;
        links = links;
        warm_token = at order warm;
        expected_final_token = at order final;
      })
  unfolding prepare
  prepared = rw (warm_reached, same_token (at order warm)) refl

-- For every element count above 0 and all numbers of accesses, the worker reaches the warm token that it
-- expects, and every run reaches the final token that it expects, which is the entry of the order
-- that lies that many positions behind the entry 0.
pub prepare-random_run :
    (n warmup accesses : ℕ)
    → 0 < n
    → (p : Prepared) × (prepare n warmup accesses ≡ some p)
      × (p.element_count ≡ n)
      × ((random_run p accesses).1 ≡ true)
      × ((start : ℕ) × (at (shuffled n) start ≡ 0)
          × ((random_run p accesses).0 ≡ at (shuffled n) (((start + warmup) % n + accesses) % n)))
unfolding random_run
prepare-random_run n warmup accesses pos =
    let reached = final_reached n warmup accesses pos in
    let s = start n warmup accesses pos in
    (
      record {
        element_count = n;
        links = links n warmup accesses pos;
        warm_token = at (order n warmup accesses pos) (warm n warmup accesses pos);
        expected_final_token = at (order n warmup accesses pos) (final n warmup accesses pos);
      },
      prepared n warmup accesses pos,
      refl,
      rw (reached, same_token (at (shuffled n) (final n warmup accesses pos))) refl,
      (
        s,
        start_zero n warmup accesses pos,
        reached
            ∙ ap (at (shuffled n)) (
                add-mod-mod (warm n warmup accesses pos) accesses n
                ∙ ap (λ m. (m + accesses) % n) (add-mod-mod s warmup n)),
      ),
    )

-- A worker accepts every command in the range that the master allows, reports the element count
-- that the master expects, and reports each of its runs as verified.
pub run_random_workload-random_run :
    (random_mib warmup accesses : ℕ)
    → random_min_mib ≤ random_mib
    → random_mib ≤ random_max_mib
    → 0 < accesses
    → (p : Prepared) × (run_random_workload random_mib warmup accesses true ≡ some p)
      × (p.element_count ≡ random_mib * mib_bytes / 4)
      × ((random_run p accesses).1 ≡ true)
unfolding run_random_workload checked_mib_bytes
run_random_workload-random_run random_mib warmup accesses low high some_access =
    let n = random_mib * mib_bytes / 4 in
    let whole : random_mib * mib_bytes % 4 ≡ 0 = omega arith in
    let positive : 0 < n = omega arith in
    let (p, ready, count, verified, _) = prepare-random_run n warmup accesses positive in
    (p, ground arith, count, verified)
