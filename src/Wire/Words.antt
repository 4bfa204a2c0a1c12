-- ===== src/Wire/Words.antt =====
-- Loads and stores of words are inverse to each other.
use distributed_enclave.Common.{ℕ, ◌+◌, ◌*◌, ◌^◌, ◌≤◌, ◌<◌, bit_or}
use distributed_enclave.Common.{[], ◌∷◌, length, All, arith, ◌≡◌, refl, ap, ◌∙◌}
use distributed_enclave.Common.Or.{bit_or_join}
use distributed_enclave.Wire.{Bytes, word64, load_le_loop, load_be_loop, store_u64_be_bytes}
use native.Mathlib.Numerals.{towards_suc}
use native.Mathlib.Nat.{pow-le-pow_right, mod-eq_of_lt}

abbrev pub IsByte : ℕ → Type 0
IsByte b = b < 256

-- The number that bytes stand for, the first byte the highest, or the lowest.
abbrev pub be_value : Bytes → ℕ → ℕ
be_value [] acc = acc
be_value (b ∷ bs) acc = be_value bs (acc * 256 + b)

abbrev pub le_value : Bytes → ℕ
le_value [] = 0
le_value (b ∷ bs) = b + 256 * le_value bs

eight_more : (i : ℕ) → 2 ^ (8 * (i + 1)) ≡ 2 ^ (8 * i) * 256
eight_more i =
    ap (λ k. 2 ^ k) (let e : 8 * (i + 1) ≡ 8 * i + 8 = omega arith in e)
    ∙ simp towards_suc (omega arith)

fits_word : (i : ℕ) → i ≤ 8 → 2 ^ (8 * i) ≤ 2 ^ 64
fits_word i h = pow-le-pow_right {n = 2} (omega arith) {j = 64} (omega arith)

-- One round of each load, while fewer than eight bytes are read.
be_round :
    (i value b : ℕ)
    → value < 2 ^ (8 * i)
    → i + 1 ≤ 8
    → b < 256
    → (bit_or (word64 (value * 2 ^ 8)) b ≡ value * 256 + b) × (value * 256 + b < 2 ^ (8 * (i + 1)))
be_round i value b h n hb =
    ground (arith, eight_more i, fits_word (i + 1) n, bit_or_join 8 value b hb)

le_round :
    (i value b : ℕ)
    → value < 2 ^ (8 * i)
    → i + 1 ≤ 8
    → b < 256
    → (bit_or value (word64 (b * 2 ^ (8 * i))) ≡ value + 2 ^ (8 * i) * b)
      × (value + 2 ^ (8 * i) * b < 2 ^ (8 * (i + 1)))
le_round i value b h n hb =
    let scaled : b * 2 ^ (8 * i) ≤ 255 * 2 ^ (8 * i) = grind arith in
    let small : b * 2 ^ (8 * i) < 2 ^ 64 =
      omega (arith, scaled, eight_more i, fits_word (i + 1) n) in
    (
      ap (bit_or value) (mod-eq_of_lt small) ∙ (bit_or_join (8 * i) b value h).1 ∙ omega arith,
      omega (arith, scaled, eight_more i),
    )

pub load_be_loop-be_value :
    (bs : Bytes) (i value : ℕ)
    → value < 2 ^ (8 * i)
    → i + length bs ≤ 8
    → All IsByte bs
    → load_be_loop bs value ≡ be_value bs value
unfolding load_be_loop
load_be_loop-be_value [] i value h n all = refl
load_be_loop-be_value (b ∷ bs) i value h n all =
    let (e, lt) = be_round i value b h (omega arith) all.0 in
    rw e (load_be_loop-be_value bs (i + 1) (value * 256 + b) lt (omega arith) all.1)

pub load_le_loop-le_value :
    (bs : Bytes) (i value : ℕ)
    → value < 2 ^ (8 * i)
    → i + length bs ≤ 8
    → All IsByte bs
    → load_le_loop bs i value ≡ value + 2 ^ (8 * i) * le_value bs
unfolding load_le_loop
load_le_loop-le_value [] i value h n all = omega arith
load_le_loop-le_value (b ∷ bs) i value h n all =
    let (e, lt) = le_round i value b h (omega arith) all.0 in
    rw e (
      load_le_loop-le_value bs (i + 1) _ lt (omega arith) all.1
      ∙ omega (arith, ap (λ t. t * le_value bs) (eight_more i)))

-- A store is read back, and it gives eight bytes.
pub load-store_u64 : (v : ℕ) → v < 2 ^ 64 → be_value (store_u64_be_bytes v) 0 ≡ v
unfolding store_u64_be_bytes
load-store_u64 v h = omega arith

pub store_u64_shape :
    (v : ℕ) → All IsByte (store_u64_be_bytes v) × (length (store_u64_be_bytes v) ≡ 8)
unfolding store_u64_be_bytes
store_u64_shape v = (omega arith, refl)
