-- ===== src/Common/Xor.antt =====
-- Laws of the exclusive or on numbers of any width. `bit_xor` is stuck at variables, so the laws
-- start from one equation for the lowest binary digit and go by strong induction.
use Prim.Native.Nat.{ℕ, zero, suc, ◌+◌, ◌*◌, ◌/◌, ◌%◌, ◌^◌, ◌≤◌, ◌<◌}
use Prim.Native.Nat.{bit_xor, bit_xor-bitwise, bit_and, bit_and-bitwise, digits, differ, min}
use mathlib.Core.Path.{◌≡◌, refl, sym, ap, ◌∙◌}
use native.Mathlib.Nat.{pow-suc, div-add-mod', mod-lt, mod-eq_of_lt, one-le-pow}
use native.Mathlib.Nat.{add-mul, div-eq_of_lt-le, mul-add-mod_self_right}
use native.Mathlib.Omega.{arith}

abbrev xor_digits : ℕ → ℕ → ℕ → ℕ
xor_digits n a b = digits (λ y. y) differ n a b

xor_digits_fuel : (n m a b : ℕ) → a ≤ n → a ≤ m → xor_digits n a b ≡ xor_digits m a b
xor_digits_fuel zero zero zero b p q = refl
xor_digits_fuel zero zero (suc a) b p q = absurd (omega arith)
xor_digits_fuel zero (suc m) zero b p q = refl
xor_digits_fuel zero (suc m) (suc a) b p q = absurd (omega arith)
xor_digits_fuel (suc n) zero zero b p q = refl
xor_digits_fuel (suc n) zero (suc a) b p q = absurd (omega arith)
xor_digits_fuel (suc n) (suc m) zero b p q = refl
xor_digits_fuel (suc n) (suc m) (suc a) b p q =
    rw (xor_digits_fuel n m (suc a / 2) (b / 2) (omega arith) (omega arith))

pub zero-bit_xor : (b : ℕ) → bit_xor 0 b ≡ b
zero-bit_xor b = bit_xor-bitwise 0 b

differ_digits : (x y : ℕ) → x < 2 → y < 2 → differ x y ≡ (x + y) % 2
differ_digits zero y p q = omega arith
differ_digits (suc zero) zero p q = refl
differ_digits (suc zero) (suc zero) p q = refl
differ_digits (suc zero) (suc (suc y)) p q = absurd (omega arith)
differ_digits (suc (suc x)) y p q = absurd (omega arith)

-- The lowest digit of the result, and the rest.
pub bit_xor_step : (a b : ℕ) → bit_xor a b ≡ bit_xor (a / 2) (b / 2) * 2 + (a + b) % 2
bit_xor_step zero b = omega (arith, zero-bit_xor b, zero-bit_xor (b / 2))
bit_xor_step (suc a) b = omega (
  arith,
  bit_xor-bitwise (suc a) b,
  bit_xor-bitwise (suc a / 2) (b / 2),
  differ_digits (suc a % 2) (b % 2) (omega arith) (omega arith),
  xor_digits_fuel a (suc a / 2) (suc a / 2) (b / 2) (omega arith) (omega arith),
)

pub div_two-bit_xor : (a b : ℕ) → bit_xor a b / 2 ≡ bit_xor (a / 2) (b / 2)
div_two-bit_xor a b = omega (arith, bit_xor_step a b)

-- Each law below goes from the halves to the whole: recursion on a bound of the operands.
comm_below : (n a b : ℕ) → a + b ≤ n → bit_xor a b ≡ bit_xor b a
comm_below zero zero zero p = refl
comm_below zero zero (suc b) p = absurd (omega arith)
comm_below zero (suc a) b p = absurd (omega arith)
comm_below (suc n) zero zero p = refl
comm_below (suc n) zero (suc b) p = omega (
  arith,
  bit_xor_step 0 (suc b),
  bit_xor_step (suc b) 0,
  comm_below n 0 (suc b / 2) (omega arith),
)
comm_below (suc n) (suc a) b p = omega (
  arith,
  bit_xor_step (suc a) b,
  bit_xor_step b (suc a),
  comm_below n (suc a / 2) (b / 2) (omega arith),
)

pub bit_xor_comm : (a b : ℕ) → bit_xor a b ≡ bit_xor b a
bit_xor_comm a b = comm_below (a + b) a b (omega arith)

pub bit_xor-zero : (a : ℕ) → bit_xor a 0 ≡ a
bit_xor-zero a = bit_xor_comm a 0 ∙ zero-bit_xor a

assoc_below : (n a b c : ℕ) → a + b ≤ n → bit_xor (bit_xor a b) c ≡ bit_xor a (bit_xor b c)
assoc_below n zero b c p = rw (zero-bit_xor b, zero-bit_xor (bit_xor b c)) refl
assoc_below zero (suc a) b c p = absurd (omega arith)
assoc_below (suc n) (suc a) b c p = omega (
  arith,
  bit_xor_step (bit_xor (suc a) b) c,
  bit_xor_step (suc a) (bit_xor b c),
  bit_xor_step (suc a) b,
  bit_xor_step b c,
  ap (λ t. bit_xor t (c / 2)) (div_two-bit_xor (suc a) b),
  ap (bit_xor (suc a / 2)) (div_two-bit_xor b c),
  assoc_below n (suc a / 2) (b / 2) (c / 2) (omega arith),
)

pub bit_xor_assoc : (a b c : ℕ) → bit_xor (bit_xor a b) c ≡ bit_xor a (bit_xor b c)
bit_xor_assoc a b c = assoc_below (a + b) a b c (omega arith)

self_below : (n a : ℕ) → a ≤ n → bit_xor a a ≡ 0
self_below n zero p = refl
self_below zero (suc a) p = absurd (omega arith)
self_below (suc n) (suc a) p =
    omega (arith, bit_xor_step (suc a) (suc a), self_below n (suc a / 2) (omega arith))

pub bit_xor_self : (a : ℕ) → bit_xor a a ≡ 0
bit_xor_self a = self_below a a (omega arith)

pub bit_xor_left_comm : (a b c : ℕ) → bit_xor a (bit_xor b c) ≡ bit_xor b (bit_xor a c)
bit_xor_left_comm a b c =
    sym (bit_xor_assoc a b c) ∙ ap (λ t. bit_xor t c) (bit_xor_comm a b) ∙ bit_xor_assoc b a c

mul-two-pow-suc : (q k : ℕ) → q * 2 ^ suc k ≡ q * 2 ^ k * 2
mul-two-pow-suc q k = omega (arith, ap (λ (t : ℕ). q * t) (pow-suc 2 k))

-- The high fields and the low fields of `k` digits are taken apart.
pub bit_xor_fields :
    (k q r q' r' : ℕ)
    → r < 2 ^ k
    → r' < 2 ^ k
    → (bit_xor (q * 2 ^ k + r) (q' * 2 ^ k + r') ≡ bit_xor q q' * 2 ^ k + bit_xor r r')
      × (bit_xor r r' < 2 ^ k)
bit_xor_fields zero q zero q' zero h h' = ground (arith, zero-bit_xor 0)
bit_xor_fields zero q zero q' (suc r') h h' = absurd (omega arith)
bit_xor_fields zero q (suc r) q' r' h h' = absurd (omega arith)
bit_xor_fields (suc k) q r q' r' h h' = ground (
  arith,
  bit_xor_step (q * 2 ^ suc k + r) (q' * 2 ^ suc k + r'),
  bit_xor_step r r',
  mul-two-pow-suc q k,
  mul-two-pow-suc q' k,
  mul-two-pow-suc (bit_xor q q') k,
  pow-suc 2 k,
  bit_xor_fields k q (r / 2) q' (r' / 2) (omega (arith, pow-suc 2 k)) (omega (arith, pow-suc 2 k)),
)

two-pow-pos : (k : ℕ) → 0 < 2 ^ k
two-pow-pos k = one-le-pow k 2 (omega arith)

pub div_mod_fields : (q r m : ℕ) → r < m → ((q * m + r) / m ≡ q) × ((q * m + r) % m ≡ r)
div_mod_fields q r m h = (
  div-eq_of_lt-le m (omega arith) (omega (arith, add-mul q 1 m)),
  mul-add-mod_self_right q m r ∙ mod-eq_of_lt h,
)

module _ (k a b : ℕ) where
  parts :
      (bit_xor a b ≡ bit_xor (a / 2 ^ k) (b / 2 ^ k) * 2 ^ k + bit_xor (a % 2 ^ k) (b % 2 ^ k))
      × (bit_xor (a % 2 ^ k) (b % 2 ^ k) < 2 ^ k)
  parts =
      rw (div-add-mod' a (2 ^ k), div-add-mod' b (2 ^ k)) at
        (bit_xor_fields k (a / 2 ^ k) (a % 2 ^ k) (b / 2 ^ k) (b % 2 ^ k) (mod-lt a (two-pow-pos k))
          (mod-lt b (two-pow-pos k)))

  pub div_pow-bit_xor : bit_xor a b / 2 ^ k ≡ bit_xor (a / 2 ^ k) (b / 2 ^ k)
  div_pow-bit_xor = ap (λ n. n / 2 ^ k) parts.0 ∙ (div_mod_fields _ _ _ parts.1).0

  pub mod_pow-bit_xor : bit_xor a b % 2 ^ k ≡ bit_xor (a % 2 ^ k) (b % 2 ^ k)
  mod_pow-bit_xor = ap (λ n. n % 2 ^ k) parts.0 ∙ (div_mod_fields _ _ _ parts.1).1

  pub bit_xor_shift : bit_xor (a * 2 ^ k) (b * 2 ^ k) ≡ bit_xor a b * 2 ^ k
  bit_xor_shift =
      ground (arith, zero-bit_xor 0, (bit_xor_fields k a 0 b 0 (two-pow-pos k) (two-pow-pos k)).0)

  pub bit_xor-lt : a < 2 ^ k → b < 2 ^ k → bit_xor a b < 2 ^ k
  bit_xor-lt p q = omega (arith, zero-bit_xor 0, bit_xor_fields k 0 a 0 b p q)

  -- Fields that do not overlap are joined by a sum.
  pub bit_xor_disjoint : b < 2 ^ k → bit_xor (a * 2 ^ k) b ≡ a * 2 ^ k + b
  bit_xor_disjoint h =
      ground (arith, bit_xor-zero a, zero-bit_xor b, (bit_xor_fields k a 0 0 b (two-pow-pos k) h).0)

-- The digit that `x & 1` reads.
pub and_zero-digits : (n a : ℕ) → digits (λ y. zero) min n a 0 ≡ 0
and_zero-digits zero a = refl
and_zero-digits (suc n) zero = refl
and_zero-digits (suc n) (suc a) = omega (arith, and_zero-digits n (suc a / 2))

pub bit_and-one : (a : ℕ) → bit_and a 1 ≡ a % 2
bit_and-one zero = refl
bit_and-one (suc a) = omega (arith, bit_and-bitwise (suc a) 1, and_zero-digits a (suc a / 2))
