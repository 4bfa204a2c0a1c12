-- ===== src/Timeout/Setting.antt =====
-- Which texts are settings: the loop with its two guards against the description of the format.
use distributed_enclave.Common.{ℕ, ◌+◌, ◌-◌, ◌*◌, ◌≤◌, ◌≡◌, refl, arith, Bool, true, ◌&&◌, leb}
use distributed_enclave.Common.{[], ◌∷◌, Option, none, some, if◌then◌else◌}
use distributed_enclave.Wire.{Bytes}
use distributed_enclave.Timeout.{setting_loop, timeout_setting}

abbrev pub all_digits : Bytes → Bool
all_digits [] = true
all_digits (c ∷ text) = (leb b'0' c && leb c b'9') && all_digits text

-- The decimal number that a text continues, without a bound.
abbrev pub decimal : Bytes → ℕ → ℕ
decimal [] n = n
decimal (c ∷ text) n = decimal text (n * 10 + (c - b'0'))

decimal-grows : (text : Bytes) (n : ℕ) → n ≤ decimal text n
decimal-grows [] n = omega arith
decimal-grows (c ∷ text) n = omega (arith, decimal-grows text (n * 10 + (c - b'0')))

setting_loop-decimal :
    (text : Bytes) (n : ℕ)
    → n ≤ 86400
    → setting_loop text n
      ≡ (if all_digits text && leb (decimal text n) 86400 then some (decimal text n) else none)
unfolding setting_loop
setting_loop-decimal [] n h = ground arith
setting_loop-decimal (c ∷ text) n h =
    let n' = n * 10 + (c - b'0') in
    ground (arith, setting_loop-decimal text n', decimal-grows text n')

-- A setting is accepted if and only if it is a decimal number from 1 to 86400 of one digit or more,
-- and then its value is that number; without the variable the fallback is taken.
pub timeout_setting-decimal :
    (setting : Option Bytes) (fallback : ℕ)
    → timeout_setting setting fallback ≡ elim setting [
      | none ↦ some fallback
      | some text ↦
          if all_digits text && (leb 1 (decimal text 0) && leb (decimal text 0) 86400)
          then some (decimal text 0)
          else none
    ]
unfolding timeout_setting
timeout_setting-decimal none fallback = refl
timeout_setting-decimal (some []) fallback = refl
timeout_setting-decimal (some (c ∷ text)) fallback =
    ground (arith, setting_loop-decimal (c ∷ text) 0)

pub timeout_setting-range :
    (setting : Option Bytes) (fallback seconds : ℕ)
    → 1 ≤ fallback
    → fallback ≤ 86400
    → timeout_setting setting fallback ≡ some seconds
    → (1 ≤ seconds) × (seconds ≤ 86400)
timeout_setting-range none fallback seconds low high e =
    ground (arith, timeout_setting-decimal none fallback)
timeout_setting-range (some text) fallback seconds low high e =
    ground (arith, timeout_setting-decimal (some text) fallback)
