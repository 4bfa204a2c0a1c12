-- ===== src/Config/Numbers.antt =====
-- What `parse_u64_arg` accepts.
use distributed_enclave.Common.{
  ℕ, suc, ◌+◌, ◌-◌, ◌*◌, ◌≤◌, ◌≡◌, refl, sym, ap, arith, true, false, ◌&&◌, ltb, leb, ◌==◌, length,
}
use distributed_enclave.Common.{[], ◌∷◌, none, some, if◌then◌else◌}
use distributed_enclave.Wire.{Bytes}
use distributed_enclave.Config.{is_digit, skip_spaces, digits, strtoull, parse_u64_arg, uint64_max}
use distributed_enclave.Timeout.Setting.{all_digits, decimal}

-- A value that is parsed is in the range that the caller gives.
pub parse_u64_arg-range :
    (text : Bytes) (min_value max_value value : ℕ)
    → parse_u64_arg text min_value max_value ≡ some value
    → (min_value ≤ value) × (value ≤ max_value)
unfolding parse_u64_arg
parse_u64_arg-range text min_value max_value value e = ground arith

digits-decimal :
    (text : Bytes) (value count : ℕ)
    → all_digits text ≡ true
    → digits value count text ≡ (decimal text value, count + length text, [])
unfolding digits
digits-decimal [] value count all =
    (let e : count + 0 ≡ count = omega arith in ap (λ k. (value, k, [])) (sym e))
digits-decimal (c ∷ text) value count all =
    let digit : is_digit c ≡ true = ground arith in
    let further : all_digits text ≡ true = ground arith in
    let one_more : count + 1 + length text ≡ count + suc (length text) = omega arith in
    rw (digit, digits-decimal text (value * 10 + (c - 48)) (count + 1) further, one_more) refl

no_spaces : (c : ℕ) (text : Bytes) → is_digit c ≡ true → skip_spaces (c ∷ text) ≡ c ∷ text
unfolding skip_spaces
no_spaces c text digit = ground arith

strtoull-digits :
    (c : ℕ) (text : Bytes)
    → all_digits (c ∷ text) ≡ true
    → strtoull (c ∷ text) ≡ (
        if ltb uint64_max (decimal (c ∷ text) 0)
        then record { value = uint64_max; out_of_range = true; rest = [] }
        else record { value = decimal (c ∷ text) 0; out_of_range = false; rest = [] })
unfolding strtoull
strtoull-digits c text all =
    let digit : is_digit c ≡ true = ground arith in
    let not_minus : (c == b'-') ≡ false = ground arith in
    let not_plus : (c == b'+') ≡ false = ground arith in
    rw (no_spaces c text digit, not_minus, not_plus, digits-decimal (c ∷ text) 0 0 all)
      (ground arith)

-- A text of digits is accepted if and only if its number is in the range, and then it is that number.
pub parse_u64_arg-decimal :
    (c : ℕ) (text : Bytes) (min_value max_value : ℕ)
    → max_value ≤ uint64_max
    → all_digits (c ∷ text) ≡ true
    → parse_u64_arg (c ∷ text) min_value max_value ≡ (
        let number = decimal (c ∷ text) 0 in
        if leb min_value number && leb number max_value then some number else none)
unfolding parse_u64_arg
parse_u64_arg-decimal c text min_value max_value fits all =
    let not_minus : (c == b'-') ≡ false = ground arith in
    let some_text : (suc (length text) == 0) ≡ false = ground arith in
    rw (some_text, not_minus, strtoull-digits c text all) (ground arith)
