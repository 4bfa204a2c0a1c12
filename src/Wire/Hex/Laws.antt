-- ===== src/Wire/Hex/Laws.antt =====
-- Hexadecimal text and bytes: parsing what was written gives the bytes back.
use distributed_enclave.Common.{
  ℕ, zero, suc, ◌+◌, ◌*◌, ◌/◌, ◌%◌, ◌^◌, ◌≤◌, ◌<◌, bit_and, bit_or, arith,
}
use distributed_enclave.Common.{[], ◌∷◌, length, All, Option, none, some}
use distributed_enclave.Common.{not, ◌||◌, ◌≡◌, refl, ap, Bool, true, false, ◌==◌, ==_iff, ◌&&◌}
use distributed_enclave.Common.Table.{holds_below, from_table}
use distributed_enclave.Wire.{Bytes, byte}
use distributed_enclave.Wire.Words.{IsByte}
use distributed_enclave.Wire.Hex.{
  hex_loop, hex_digit, bytes_to_hex, hex_nibble, join_byte, parse_loop, skip_prefix,
  parse_hex_exact,
}

abbrev high_digit : ℕ → ℕ
high_digit b = hex_digit (bit_and (b / 2 ^ 4) 15)

abbrev low_digit : ℕ → ℕ
low_digit b = hex_digit (bit_and b 15)

abbrev is_some_of : Option ℕ → ℕ → Bool
is_some_of none n = false
is_some_of (some m) n = m == n

is_some_of→eq : (o : Option ℕ) (n : ℕ) → is_some_of o n ≡ true → o ≡ some n
is_some_of→eq none n h = cc
is_some_of→eq (some m) n h = ap some ((==_iff m n).0 h)

-- What the table holds for one byte.
abbrev digits_agree : ℕ → Bool
digits_agree b =
    is_some_of (hex_nibble (high_digit b)) (b / 16)
    && (is_some_of (hex_nibble (low_digit b)) (b % 16)
        && ((byte (bit_or (b / 16 * 2 ^ 4) (b % 16)) == b)
            && not (low_digit b == b'x' || low_digit b == b'X')))

digits_table : holds_below digits_agree 256 ≡ true
unfolding holds_below hex_nibble
digits_table = refl

digits_of_byte :
    (b : ℕ)
    → b < 256
    → (hex_nibble (high_digit b) ≡ some (b / 16))
      × (hex_nibble (low_digit b) ≡ some (b % 16))
      × (byte (bit_or (b / 16 * 2 ^ 4) (b % 16)) ≡ b)
      × ((low_digit b == b'x' || low_digit b == b'X') ≡ false)
digits_of_byte b h = ground (
  arith,
  from_table digits_agree 256 digits_table b h,
  is_some_of→eq (hex_nibble (high_digit b)) (b / 16),
  is_some_of→eq (hex_nibble (low_digit b)) (b % 16),
)

length-hex_loop : (bs : Bytes) → length (hex_loop bs) ≡ length bs * 2
unfolding hex_loop
length-hex_loop [] = refl
length-hex_loop (b ∷ bs) = omega (arith, length-hex_loop bs)

parse_loop-hex_loop : (bs : Bytes) → All IsByte bs → parse_loop (length bs) (hex_loop bs) ≡ some bs
unfolding hex_loop parse_loop
parse_loop-hex_loop [] all = refl
parse_loop-hex_loop (b ∷ bs) all =
    let (high, low, whole, _) = digits_of_byte b all.0 in
    rw (high, low, parse_loop-hex_loop bs all.1, whole) refl

skip_prefix-hex_loop : (bs : Bytes) → All IsByte bs → skip_prefix (hex_loop bs) ≡ hex_loop bs
unfolding hex_loop
skip_prefix-hex_loop [] all = refl
skip_prefix-hex_loop (b ∷ bs) all = ground (arith, digits_of_byte b all.0)

-- The text that `bytes_to_hex` writes into a large enough buffer is parsed to the same bytes, with
-- and without a leading `0x`.
pub parse_hex_exact-bytes_to_hex :
    (bs : Bytes) (out_len : ℕ)
    → All IsByte bs
    → 2 * length bs + 1 ≤ out_len
    → (text : Bytes) × (bytes_to_hex bs out_len ≡ some text)
      × (parse_hex_exact text (length bs) ≡ some bs)
      × (parse_hex_exact (b'0' ∷ b'x' ∷ text) (length bs) ≡ some bs)
unfolding bytes_to_hex parse_hex_exact
parse_hex_exact-bytes_to_hex bs out_len all room = (
  hex_loop bs,
  ground arith,
  rw (skip_prefix-hex_loop bs all, length-hex_loop bs) (ground (arith, parse_loop-hex_loop bs all)),
  rw (length-hex_loop bs) (ground (arith, parse_loop-hex_loop bs all)),
)

join_byte-shape :
    (n : ℕ) (high low : Option ℕ) (rest : Option Bytes) (out : Bytes)
    → ((bs : Bytes) → rest ≡ some bs → (length bs ≡ n) × All IsByte bs)
    → join_byte high low rest ≡ some out
    → (length out ≡ suc n) × All IsByte out
join_byte-shape n (some high) (some low) (some bs) out shape e = ground (arith, shape bs refl)
join_byte-shape n (some high) (some low) none out shape e = cc
join_byte-shape n (some high) none rest out shape e = cc
join_byte-shape n none low rest out shape e = cc

parse_loop-shape :
    (n : ℕ) (text out : Bytes) → parse_loop n text ≡ some out → (length out ≡ n) × All IsByte out
unfolding parse_loop
parse_loop-shape zero text out e = ground arith
parse_loop-shape (suc n) [] out e = ground arith
parse_loop-shape (suc n) (h ∷ []) out e = ground arith
parse_loop-shape (suc n) (h ∷ l ∷ text) out e =
    join_byte-shape n (hex_nibble h) (hex_nibble l) (parse_loop n text) out
      (λ rest r. parse_loop-shape n text rest r) e

-- What is parsed has the requested length, and consists of bytes.
pub parse_hex_exact-shape :
    (text : Bytes) (n : ℕ) (out : Bytes)
    → parse_hex_exact text n ≡ some out
    → (length out ≡ n) × All IsByte out
unfolding parse_hex_exact
parse_hex_exact-shape text n out e = ground (arith, parse_loop-shape n (skip_prefix text) out)
