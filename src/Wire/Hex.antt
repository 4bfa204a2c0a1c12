-- ===== src/Wire/Hex.antt =====
-- Hexadecimal text of src/master_npb.c: a C string is the list of its characters, without the NUL.
pub mod Laws
use distributed_enclave.Common.{ℕ, zero, suc, ◌+◌, ◌-◌, ◌*◌, ◌/◌, ◌%◌, ◌^◌, ◌<◌, bit_or, bit_and}
use distributed_enclave.Common.{List, [], ◌∷◌, ◌++◌, Bool, true, false, ◌&&◌, ◌||◌, leb, ltb, ◌==◌}
use distributed_enclave.Common.{if◌then◌else◌, Option, none, some, length, get_or, drop}
use distributed_enclave.Wire.{Bytes, byte}

abbrev pub hc : Bytes
hc =
    b'0' ∷ b'1' ∷ b'2' ∷ b'3' ∷ b'4' ∷ b'5' ∷ b'6' ∷ b'7' ∷ b'8' ∷ b'9' ∷ b'a' ∷ b'b' ∷ b'c' ∷ b'd'
    ∷ b'e' ∷ b'f' ∷ []

abbrev pub hex_digit : ℕ → ℕ
hex_digit n = get_or hc n 0

pub hex_loop : Bytes → Bytes
hex_loop [] = []
hex_loop (b ∷ bs) = hex_digit (bit_and (b / 2 ^ 4) 15) ∷ hex_digit (bit_and b 15) ∷ hex_loop bs

-- The string that is left in `out`; `none` if `out` has no room for a NUL and is not written.
unfoldable pub bytes_to_hex : Bytes → ℕ → Option Bytes
unfolding hex_loop
bytes_to_hex input out_len =
    if ltb out_len (2 * length input + 1)
    then if out_len == 0 then none else some []
    else some (hex_loop input)

-- `none` is the result -1.
unfoldable pub hex_nibble : ℕ → Option ℕ
hex_nibble c =
    if leb b'0' c && leb c b'9'
    then some (c - b'0')
    else if leb b'a' c && leb c b'f'
    then some (c - b'a' + 10)
    else if leb b'A' c && leb c b'F'
    then some (c - b'A' + 10)
    else none

-- `-1` from either digit, or from a later round, is the result -1 of the whole.
abbrev pub join_byte : Option ℕ → Option ℕ → Option Bytes → Option Bytes
join_byte (some high) (some low) (some out) = some (byte (bit_or (high * 2 ^ 4) low) ∷ out)
join_byte _ _ _ = none

-- The loop over `out_len` bytes; the text is the rest from character `2 * i` on.
pub parse_loop : ℕ → Bytes → Option Bytes
parse_loop zero text = some []
parse_loop (suc n) (h ∷ l ∷ text) = join_byte (hex_nibble h) (hex_nibble l) (parse_loop n text)
parse_loop (suc n) _ = none

abbrev pub skip_prefix : Bytes → Bytes
skip_prefix [] = []
skip_prefix (a ∷ []) = a ∷ []
skip_prefix (a ∷ x ∷ text) = if a == b'0' && (x == b'x' || x == b'X') then text else a ∷ x ∷ text

-- The callers pass no null pointer, so the first test of the source is not taken.
unfoldable pub parse_hex_exact : Bytes → ℕ → Option Bytes
unfolding parse_loop
parse_hex_exact text out_len =
    let digits = skip_prefix text in
    if length digits == out_len * 2 then parse_loop out_len digits else none
