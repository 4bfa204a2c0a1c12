-- ===== src/Wire/Tests.antt =====
-- Runs of the byte layouts on small inputs.
use distributed_enclave.Common.{
  ℕ, [], ◌∷◌, ◌++◌, ◌≡◌, refl, arith, length, All, some, none, replicate,
}
use distributed_enclave.Wire.{Bytes, load_u64_le, load_u64_be, load_u64_be_bytes, parse_nonce}
use distributed_enclave.Wire.Words.{IsByte}
use distributed_enclave.Wire.Hex.{bytes_to_hex, hex_nibble, parse_hex_exact}
use distributed_enclave.Wire.Hex.Laws.{parse_hex_exact-bytes_to_hex, parse_hex_exact-shape}

load_u64_be_run : load_u64_be (1 ∷ 2 ∷ 3 ∷ 4 ∷ 5 ∷ 6 ∷ 7 ∷ 8 ∷ 9 ∷ []) ≡ 0x0102030405060708
unfolding load_u64_be
load_u64_be_run = refl

load_u64_le_run : load_u64_le (1 ∷ 2 ∷ 3 ∷ 4 ∷ 5 ∷ 6 ∷ 7 ∷ 8 ∷ 9 ∷ []) ≡ 0x0807060504030201
unfolding load_u64_le
load_u64_le_run = refl

parse_nonce_dirty : parse_nonce (0 ∷ 1 ∷ replicate 10 0) ≡ none
unfolding parse_nonce
parse_nonce_dirty = refl

abbrev nonce_bytes : Bytes
nonce_bytes = replicate 11 0 ++ (5 ∷ [])

nonce_bytes_parsed : parse_nonce nonce_bytes ≡ some 5
unfolding parse_nonce load_u64_be_bytes
nonce_bytes_parsed = refl

abbrev binding : Bytes
binding = replicate 32 7

parse_hex_exact-bytes_to_hex_example :
    (text : Bytes) × (bytes_to_hex (0 ∷ 171 ∷ []) 5 ≡ some text)
    × (parse_hex_exact text 2 ≡ some (0 ∷ 171 ∷ []))
    × (parse_hex_exact (b'0' ∷ b'x' ∷ text) 2 ≡ some (0 ∷ 171 ∷ []))
parse_hex_exact-bytes_to_hex_example =
    parse_hex_exact-bytes_to_hex (0 ∷ 171 ∷ []) 5 (omega arith) (omega arith)

abbrev hex_text : Bytes
hex_text = b'0' ∷ b'x' ∷ b'F' ∷ b'f' ∷ b'1' ∷ b'0' ∷ []

hex_text_parsed : parse_hex_exact hex_text 2 ≡ some (255 ∷ 16 ∷ [])
unfolding parse_hex_exact hex_nibble
hex_text_parsed = refl

parse_hex_exact-shape_example : (length {A = ℕ} (255 ∷ 16 ∷ []) ≡ 2) × All IsByte (255 ∷ 16 ∷ [])
parse_hex_exact-shape_example = parse_hex_exact-shape hex_text 2 (255 ∷ 16 ∷ []) hex_text_parsed
