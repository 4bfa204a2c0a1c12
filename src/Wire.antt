-- ===== src/Wire.antt =====
-- Byte layouts: words, nonces and associated data of src/master_npb.c (and, repeated there, of
-- src/worker_npb.c). A byte array is a list of numbers below 256.
pub mod Words
pub mod Layout
pub mod Hex
mod Tests
use distributed_enclave.Common.{ℕ, zero, suc, ◌+◌, ◌-◌, ◌*◌, ◌/◌, ◌%◌, ◌^◌, ◌<◌, bit_or}
use distributed_enclave.Common.{List, [], ◌∷◌, ◌++◌, Bool, true, false, ◌==◌, if◌then◌else◌}
use distributed_enclave.Common.{Option, none, some, take, drop, replicate}

abbrev pub Bytes : Type 0
Bytes = List ℕ

abbrev pub byte : ℕ → ℕ
byte n = n % 256

abbrev pub word32 : ℕ → ℕ
word32 n = n % 2 ^ 32

abbrev pub word64 : ℕ → ℕ
word64 n = n % 2 ^ 64

-- `value |= ((uint64_t)bytes[i]) << (8 * i)`
pub load_le_loop : Bytes → ℕ → ℕ → ℕ
load_le_loop [] i value = value
load_le_loop (b ∷ bs) i value = load_le_loop bs (i + 1) (bit_or value (word64 (b * 2 ^ (8 * i))))

unfoldable pub load_u64_le : Bytes → ℕ
unfolding load_le_loop
load_u64_le bytes = load_le_loop (take 8 bytes) 0 0

-- `value = (value << 8) | bytes[i]`
pub load_be_loop : Bytes → ℕ → ℕ
load_be_loop [] value = value
load_be_loop (b ∷ bs) value = load_be_loop bs (bit_or (word64 (value * 2 ^ 8)) b)

unfoldable pub load_u64_be : Bytes → ℕ
unfolding load_be_loop
load_u64_be bytes = load_be_loop (take 8 bytes) 0

-- The source has this loop a second time, under another name.
unfoldable pub load_u64_be_bytes : Bytes → ℕ
unfolding load_be_loop
load_u64_be_bytes input = load_be_loop (take 8 input) 0

unfoldable pub store_u32_be : ℕ → Bytes
store_u32_be value =
    byte (value / 2 ^ 24) ∷ byte (value / 2 ^ 16) ∷ byte (value / 2 ^ 8) ∷ byte value ∷ []

-- `for (i = 7; i >= 0; i--)`: the bytes are filled in from the last one, which is the lowest.
pub store_loop : ℕ → ℕ → Bytes → Bytes
store_loop zero value out = out
store_loop (suc i) value out = store_loop i (value / 2 ^ 8) (byte value ∷ out)

unfoldable pub store_u64_be_bytes : ℕ → Bytes
unfolding store_loop
store_u64_be_bytes value = store_loop 8 value []

-- The sizes that libsodium documents for ChaCha20-Poly1305-IETF, and those of the source.
abbrev pub npub_bytes : ℕ
npub_bytes = 12

abbrev pub abytes : ℕ
abytes = 16

abbrev pub hash_len : ℕ
hash_len = 32

abbrev pub secure_max_plain : ℕ
secure_max_plain = 256

abbrev pub secure_protocol_version : ℕ
secure_protocol_version = 2

unfoldable pub make_nonce : ℕ → Bytes
make_nonce counter = replicate (npub_bytes - 8) 0 ++ store_u64_be_bytes counter

pub all_zero : Bytes → Bool
all_zero [] = true
all_zero (b ∷ bs) = if b == 0 then all_zero bs else false

-- `none` is the result -1.
unfoldable pub parse_nonce : Bytes → Option ℕ
unfolding all_zero
parse_nonce nonce =
    if all_zero (take (npub_bytes - 8) nonce)
    then some (load_u64_be_bytes (drop (npub_bytes - 8) nonce))
    else none

unfoldable pub build_aad : Bytes → ℕ → ℕ → ℕ → ℕ → Bytes
build_aad channel_binding direction tag plaintext_len counter =
    channel_binding
    ++ (secure_protocol_version
        ∷ direction
        ∷ (store_u32_be (word32 tag)
            ++ (store_u64_be_bytes plaintext_len ++ store_u64_be_bytes counter)))
