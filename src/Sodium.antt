-- ===== src/Sodium.antt =====
-- The calls of libsodium, which is not part of the repository: its functions are a parameter of the
-- model, and what its documentation promises of them is a record of laws. A status other than 0 is
-- `none`. A hash that the source feeds in parts is the hash of the parts in a row.
pub mod Toy
use distributed_enclave.Common.{ℕ, ◌+◌, ◌≡◌, ◌↔◌, Bool, true, Option, some, length}
use distributed_enclave.Wire.{Bytes, abytes}

pub record Sodium : Type 0 where
  -- sodium_memcmp over two buffers of one length
  pub memcmp : Bytes → Bytes → ℕ
  -- crypto_generichash: output length, key, input
  pub generichash : ℕ → Bytes → Bytes → Bytes
  -- crypto_aead_chacha20poly1305_ietf_{encrypt,decrypt}: key, nonce, associated data, text
  pub encrypt : Bytes → Bytes → Bytes → Bytes → Option Bytes
  pub decrypt : Bytes → Bytes → Bytes → Bytes → Option Bytes
  -- the public key of a signing key; crypto_sign_detached; crypto_sign_verify_detached
  pub sign_public : Bytes → Bytes
  pub sign_detached : Bytes → Bytes → Option Bytes
  pub verify_detached : Bytes → Bytes → Bytes → Bool
  -- the public key of an exchange key; crypto_kx_{server,client}_session_keys give (rx, tx)
  pub kx_public : Bytes → Bytes
  pub server_session_keys : Bytes → Bytes → Bytes → Option (Bytes × Bytes)
  pub client_session_keys : Bytes → Bytes → Bytes → Option (Bytes × Bytes)

pub record IsSodium (s : Sodium) : Type 0 where
  pub memcmp_iff : (a b : Bytes) → length a ≡ length b → (s.memcmp a b ≡ 0) ↔ (a ≡ b)
  pub length-generichash : (n : ℕ) (key input : Bytes) → length (s.generichash n key input) ≡ n
  pub encrypt_total :
      (key nonce aad plain : Bytes) → (c : Bytes) × (s.encrypt key nonce aad plain ≡ some c)
  pub length-encrypt :
      (key nonce aad plain c : Bytes)
      → s.encrypt key nonce aad plain ≡ some c
      → length c ≡ length plain + abytes
  pub decrypt-encrypt :
      (key nonce aad plain c : Bytes)
      → s.encrypt key nonce aad plain ≡ some c
      → s.decrypt key nonce aad c ≡ some plain
  pub sign_total : (message sk : Bytes) → (sig : Bytes) × (s.sign_detached message sk ≡ some sig)
  pub verify-sign :
      (message sk sig : Bytes)
      → s.sign_detached message sk ≡ some sig
      → s.verify_detached sig message (s.sign_public sk) ≡ true
  pub session_keys_agree :
      (server_sk client_sk rx tx : Bytes)
      → s.server_session_keys (s.kx_public server_sk) server_sk (s.kx_public client_sk)
        ≡ some (rx, tx)
      → s.client_session_keys (s.kx_public client_sk) client_sk (s.kx_public server_sk)
        ≡ some (tx, rx)
