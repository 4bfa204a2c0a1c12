-- ===== src/Sodium/Toy.antt =====
-- Functions that satisfy the laws of the interface, without secrecy: they show that the laws can be
-- met, and the examples run on them.
use distributed_enclave.Common.{ℕ, ◌+◌, ◌-◌, ◌≡◌, refl, ap, arith, ◌↔◌, true}
use distributed_enclave.Common.{some, [], ◌∷◌, ◌++◌, length, take, replicate, ◌==◌}
use distributed_enclave.Common.{if◌then◌else◌, length-replicate, length-append, take-append}
use distributed_enclave.Wire.{Bytes}
use distributed_enclave.Sodium.{Sodium, IsSodium}

-- 0 for equal buffers.
abbrev pub differ_bytes : Bytes → Bytes → ℕ
differ_bytes [] [] = 0
differ_bytes [] (y ∷ ys) = 1
differ_bytes (x ∷ xs) [] = 1
differ_bytes (x ∷ xs) (y ∷ ys) = if x == y then differ_bytes xs ys else 1

differ_bytes_iff : (xs ys : Bytes) → (differ_bytes xs ys ≡ 0) ↔ (xs ≡ ys)
differ_bytes_iff [] [] = ((λ _. refl), λ _. refl)
differ_bytes_iff [] (y ∷ ys) = ground arith
differ_bytes_iff (x ∷ xs) [] = ground arith
differ_bytes_iff (x ∷ xs) (y ∷ ys) = (
  (λ h. ground (arith, (differ_bytes_iff xs ys).0)),
  λ h. ground (arith, (differ_bytes_iff xs ys).1),
)

abbrev pub toy_sodium : Sodium
toy_sodium = record {
  memcmp = differ_bytes;
  generichash = λ n key input. replicate n 7;
  encrypt = λ key nonce aad plain. some (plain ++ replicate 16 0);
  decrypt = λ key nonce aad c. some (take (length c - 16) c);
  sign_public = λ sk. sk;
  sign_detached = λ message sk. some message;
  verify_detached = λ sig message pk. true;
  kx_public = λ sk. sk;
  server_session_keys = λ pk sk peer. some (replicate 32 1, replicate 32 2);
  client_session_keys = λ pk sk peer. some (replicate 32 2, replicate 32 1);
}

toy_length :
    (plain c : Bytes) → some (plain ++ replicate 16 0) ≡ some c → length c ≡ length plain + 16
toy_length plain c e =
    let tagged : c ≡ plain ++ replicate 16 0 = cc in
    rw tagged (length-append plain (replicate 16 0))

toy_decrypt :
    (plain c : Bytes)
    → some (plain ++ replicate 16 0) ≡ some c
    → some (take (length c - 16) c) ≡ some plain
toy_decrypt plain c e =
    let tagged : c ≡ plain ++ replicate 16 0 = cc in
    rw tagged (
      ap some (
        take-append plain (replicate 16 0) (length (plain ++ replicate 16 0) - 16)
          (omega (arith, length-append plain (replicate 16 0)))))

pub toy_sodium-IsSodium : IsSodium toy_sodium
toy_sodium-IsSodium = record {
  memcmp_iff = λ a b _. differ_bytes_iff a b;
  length-generichash = λ n key input. length-replicate n 7;
  encrypt_total = λ key nonce aad plain. (plain ++ replicate 16 0, refl);
  length-encrypt = λ key nonce aad plain c e. toy_length plain c e;
  decrypt-encrypt = λ key nonce aad plain c e. toy_decrypt plain c e;
  sign_total = λ message sk. (message, refl);
  verify-sign = λ message sk sig e. refl;
  session_keys_agree = λ server_sk client_sk rx tx e. cc;
}
