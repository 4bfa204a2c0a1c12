-- ===== src/Wire/Layout.antt =====
-- Nonces and associated data: what is written is read back, and two layouts agree only if all
-- their fields do.
use distributed_enclave.Common.{
  take-append, append-injective, All-take, length-take, replicate, ℕ, ◌^◌, ◌≤◌, ◌<◌, arith,
}
use distributed_enclave.Common.{[], ◌∷◌, ◌++◌, length, take, All, some}
use distributed_enclave.Common.{◌≡◌, refl, ap, ◌∙◌, sym}
use distributed_enclave.Wire.{
  Bytes, word32, load_u64_be_bytes, store_u32_be, store_u64_be_bytes, make_nonce, parse_nonce,
  build_aad,
}
use distributed_enclave.Wire.Words.{
  IsByte, be_value, load_be_loop-be_value, load-store_u64, store_u64_shape,
}

-- Eight bytes are stored back as they were.
store-be_value :
    (bs : Bytes)
    → length bs ≡ 8
    → All IsByte bs
    → (be_value bs 0 < 2 ^ 64) × (store_u64_be_bytes (be_value bs 0) ≡ bs)
unfolding store_u64_be_bytes
store-be_value (a ∷ b ∷ c ∷ d ∷ e ∷ f ∷ g ∷ h ∷ []) n all = ground arith
store-be_value _ n all = absurd (omega arith)

store-load_u64_bytes :
    (bs : Bytes)
    → 8 ≤ length bs
    → All IsByte bs
    → (load_u64_be_bytes bs < 2 ^ 64) × (store_u64_be_bytes (load_u64_be_bytes bs) ≡ take 8 bs)
unfolding load_u64_be_bytes
store-load_u64_bytes bs n all =
    let all' : All IsByte (take 8 bs) = All-take IsByte 8 bs all in
    let n' : length (take 8 bs) ≡ 8 = omega (arith, length-take 8 bs) in
    rw (load_be_loop-be_value (take 8 bs) 0 0 (omega arith) (omega arith) all')
      (store-be_value (take 8 bs) n' all')

load-store_u64_bytes :
    (v : ℕ) (rest : Bytes) → v < 2 ^ 64 → load_u64_be_bytes (store_u64_be_bytes v ++ rest) ≡ v
unfolding load_u64_be_bytes
load-store_u64_bytes v rest h =
    rw (take-append (store_u64_be_bytes v) rest 8 (store_u64_shape v).1) (
      load_be_loop-be_value (store_u64_be_bytes v) 0 0 (omega arith)
        (omega (arith, store_u64_shape v)) (store_u64_shape v).0
      ∙ load-store_u64 v h)

store_u64-injective :
    (v w : ℕ) → v < 2 ^ 64 → w < 2 ^ 64 → store_u64_be_bytes v ≡ store_u64_be_bytes w → v ≡ w
store_u64-injective v w h k e =
    sym (load-store_u64 v h) ∙ ap (λ bs. be_value bs 0) e ∙ load-store_u64 w k

store_u32-injective : (v w : ℕ) → v < 2 ^ 32 → w < 2 ^ 32 → store_u32_be v ≡ store_u32_be w → v ≡ w
unfolding store_u32_be
store_u32-injective v w h k e = ground arith

-- A nonce that was made from a counter is parsed to that counter.
pub parse_nonce-make_nonce :
    (c : ℕ) (rest : Bytes) → c < 2 ^ 64 → parse_nonce (make_nonce c ++ rest) ≡ some c
unfolding parse_nonce make_nonce
parse_nonce-make_nonce c rest h = ap some (load-store_u64_bytes c rest h)

-- Only the nonce that is made from a counter is parsed to it.
pub parse_nonce_canonical :
    (bs : Bytes) (n : ℕ)
    → 12 ≤ length bs
    → All IsByte bs
    → parse_nonce bs ≡ some n
    → (n < 2 ^ 64) × (take 12 bs ≡ make_nonce n)
unfolding parse_nonce make_nonce
parse_nonce_canonical (a ∷ b ∷ c ∷ d ∷ rest) n h all p = ground (arith, store-load_u64_bytes rest)
parse_nonce_canonical _ n h all p = absurd (omega arith)

pub make_nonce-injective : (a b : ℕ) → a < 2 ^ 64 → b < 2 ^ 64 → make_nonce a ≡ make_nonce b → a ≡ b
unfolding make_nonce
make_nonce-injective a b p q e =
    store_u64-injective a b p q (append-injective (replicate 4 0) (replicate 4 0) _ _ refl e).1

pub length-make_nonce : (c : ℕ) → length (make_nonce c) ≡ 12
unfolding make_nonce store_u64_be_bytes
length-make_nonce c = refl

-- Two layouts with channel bindings of one length are equal only if all their fields are.
pub build_aad-injective :
    (cb cb' : Bytes) (dir dir' tag tag' len len' ctr ctr' : ℕ)
    → length cb ≡ length cb'
    → len < 2 ^ 64
    → len' < 2 ^ 64
    → ctr < 2 ^ 64
    → ctr' < 2 ^ 64
    → build_aad cb dir tag len ctr ≡ build_aad cb' dir' tag' len' ctr'
    → (cb ≡ cb') × (dir ≡ dir') × (word32 tag ≡ word32 tag') × (len ≡ len') × (ctr ≡ ctr')
unfolding build_aad store_u32_be
build_aad-injective cb cb' dir dir' tag tag' len len' ctr ctr' n h h' k k' e =
    let tail = store_u64_be_bytes len ++ store_u64_be_bytes ctr in
    let tail' = store_u64_be_bytes len' ++ store_u64_be_bytes ctr' in
    let (same_binding, e₁) =
      append-injective cb cb' (2 ∷ dir ∷ (store_u32_be (word32 tag) ++ tail))
        (2 ∷ dir' ∷ (store_u32_be (word32 tag') ++ tail')) n e in
    let (same_tag, e₂) =
      append-injective (store_u32_be (word32 tag)) (store_u32_be (word32 tag')) tail tail' refl
        (cc) in
    let (same_len, same_ctr) =
      append-injective (store_u64_be_bytes len) (store_u64_be_bytes len') (store_u64_be_bytes ctr)
        (store_u64_be_bytes ctr') ((store_u64_shape len).1 ∙ sym (store_u64_shape len').1) e₂ in
    (
      same_binding,
      cc,
      store_u32-injective (word32 tag) (word32 tag') (omega arith) (omega arith) same_tag,
      store_u64-injective len len' h h' same_len,
      store_u64-injective ctr ctr' k k' same_ctr,
    )
