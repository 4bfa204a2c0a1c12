-- ===== src/Channel/Frames.antt =====
-- One frame: what `seal` writes, `unseal` on the other side accepts, and what `unseal` accepts.
use distributed_enclave.Common.{ℕ, ◌+◌, ◌^◌, ◌%◌, ◌<◌, arith, ◌≡◌, ap, ◌∙◌}
use distributed_enclave.Common.{◌≢◌, true, ◌++◌, length, take, drop, some}
use distributed_enclave.Common.{take-append, drop-append, take_all, length-append}
use distributed_enclave.Common.Int.{pos}
use distributed_enclave.Wire.{Bytes, abytes, npub_bytes, make_nonce, parse_nonce, build_aad}
use distributed_enclave.Wire.Layout.{parse_nonce-make_nonce, length-make_nonce}
use distributed_enclave.Sodium.{Sodium, IsSodium}
use distributed_enclave.Receive.{Arrival}
use distributed_enclave.Channel.{Channel, sent, accepted, rejected, uint64_max, seal, unseal}

-- A sender and a receiver that hold the same key and binding, and the same number.
pub record Aligned (a b : Channel) : Type 0 where
  pub same_key : a.send_key ≡ b.recv_key
  pub same_binding : a.channel_binding ≡ b.channel_binding
  pub same_ctr : a.send_nonce_ctr ≡ b.recv_nonce_ctr

abbrev pub after_send : Channel → Channel
after_send ch = record ch { send_nonce_ctr = ch.send_nonce_ctr + 1 }

abbrev pub after_recv : Channel → Channel
after_recv ch = record ch { recv_nonce_ctr = (ch.recv_nonce_ctr + 1) % 2 ^ 64 }

-- The message arrives whole, and MPI reports so.
abbrev pub whole : Bytes → Arrival
whole frame = record {
  recv_result = 0;
  count_result = 0;
  received_count = pos (length frame);
  bytes = frame;
}

module _ (s : Sodium) (law : IsSodium s) (direction : ℕ) where
  seal_lem :
      (a : Channel) (tag : ℕ) (plaintext c : Bytes)
      → let aad = build_aad a.channel_binding direction tag (length plaintext) a.send_nonce_ctr in
        s.encrypt a.send_key (make_nonce a.send_nonce_ctr) aad plaintext ≡ some c
        → seal s direction a tag plaintext true
          ≡ sent (make_nonce a.send_nonce_ctr ++ c) (after_send a)
  unfolding seal
  seal_lem a tag plaintext c e = ground (arith, law.length-encrypt _ _ _ _ c e)

  -- The three parts that `unseal` reads of a frame.
  frame_parts :
      (n : ℕ) (c : Bytes) (len : ℕ)
      → n < 2 ^ 64
      → length c ≡ len + abytes
      → (parse_nonce (make_nonce n ++ c) ≡ some n)
        × (take npub_bytes (make_nonce n ++ c) ≡ make_nonce n)
        × (take (len + abytes) (drop npub_bytes (make_nonce n ++ c)) ≡ c)
  frame_parts n c len h e = (
    parse_nonce-make_nonce n c h,
    take-append (make_nonce n) c 12 (length-make_nonce n),
    ap (take (len + abytes)) (drop-append (make_nonce n) c 12 (length-make_nonce n))
        ∙ take_all c (len + abytes) (omega arith),
  )

  unseal_lem :
      (a b : Channel) (tag : ℕ) (plaintext c : Bytes)
      → Aligned a b
      → a.send_nonce_ctr < 2 ^ 64
      → let aad = build_aad a.channel_binding direction tag (length plaintext) a.send_nonce_ctr in
        s.encrypt a.send_key (make_nonce a.send_nonce_ctr) aad plaintext ≡ some c
        → unseal s direction b tag (length plaintext) (make_nonce a.send_nonce_ctr ++ c)
          ≡ accepted plaintext (after_recv b)
  unfolding unseal
  unseal_lem a b tag plaintext c al h e = ground (
    arith,
    frame_parts a.send_nonce_ctr c (length plaintext) h (law.length-encrypt _ _ _ _ c e),
    law.decrypt-encrypt _ _ _ _ c e,
  )

  -- What one side seals, the other side opens, and both counters move on by one.
  pub seal-unseal :
      (a b : Channel) (tag : ℕ) (plaintext : Bytes)
      → Aligned a b
      → a.send_nonce_ctr < uint64_max
      → (frame : Bytes) × (seal s direction a tag plaintext true ≡ sent frame (after_send a))
        × (length frame ≡ npub_bytes + length plaintext + abytes)
        × (unseal s direction b tag (length plaintext) frame ≡ accepted plaintext (after_recv b))
  seal-unseal a b tag plaintext al room =
      let n = a.send_nonce_ctr in
      let aad = build_aad a.channel_binding direction tag (length plaintext) n in
      let (c, e) = law.encrypt_total a.send_key (make_nonce n) aad plaintext in
      (
        make_nonce n ++ c,
        seal_lem a tag plaintext c e,
        omega (
          arith,
          length-append (make_nonce n) c,
          length-make_nonce n,
          law.length-encrypt _ _ _ _ c e,
        ),
        unseal_lem a b tag plaintext c al (omega arith) e,
      )

-- The counter that an accepted frame carries is the expected one.
module _ (s : Sodium) (direction : ℕ) where
  pub unseal-accepted :
      (b : Channel) (tag plain_len : ℕ) (frame plaintext : Bytes) (b' : Channel)
      → unseal s direction b tag plain_len frame ≡ accepted plaintext b'
      → (parse_nonce frame ≡ some b.recv_nonce_ctr)
        × (b' ≡ after_recv b)
        × (length plaintext ≡ plain_len)
  unfolding unseal
  unseal-accepted b tag plain_len frame plaintext b' e = ground arith

  -- A frame whose counter is not the expected one is turned down.
  pub unseal_wrong_ctr :
      (b : Channel) (tag plain_len n : ℕ) (frame : Bytes)
      → parse_nonce frame ≡ some n
      → n ≢ b.recv_nonce_ctr
      → unseal s direction b tag plain_len frame ≡ rejected
  unfolding unseal
  unseal_wrong_ctr b tag plain_len n frame e ne = ground arith
