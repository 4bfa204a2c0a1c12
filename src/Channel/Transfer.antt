-- ===== src/Channel/Transfer.antt =====
-- Whole messages, small and large: what one side sends the other side receives, and a receiver
-- takes each number once.
use distributed_enclave.Common.{ℕ, ◌+◌, ◌-◌, ◌^◌, ◌%◌, ◌≤◌, ◌<◌, arith, ◌≡◌}
use distributed_enclave.Common.{◌≢◌, Bool, true, false, length, some, if◌then◌else◌}
use native.Mathlib.Nat.{mod-eq_of_lt}
use distributed_enclave.Wire.{Bytes, abytes, npub_bytes, secure_max_plain, parse_nonce}
use distributed_enclave.Sodium.{Sodium, IsSodium}
use distributed_enclave.Receive.{MpiErrors, Arrival, npb_recv_exact}
use distributed_enclave.Channel.{
  Channel, Sent, sent, Received, accepted, uint64_max, int_max, secure_recv, workload_send_small,
  workload_recv_small, send_bulk, recv_bulk, mpi_recv_f,
}
use distributed_enclave.Channel.Frames.{
  Aligned, after_send, after_recv, whole, seal-unseal, unseal-accepted,
}

-- The channels after a message: the numbers move on if it was sealed.
abbrev pub next_sender : Bool → Channel → Channel
next_sender encrypt a = if encrypt then after_send a else a

abbrev pub next_receiver : Bool → Channel → Channel
next_receiver encrypt b = if encrypt then after_recv b else b

next-Aligned :
    (a b : Channel) (encrypt : Bool)
    → Aligned a b
    → a.send_nonce_ctr < uint64_max
    → Aligned (next_sender encrypt a) (next_receiver encrypt b)
next-Aligned a b true al room =
    let next : (b.recv_nonce_ctr + 1) % 2 ^ 64 ≡ b.recv_nonce_ctr + 1 =
      mod-eq_of_lt (omega (arith, al.same_ctr)) in
    record {
      same_key = al.same_key;
      same_binding = al.same_binding;
      same_ctr = omega (arith, al.same_ctr, next);
    }
next-Aligned a b false al room = al

-- Both sides of one message succeed, the plaintext arrives, and the sides stay aligned.
abbrev pub Delivers : Sent → (Arrival → Received) → Bytes → Channel → Channel → Type 0
Delivers sending receiving plaintext a b =
    (frame : Bytes) × (sending ≡ sent frame a)
    × (receiving (whole frame) ≡ accepted plaintext b)
    × Aligned a b

module _ (s : Sodium) (law : IsSodium s) (m : MpiErrors) (direction : ℕ) where
  -- A small message of at most 256 bytes, sealed or plain, that one of two aligned sides sends with a
  -- number left and that arrives whole, is accepted by the other side with the same bytes, and the
  -- two sides stay aligned.
  pub recv_small-send_small :
      (a b : Channel) (tag : ℕ) (plaintext : Bytes) (encrypt : Bool)
      → Aligned a b
      → a.send_nonce_ctr < uint64_max
      → length plaintext ≤ secure_max_plain
      → Delivers
          (workload_send_small s direction a plaintext tag encrypt true)
          (workload_recv_small s m direction b (length plaintext) tag encrypt)
          plaintext
          (next_sender encrypt a)
          (next_receiver encrypt b)
  unfolding workload_send_small workload_recv_small npb_recv_exact
  recv_small-send_small a b tag plaintext false al room fits =
      (plaintext, ground arith, ground arith, al)
  recv_small-send_small a b tag plaintext true al room fits =
      let (frame, e, n, r) = seal-unseal s law direction a b tag plaintext al room in
      (frame, ground arith, ground arith, next-Aligned a b true al room)

  -- The same of a bulk message whose frame fits into the `int` count of MPI.
  pub recv_bulk-send_bulk :
      (a b : Channel) (tag : ℕ) (bulk : Bytes) (encrypt : Bool)
      → Aligned a b
      → a.send_nonce_ctr < uint64_max
      → length bulk ≤ int_max - npub_bytes - abytes
      → Delivers
          (send_bulk s direction a bulk tag encrypt true true)
          (recv_bulk s m direction b (length bulk) tag encrypt true)
          bulk
          (next_sender encrypt a)
          (next_receiver encrypt b)
  unfolding send_bulk recv_bulk npb_recv_exact
  recv_bulk-send_bulk a b tag bulk false al room fits = (bulk, ground arith, ground arith, al)
  recv_bulk-send_bulk a b tag bulk true al room fits =
      let (frame, e, n, r) = seal-unseal s law direction a b tag bulk al room in
      (frame, ground arith, ground arith, next-Aligned a b true al room)

module _ (s : Sodium) (m : MpiErrors) (direction : ℕ) where
  -- What a successful receive tells of the frame and of the channel.
  pub secure_recv-accepted :
      (b : Channel) (len tag : ℕ) (arrival : Arrival) (plaintext : Bytes) (b' : Channel)
      → secure_recv s m direction b len tag arrival ≡ accepted plaintext b'
      → (parse_nonce arrival.bytes ≡ some b.recv_nonce_ctr)
        × (b' ≡ after_recv b)
        × (length plaintext ≡ len)
  unfolding secure_recv mpi_recv_f
  secure_recv-accepted b len tag arrival plaintext b' e =
      ground (arith, unseal-accepted s direction b tag len arrival.bytes plaintext b')

  -- A frame that was accepted while the number expected was below UINT64_MAX, so that the number did
  -- not wrap around behind it, is not accepted again by a receiver whose number is at least the one
  -- behind it: not at once, not later, not with another length or tag.
  pub secure_recv_replay :
      (b b' later : Channel) (len tag len' tag' : ℕ) (arrival : Arrival) (plaintext : Bytes)
      → b.recv_nonce_ctr < uint64_max
      → secure_recv s m direction b len tag arrival ≡ accepted plaintext b'
      → b'.recv_nonce_ctr ≤ later.recv_nonce_ctr
      → (plaintext' : Bytes) (after : Channel)
      → secure_recv s m direction later len' tag' arrival ≢ accepted plaintext' after
  secure_recv_replay b b' later len tag len' tag' arrival plaintext below e passed plaintext' after
        e' =
      let (n, moved, _) = secure_recv-accepted b len tag arrival plaintext b' e in
      let (n', _, _) = secure_recv-accepted later len' tag' arrival plaintext' after e' in
      let next : (b.recv_nonce_ctr + 1) % 2 ^ 64 ≡ b.recv_nonce_ctr + 1 =
        mod-eq_of_lt (omega arith) in
      ground (arith, next)
