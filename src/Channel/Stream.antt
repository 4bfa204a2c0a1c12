-- ===== src/Channel/Stream.antt =====
-- Sequences of messages on one channel, small and large, sealed and plain, in any order.
use distributed_enclave.Common.{ℕ, ◌+◌, ◌-◌, ◌≤◌, ◌<◌, arith, ◌≡◌, refl, ap, ◌∙◌, sym, map}
use distributed_enclave.Common.{
  ◌≢◌, Bool, true, false, List, [], ◌∷◌, length, take, All, Option, none, some, if◌then◌else◌,
}
use distributed_enclave.Common.{Bool-cases, ◌⊎◌, Option-cases, inl, inr, take-append}
use mathlib.Core.Path.{subst}
use distributed_enclave.Wire.{Bytes, abytes, npub_bytes, secure_max_plain, make_nonce, build_aad}
use distributed_enclave.Wire.Layout.{make_nonce-injective, length-make_nonce}
use distributed_enclave.Sodium.{Sodium, IsSodium}
use distributed_enclave.Receive.{MpiErrors, Arrival}
use distributed_enclave.Channel.{
  Channel, Sent, sent, aborted, Received, accepted, rejected, died, uint64_max, int_max, seal,
  workload_send_small, workload_recv_small, send_bulk, recv_bulk,
}
use distributed_enclave.Channel.Frames.{Aligned, after_send, whole}
use distributed_enclave.Channel.Transfer.{
  next_sender, next_receiver, recv_small-send_small, recv_bulk-send_bulk,
}

pub data Message : Type 0 where
  small : Bytes → ℕ → Bool → Message
  bulk : Bytes → ℕ → Bool → Message

abbrev pub contents : Message → Bytes
contents (small plaintext tag encrypt) = plaintext
contents (bulk plaintext tag encrypt) = plaintext

abbrev pub is_sealed : Message → Bool
is_sealed (small plaintext tag encrypt) = encrypt
is_sealed (bulk plaintext tag encrypt) = encrypt

abbrev pub Fits : Message → Type 0
Fits (small plaintext tag encrypt) = length plaintext ≤ secure_max_plain
Fits (bulk plaintext tag encrypt) = length plaintext ≤ int_max - npub_bytes - abytes

module _ (s : Sodium) (direction : ℕ) where
  abbrev pub send_message : Channel → Message → Sent
  send_message ch (small p tag encrypt) = workload_send_small s direction ch p tag encrypt true
  send_message ch (bulk p tag encrypt) = send_bulk s direction ch p tag encrypt true true

  abbrev pub recv_message : MpiErrors → Channel → Message → Arrival → Received
  recv_message m ch (small p tag encrypt) =
      workload_recv_small s m direction ch (length p) tag encrypt
  recv_message m ch (bulk p tag encrypt) = recv_bulk s m direction ch (length p) tag encrypt true

  -- The sealed frames that leave, in order, until a send aborts.
  abbrev pub sealed_frames : Channel → List Message → List Bytes
  sealed_frames ch [] = []
  sealed_frames ch (msg ∷ msgs) = elim (send_message ch msg) [
    | aborted ↦ []
    | sent frame ch' ↦
        (let rest = sealed_frames ch' msgs in if is_sealed msg then frame ∷ rest else rest)
  ]

-- What arrives, when each frame is handed over whole and in order.
abbrev pub transmit :
    Sodium → MpiErrors → ℕ → Channel → Channel → List Message → Option (List Bytes)
transmit s m direction a b [] = some []
transmit s m direction a b (msg ∷ msgs) = elim (send_message s direction a msg) [
  | aborted ↦ none
  | sent frame a' ↦ elim (recv_message s direction m b msg (whole frame)) [
    | accepted p b' ↦
        (let rest = transmit s m direction a' b' msgs in
          elim rest [ none ↦ none | some ps ↦ some (p ∷ ps) ])
    | rejected ↦ none
    | died ↦ none
  ]
]

module _ (s : Sodium) (law : IsSodium s) (m : MpiErrors) (direction : ℕ) where
  message_delivers :
      (a b : Channel) (msg : Message)
      → Aligned a b
      → a.send_nonce_ctr < uint64_max
      → Fits msg
      → (frame : Bytes) × (send_message s direction a msg
          ≡ sent frame (next_sender (is_sealed msg) a))
        × (recv_message s direction m b msg (whole frame)
            ≡ accepted (contents msg) (next_receiver (is_sealed msg) b))
        × Aligned (next_sender (is_sealed msg) a) (next_receiver (is_sealed msg) b)
  message_delivers a b (small p tag encrypt) al room fits =
      recv_small-send_small s law m direction a b tag p encrypt al room fits
  message_delivers a b (bulk p tag encrypt) al room fits =
      recv_bulk-send_bulk s law m direction a b tag p encrypt al room fits

  next_ctr :
      (a : Channel) (sealed : Bool) → (next_sender sealed a).send_nonce_ctr ≤ a.send_nonce_ctr + 1
  next_ctr a true = omega arith
  next_ctr a false = omega arith

  -- On aligned sides, of any sequence of small messages of at most 256 bytes and bulk messages of at
  -- most INT_MAX - 28 bytes, sealed or plain, with a number left for each, every message is accepted
  -- with its bytes, in order, when the calls of MPI and malloc succeed and each frame is handed over
  -- whole and in the order of the sends.
  pub transmit_delivers :
      (a b : Channel) (msgs : List Message)
      → Aligned a b
      → a.send_nonce_ctr + length msgs ≤ uint64_max
      → All Fits msgs
      → transmit s m direction a b msgs ≡ some (map contents msgs)
  transmit_delivers a b [] al room fits = refl
  transmit_delivers a b (msg ∷ msgs) al room fits =
      let (frame, e, r, al') = message_delivers a b msg al (omega arith) fits.0 in
      let a' = next_sender (is_sealed msg) a in
      let b' = next_receiver (is_sealed msg) b in
      let room' : a'.send_nonce_ctr + length msgs ≤ uint64_max =
        omega (arith, next_ctr a (is_sealed msg)) in
      ground (arith, e, r, transmit_delivers a' b' msgs al' room' fits.1)

-- The nonces of the frames are those of rising numbers.
abbrev Rising : ℕ → List Bytes → Type 0
Rising lo [] = Unit
Rising lo (f ∷ fs) =
    (n : ℕ) × (lo ≤ n) × (n < uint64_max) × (take npub_bytes f ≡ make_nonce n) × Rising (n + 1) fs

abbrev pub AllDistinct : List Bytes → Type 0
AllDistinct [] = Unit
AllDistinct (x ∷ xs) = All (λ y. x ≢ y) xs × AllDistinct xs

Sent-cases : (r : Sent) → ((frame : Bytes) × (a : Channel) × (r ≡ sent frame a)) ⊎ (r ≡ aborted)
Sent-cases (sent frame a) = inl (frame, a, refl)
Sent-cases aborted = inr refl

module _ (s : Sodium) (direction : ℕ) where
  seal-sent :
      (a a' : Channel) (tag : ℕ) (p frame : Bytes)
      → seal s direction a tag p true ≡ sent frame a'
      → (take npub_bytes frame ≡ make_nonce a.send_nonce_ctr) × (a' ≡ after_send a)
  unfolding seal
  seal-sent a a' tag p frame e =
      let n = a.send_nonce_ctr in
      elim (Option-cases (
        s.encrypt a.send_key (make_nonce n) (build_aad a.channel_binding direction tag (length p) n)
          p)) [
            | inl failed ↦ ground arith
            | inr (c, done) ↦ ground (arith, take-append (make_nonce n) c 12 (length-make_nonce n))
          ]

  send_message-sealed :
      (a a' : Channel) (msg : Message) (frame : Bytes)
      → send_message s direction a msg ≡ sent frame a'
      → is_sealed msg ≡ true
      → (take npub_bytes frame ≡ make_nonce a.send_nonce_ctr)
        × (a' ≡ after_send a)
        × (a.send_nonce_ctr ≢ uint64_max)
  unfolding workload_send_small send_bulk
  send_message-sealed a a' (small p tag encrypt) frame e h =
      ground (arith, seal-sent a a' tag p frame)
  send_message-sealed a a' (bulk p tag encrypt) frame e h =
      ground (arith, seal-sent a a' tag p frame)

  send_message-plain :
      (a a' : Channel) (msg : Message) (frame : Bytes)
      → send_message s direction a msg ≡ sent frame a'
      → is_sealed msg ≡ false
      → a' ≡ a
  unfolding workload_send_small send_bulk
  send_message-plain a a' (small p tag encrypt) frame e h = ground arith
  send_message-plain a a' (bulk p tag encrypt) frame e h = ground arith

  frames_after :
      (a a' : Channel) (msg : Message) (msgs : List Message) (frame : Bytes)
      → send_message s direction a msg ≡ sent frame a'
      → sealed_frames s direction a (msg ∷ msgs) ≡ (
          if is_sealed msg
          then frame ∷ sealed_frames s direction a' msgs
          else sealed_frames s direction a' msgs)
  frames_after a a' msg msgs frame e = ground arith

  frames_aborted :
      (a : Channel) (msg : Message) (msgs : List Message)
      → send_message s direction a msg ≡ aborted
      → sealed_frames s direction a (msg ∷ msgs) ≡ []
  frames_aborted a msg msgs e = ground arith

  sealed_frames-Rising :
      (msgs : List Message) (a : Channel)
      → a.send_nonce_ctr ≤ uint64_max
      → Rising a.send_nonce_ctr (sealed_frames s direction a msgs)
  sealed_frames-Rising [] a fits = tt
  sealed_frames-Rising (msg ∷ msgs) a fits = elim (Sent-cases (send_message s direction a msg)) [
    | inr e ↦ rw (frames_aborted a msg msgs e) tt
    | inl (frame, a', e) ↦ elim (Bool-cases (is_sealed msg)) [
      | inl h ↦
          (let (nonce, moved, room) = send_message-sealed a a' msg frame e h in
            let rest : Rising a'.send_nonce_ctr (sealed_frames s direction a' msgs) =
              sealed_frames-Rising msgs a' (rw moved (omega arith)) in
            rw (frames_after a a' msg msgs frame e, h)
              (
                a.send_nonce_ctr,
                omega arith,
                omega arith,
                nonce,
                subst (λ k. Rising k (sealed_frames s direction a' msgs))
                    (ap (λ ch. ch.send_nonce_ctr) moved) rest,
              ))
      | inr h ↦
          (let same = send_message-plain a a' msg frame e h in
            rw (frames_after a a' msg msgs frame e, h, same) (sealed_frames-Rising msgs a fits))
    ]
  ]

Rising-fresh :
    (lo n : ℕ) (fs : List Bytes) (x : Bytes)
    → x ≡ make_nonce n
    → n < lo
    → n < uint64_max
    → Rising lo fs
    → All (λ y. x ≢ y) (map (take npub_bytes) fs)
Rising-fresh lo n [] x e below h r = tt
Rising-fresh lo n (f ∷ fs) x e below h (k, above, room, nonce, rest) = (
  λ same.
      absurd (
        omega (arith, make_nonce-injective n k (omega arith) (omega arith) (sym e ∙ same ∙ nonce))),
  Rising-fresh (k + 1) n fs x e (omega arith) h rest,
)

Rising-AllDistinct :
    (lo : ℕ) (fs : List Bytes) → Rising lo fs → AllDistinct (map (take npub_bytes) fs)
Rising-AllDistinct lo [] r = tt
Rising-AllDistinct lo (f ∷ fs) (k, above, room, nonce, rest) = (
  Rising-fresh (k + 1) k fs (take npub_bytes f) nonce (omega arith) room rest,
  Rising-AllDistinct (k + 1) fs rest,
)

-- Whatever is sent on a channel, in whatever order, no two sealed frames carry one nonce, so that
-- no pair of key and nonce is used twice.
pub sealed_frames-AllDistinct :
    (s : Sodium) (direction : ℕ) (a : Channel) (msgs : List Message)
    → a.send_nonce_ctr ≤ uint64_max
    → AllDistinct (map (take npub_bytes) (sealed_frames s direction a msgs))
sealed_frames-AllDistinct s direction a msgs fits =
    Rising-AllDistinct a.send_nonce_ctr _ (sealed_frames-Rising s direction msgs a fits)
