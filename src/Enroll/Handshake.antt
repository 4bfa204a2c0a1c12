-- ===== src/Enroll/Handshake.antt =====
-- Both sides of an honest handshake come to one pair of channels.
use distributed_enclave.Common.{
  ◌≤◌, ◌≡◌, refl, arith, Bool, true, false, not, ◌&&◌, ◌||◌, ltb, ◌==◌, length,
}
use distributed_enclave.Common.{[], none, some}
use distributed_enclave.Wire.{Bytes}
use distributed_enclave.Sodium.{Sodium, IsSodium}
use distributed_enclave.Channel.{Channel}
use distributed_enclave.Channel.Frames.{Aligned}
use distributed_enclave.Attest.{
  SnpAnswers, report_verified, hash_evidence, ea_compute_binding, ea_build_payload,
}
use distributed_enclave.Attest.Payload.{ea_verify_payload-ea_build_payload}
use distributed_enclave.Enroll.{
  max_report_len, Authenticator, ServerAuth, Keys, open_channel, attest, server_transcript,
  server_auth, server_keys, server_finish, enroll_round, client_hello, client_keys, client_finish,
  client_done, compute_kx_transcript, compute_key_confirmation, derive_bound_key, traffic_c2w,
  traffic_w2c, confirm_c2w, confirm_w2c, role_worker, role_central,
}

-- The keys of the other side.
abbrev mirror : Keys → Keys
mirror keys = record {
  traffic_rx = keys.traffic_tx;
  traffic_tx = keys.traffic_rx;
  confirm_rx = keys.confirm_tx;
  confirm_tx = keys.confirm_rx;
  transcript_hash = keys.transcript_hash;
}

-- The evidence of a worker is verified against the binding of its own key and context.
abbrev pub own_evidence_ok : Sodium → Bytes → Bytes → Bytes → SnpAnswers → Bool
own_evidence_ok s context client_sk evidence snp =
    report_verified s snp evidence (ea_compute_binding s context (s.kx_public client_sk)).1

module _ (s : Sodium) (law : IsSodium s)
    (context client_sk server_sk owner_sk evidence raw_rx raw_tx : Bytes)
    (made : s.server_session_keys (s.kx_public server_sk) server_sk (s.kx_public client_sk)
      ≡ some (raw_rx, raw_tx)) where
  abbrev auth : Authenticator
  auth = client_hello s context client_sk evidence

  same_transcript :
      server_transcript s context auth (s.kx_public server_sk)
      ≡ compute_kx_transcript s context
          (s.kx_public client_sk)
          (s.kx_public server_sk)
          (ea_compute_binding s context (s.kx_public client_sk)).1
          (hash_evidence s evidence)
  unfolding server_transcript client_hello ea_build_payload
  same_transcript = refl

  attested :
      (skip_attestation : Bool) (snp : SnpAnswers)
      → (skip_attestation
          || (own_evidence_ok s context client_sk evidence snp && not (length evidence == 0)))
        ≡ true
      → attest s skip_attestation snp context auth ≡ true
  unfolding attest client_hello ea_build_payload
  attested skip_attestation snp ok =
      ground
        (arith, ea_verify_payload-ea_build_payload s law context (s.kx_public client_sk) evidence)

  -- The hash that both sides bind the session to, and the keys of the central node.
  abbrev transcript : Bytes
  transcript = server_transcript s context auth (s.kx_public server_sk)

  abbrev keys : Keys
  keys = record {
    traffic_tx = derive_bound_key s raw_tx transcript traffic_c2w;
    traffic_rx = derive_bound_key s raw_rx transcript traffic_w2c;
    confirm_tx = derive_bound_key s raw_tx transcript confirm_c2w;
    confirm_rx = derive_bound_key s raw_rx transcript confirm_w2c;
    transcript_hash = transcript;
  }

  server_side : server_keys s context auth server_sk ≡ some keys
  unfolding server_keys client_hello
  server_side = rw (server_keys, made) refl

  client_side :
      (signature : Bytes)
      → s.sign_detached transcript owner_sk ≡ some signature
      → client_keys s context client_sk evidence
          (s.sign_public owner_sk)
          (record { server_pk = s.kx_public server_sk; signature = signature })
        ≡ some (mirror keys)
  unfolding client_keys server_transcript client_hello ea_build_payload
  client_side signature signed =
      rw
        (
          law.verify-sign transcript owner_sk signature signed,
          law.session_keys_agree server_sk client_sk raw_rx raw_tx made,
        )
        refl

  server_signs :
      (signature : Bytes)
      → s.sign_detached transcript owner_sk ≡ some signature
      → server_auth s context auth server_sk owner_sk
        ≡ some (record { server_pk = s.kx_public server_sk; signature = signature })
  unfolding server_auth
  server_signs signature signed = rw (server_auth, signed) refl

  confirmed : (k : Bytes) → (s.memcmp k k == 0) ≡ true
  confirmed k = ground (arith, (law.memcmp_iff k k refl).1 refl)

  server_confirms :
      server_finish s keys (client_finish s (mirror keys))
      ≡ some (
        compute_key_confirmation s keys.confirm_tx keys.transcript_hash role_central,
        open_channel keys,
      )
  unfolding server_finish client_finish
  server_confirms =
      rw (confirmed (compute_key_confirmation s keys.confirm_rx keys.transcript_hash role_worker))
        refl

  client_confirms :
      client_done s
        (mirror keys)
        (compute_key_confirmation s keys.confirm_tx keys.transcript_hash role_central)
      ≡ some (open_channel (mirror keys))
  unfolding client_done
  client_confirms =
      rw (confirmed (compute_key_confirmation s keys.confirm_tx keys.transcript_hash role_central))
        refl

-- What a worker sends back after the signed key, if it goes on.
abbrev pub client_answer : Sodium → Bytes → Bytes → Bytes → Bytes → ServerAuth → Bytes
client_answer s context client_sk evidence owner_sign_pk sent =
    elim (client_keys s context client_sk evidence owner_sign_pk sent) [
      | none ↦ []
      | some worker_keys ↦ client_finish s worker_keys
    ]

-- When the central node signs with the owner's key and the key exchange of the two key pairs gives
-- session keys, a worker that holds the owner's public key and whose evidence, of at most 16384 bytes,
-- is verified against its own binding (or need not be) is enrolled; it accepts the central node's
-- confirmation; and the two channels fit together in both directions and count from 0.
pub enroll_round-client_done :
    (s : Sodium) (law : IsSodium s)
    (context client_sk server_sk owner_sk evidence raw_rx raw_tx : Bytes) (skip_attestation : Bool)
    (snp : SnpAnswers)
    → s.server_session_keys (s.kx_public server_sk) server_sk (s.kx_public client_sk)
      ≡ some (raw_rx, raw_tx)
    → (skip_attestation
        || (own_evidence_ok s context client_sk evidence snp && not (length evidence == 0)))
      ≡ true
    → length evidence ≤ max_report_len
    → let owner_pk = s.sign_public owner_sk in
      (finish : Bytes) × (central worker : Channel) × (sent : ServerAuth) × (worker_keys : Keys)
      × (enroll_round s skip_attestation snp context server_sk owner_sk
            (client_hello s context client_sk evidence)
            (client_answer s context client_sk evidence owner_pk)
          ≡ some (finish, central))
      × (client_keys s context client_sk evidence owner_pk sent ≡ some worker_keys)
      × (client_done s worker_keys finish ≡ some worker)
      × Aligned central worker
      × Aligned worker central
      × (central.send_nonce_ctr ≡ 0)
      × (worker.send_nonce_ctr ≡ 0)
unfolding enroll_round server_auth client_hello
enroll_round-client_done s law context client_sk server_sk owner_sk evidence raw_rx raw_tx
      skip_attestation snp made ok short =
    let t = transcript s law context client_sk server_sk owner_sk evidence raw_rx raw_tx made in
    let k = keys s law context client_sk server_sk owner_sk evidence raw_rx raw_tx made in
    let (signature, signed) = law.sign_total t owner_sk in
    let sent : ServerAuth = record { server_pk = s.kx_public server_sk; signature = signature } in
    let client =
      client_side s law context client_sk server_sk owner_sk evidence raw_rx raw_tx made signature
        signed in
    let answer : client_answer s context client_sk evidence (s.sign_public owner_sk) sent
        ≡ client_finish s (mirror k) =
      rw (client_answer, client) refl in
    let fits : ltb max_report_len (length evidence) ≡ false = ground arith in
    (
      compute_key_confirmation s k.confirm_tx k.transcript_hash role_central,
      open_channel k,
      open_channel (mirror k),
      sent,
      mirror k,
      rw
          (
            attested s law context client_sk server_sk owner_sk evidence raw_rx raw_tx made
                skip_attestation snp ok,
            server_signs s law context client_sk server_sk owner_sk evidence raw_rx raw_tx made
                signature signed,
            server_side s law context client_sk server_sk owner_sk evidence raw_rx raw_tx made,
            answer,
            server_confirms s law context client_sk server_sk owner_sk evidence raw_rx raw_tx made,
            fits,
          )
          refl,
      client,
      client_confirms s law context client_sk server_sk owner_sk evidence raw_rx raw_tx made,
      record { same_key = refl; same_binding = refl; same_ctr = refl },
      record { same_key = refl; same_binding = refl; same_ctr = refl },
      refl,
      refl,
    )
