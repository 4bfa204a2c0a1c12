-- ===== src/Enroll/Admission.antt =====
-- Who is enrolled, and who is trusted: what each side knows when it goes on.
use distributed_enclave.Common.{◌≤◌, ◌≡◌, refl, ap, arith, true, false, length}
use distributed_enclave.Common.{List, [], ◌∷◌, Option, none, some, Option-cases, inl, inr, map}
use distributed_enclave.Wire.{Bytes}
use distributed_enclave.Sodium.{Sodium}
use distributed_enclave.Channel.{Channel}
use distributed_enclave.Attest.{
  SnpAnswers, report_verified, hash_evidence, ea_compute_binding, ea_verify_payload,
}
use distributed_enclave.Enroll.{
  max_report_len, Authenticator, ServerAuth, Keys, open_channel, attest, server_auth, server_keys,
  server_finish, enroll_round, client_keys, client_done, compute_kx_transcript,
  compute_key_confirmation, role_worker, role_central, enrolled, enroll_all,
}

-- In a build with attestation, a worker is enrolled only with evidence that is not empty, not too
-- long and verified against the binding of its own payload by `verify_sev_snp_report`, with a payload that is bound to its key, and with the right confirmation of
-- the keys of this session.
pub enroll_round-attested :
    (s : Sodium) (snp : SnpAnswers) (context server_sk owner_sign_sk : Bytes) (auth : Authenticator)
    (answer : ServerAuth → Bytes) (finish : Bytes) (central : Channel)
    → enroll_round s false snp context server_sk owner_sign_sk auth answer ≡ some (finish, central)
    → (report_verified s snp auth.evidence auth.payload_hdr.binding ≡ true)
      × (1 ≤ length auth.evidence)
      × (length auth.evidence ≤ max_report_len)
      × (ea_verify_payload s auth.payload_hdr context auth.client_pk ≡ true)
      × ((keys : Keys) × (sent : ServerAuth) × (server_auth s context auth server_sk owner_sign_sk
            ≡ some sent)
          × (server_keys s context auth server_sk ≡ some keys)
          × (s.memcmp
                (answer sent)
                (compute_key_confirmation s keys.confirm_rx keys.transcript_hash role_worker)
              ≡ 0)
          × (central ≡ open_channel keys))
unfolding enroll_round attest server_finish
enroll_round-attested s snp context server_sk owner_sign_sk auth answer finish central e =
    elim (Option-cases (server_auth s context auth server_sk owner_sign_sk)) [
      | inl failed ↦ absurd (ground arith)
      | inr (sent, signed) ↦ elim (Option-cases (server_keys s context auth server_sk)) [
        | inl failed ↦ absurd (ground arith)
        | inr (keys, made) ↦ (
          ground arith,
          ground arith,
          ground arith,
          ground arith,
          (keys, sent, signed, made, ground arith, ground arith),
        )
      ]
    ]

-- A worker goes on only if the transcript, which its own context, key, binding and evidence and the
-- received key make up, is signed with the owner's key, and if the central node confirmed the keys.
pub client_done-authentic :
    (s : Sodium) (context client_sk evidence owner_sign_pk : Bytes) (sent : ServerAuth)
    (keys : Keys) (finish : Bytes) (worker : Channel)
    → client_keys s context client_sk evidence owner_sign_pk sent ≡ some keys
    → client_done s keys finish ≡ some worker
    → (keys.transcript_hash
        ≡ compute_kx_transcript s context
            (s.kx_public client_sk)
            sent.server_pk
            (ea_compute_binding s context (s.kx_public client_sk)).1
            (hash_evidence s evidence))
      × (s.verify_detached sent.signature keys.transcript_hash owner_sign_pk ≡ true)
      × (s.memcmp finish
            (compute_key_confirmation s keys.confirm_rx keys.transcript_hash role_central)
          ≡ 0)
      × (worker ≡ open_channel keys)
unfolding client_keys client_done
client_done-authentic s context client_sk evidence owner_sign_pk sent keys finish worker e d =
    elim (Option-cases (s.client_session_keys (s.kx_public client_sk) client_sk sent.server_pk)) [
      | inl failed ↦ absurd (ground arith)
      | inr (raw, made) ↦ (ground arith, ground arith, ground arith, ground arith)
    ]

enrolled-le : (rounds : List (Option (Bytes × Channel))) → length (enrolled rounds) ≤ length rounds
unfolding enrolled
enrolled-le [] = omega arith
enrolled-le (none ∷ rounds) = omega (arith, enrolled-le rounds)
enrolled-le (some (finish, channel) ∷ rounds) = omega (arith, enrolled-le rounds)

-- A round's worker, if it has one.
abbrev pub worker_of : Option (Bytes × Channel) → Option Channel
worker_of none = none
worker_of (some (finish, channel)) = some channel

enrolled_full :
    (rounds : List (Option (Bytes × Channel)))
    → length (enrolled rounds) ≡ length rounds
    → map worker_of rounds ≡ map some (enrolled rounds)
unfolding enrolled
enrolled_full [] n = refl
enrolled_full (none ∷ rounds) n = absurd (omega (arith, enrolled-le rounds))
enrolled_full (some (finish, channel) ∷ rounds) n =
    ap (◌∷◌ (some channel)) (enrolled_full rounds (omega arith))

-- The benchmark starts only if every round enrolled its worker, and then with all of them, in the
-- order of the rounds.
pub enroll_all_complete :
    (rounds : List (Option (Bytes × Channel))) (workers : List Channel)
    → enroll_all rounds ≡ some workers
    → map worker_of rounds ≡ map some workers
unfolding enroll_all
enroll_all_complete rounds workers e =
    let same : workers ≡ enrolled rounds = ground arith in
    let n : length (enrolled rounds) ≡ length rounds = ground arith in
    rw same (enrolled_full rounds n)
