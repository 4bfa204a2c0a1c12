-- ===== src/Enroll/Tests.antt =====
-- A run of the handshake with functions in the place of libsodium that meet its laws.
use distributed_enclave.Common.{
  ◌≤◌, ◌≡◌, refl, arith, true, false, length, ◌||◌, ◌&&◌, not, ◌==◌, ◌++◌, List, [], ◌∷◌, Option,
  some, replicate,
}
use distributed_enclave.Wire.{Bytes}
use distributed_enclave.Sodium.Toy.{toy_sodium, toy_sodium-IsSodium}
use distributed_enclave.Channel.{Channel}
use distributed_enclave.Channel.Frames.{Aligned}
use distributed_enclave.Attest.{
  SnpAnswers, report_verified, report_data_arg, verify_attempts, verify_sev_snp_report,
  verify_expected_snp_claims, ea_binding_value, hash_evidence, ea_compute_binding,
  ea_verify_payload,
}
use distributed_enclave.Wire.{load_u64_le, load_u64_be}
use distributed_enclave.Wire.Hex.{parse_hex_exact, hex_nibble, bytes_to_hex}
use distributed_enclave.Enroll.{
  max_report_len, Authenticator, ServerAuth, Keys, open_channel, server_auth, server_keys,
  enroll_round, client_hello, client_keys, client_done, compute_kx_transcript,
  compute_key_confirmation, role_worker, role_central, enroll_all, enrolled,
}
use distributed_enclave.Enroll.Handshake.{own_evidence_ok, client_answer, enroll_round-client_done}
use distributed_enclave.Enroll.Admission.{enroll_round-attested, client_done-authentic}

abbrev context : Bytes
context = replicate 32 9

abbrev client_sk : Bytes
client_sk = replicate 32 5

abbrev server_sk : Bytes
server_sk = replicate 32 6

abbrev owner_sk : Bytes
owner_sk = replicate 32 7

abbrev evidence : Bytes
evidence =
    replicate 8 1
    ++ ((3 ∷ replicate 7 0) ++ (replicate 128 1 ++ (replicate 48 170 ++ replicate 288 1)))

-- A cached certificate, and a program that checks the length of the report data.
abbrev snp : SnpAnswers
snp = record {
  measurement_hex = some (replicate 96 b'a');
  policy_hex = some (replicate 15 b'0' ++ (b'3' ∷ []));
  files = record {
    directory_made = true;
    report_written = true;
    paths_built = true;
    cache_made = true;
    certs_linked = true;
  };
  attempts = λ attempt. record {
    cached = true;
    fetch_ok = false;
    verify_ok = λ rd_arg. length rd_arg == 130;
  };
}

evidence_ok :
    (false
      || (own_evidence_ok toy_sodium context client_sk evidence snp && not (length evidence == 0)))
    ≡ true
unfolding verify_sev_snp_report verify_attempts verify_expected_snp_claims parse_hex_exact
    hex_nibble load_u64_le load_u64_be report_data_arg bytes_to_hex ea_compute_binding
    ea_binding_value
evidence_ok = refl

abbrev auth : Authenticator
auth = client_hello toy_sodium context client_sk evidence

abbrev answer : ServerAuth → Bytes
answer = client_answer toy_sodium context client_sk evidence owner_sk

-- What both sides come to.
abbrev session :
    (finish : Bytes) × (central worker : Channel) × (sent : ServerAuth) × (worker_keys : Keys)
    × (enroll_round toy_sodium false snp context server_sk owner_sk auth answer
        ≡ some (finish, central))
    × (client_keys toy_sodium context client_sk evidence owner_sk sent ≡ some worker_keys)
    × (client_done toy_sodium worker_keys finish ≡ some worker)
    × Aligned central worker
    × Aligned worker central
    × (central.send_nonce_ctr ≡ 0)
    × (worker.send_nonce_ctr ≡ 0)
session =
    enroll_round-client_done toy_sodium toy_sodium-IsSodium context client_sk server_sk owner_sk
      evidence (replicate 32 1) (replicate 32 2) false snp refl evidence_ok (omega arith)

enroll_round-client_done_example :
    (finish : Bytes) × (central worker : Channel) × (sent : ServerAuth) × (worker_keys : Keys)
    × (enroll_round toy_sodium false snp context server_sk owner_sk auth answer
        ≡ some (finish, central))
    × (client_keys toy_sodium context client_sk evidence owner_sk sent ≡ some worker_keys)
    × (client_done toy_sodium worker_keys finish ≡ some worker)
    × Aligned central worker
    × Aligned worker central
    × (central.send_nonce_ctr ≡ 0)
    × (worker.send_nonce_ctr ≡ 0)
enroll_round-client_done_example =
    enroll_round-client_done toy_sodium toy_sodium-IsSodium context client_sk server_sk owner_sk
      evidence (replicate 32 1) (replicate 32 2) false snp refl evidence_ok (omega arith)

enroll_round-attested_example :
    (report_verified toy_sodium snp auth.evidence auth.payload_hdr.binding ≡ true)
    × (1 ≤ length auth.evidence)
    × (length auth.evidence ≤ max_report_len)
    × (ea_verify_payload toy_sodium auth.payload_hdr context auth.client_pk ≡ true)
    × ((keys : Keys) × (sent : ServerAuth) × (server_auth toy_sodium context auth server_sk owner_sk
          ≡ some sent)
        × (server_keys toy_sodium context auth server_sk ≡ some keys)
        × (toy_sodium.memcmp
              (answer sent)
              (compute_key_confirmation toy_sodium keys.confirm_rx keys.transcript_hash role_worker)
            ≡ 0)
        × (session.1 ≡ open_channel keys))
enroll_round-attested_example =
    enroll_round-attested toy_sodium snp context server_sk owner_sk auth answer session.0 session.1
      session.5

client_done-authentic_example :
    (session.4.transcript_hash
      ≡ compute_kx_transcript toy_sodium context client_sk session.3.server_pk
          (ea_compute_binding toy_sodium context client_sk).1
          (hash_evidence toy_sodium evidence))
    × (toy_sodium.verify_detached session.3.signature session.4.transcript_hash owner_sk ≡ true)
    × (toy_sodium.memcmp session.0 (
          compute_key_confirmation toy_sodium session.4.confirm_rx session.4.transcript_hash
            role_central)
        ≡ 0)
    × (session.2 ≡ open_channel session.4)
client_done-authentic_example =
    client_done-authentic toy_sodium context client_sk evidence owner_sk session.3 session.4
      session.0 session.2 session.6 session.7

abbrev rounds : List (Option (Bytes × Channel))
rounds = some (session.0, session.1) ∷ some (session.0, session.1) ∷ []

rounds_enrolled : enroll_all rounds ≡ some (session.1 ∷ session.1 ∷ [])
unfolding enroll_all enrolled
rounds_enrolled = refl
