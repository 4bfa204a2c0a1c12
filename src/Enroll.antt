-- ===== src/Enroll.antt =====
-- Enrollment of a worker: the handshake in `main` of src/master_npb.c and of src/worker_npb.c, and
-- the key derivation that both files have. Random values (context, key pairs) are arguments, and so are
-- the messages of the other side, which `npb_recv_exact` has received whole.
pub mod Handshake
pub mod Admission
mod Tests
use distributed_enclave.Common.{
  ℕ, zero, suc, ◌+◌, Bool, true, false, not, ◌&&◌, ◌||◌, ltb, ◌==◌, length,
}
use distributed_enclave.Common.{List, [], ◌∷◌, ◌++◌, Option, none, some, if◌then◌else◌}
use distributed_enclave.Wire.{Bytes, hash_len}
use distributed_enclave.Sodium.{Sodium}
use distributed_enclave.Channel.{Channel}
use distributed_enclave.Attest.{
  SnpAnswers, report_verified, EaPayloadHdr, hash_evidence, ea_compute_binding, ea_verify_payload,
  ea_build_payload,
}

abbrev pub keyb : ℕ
keyb = 32

abbrev pub max_report_len : ℕ
max_report_len = 16384

-- "PPDPC-OPENMPI-KX-V3"
abbrev pub kx_transcript_domain : Bytes
kx_transcript_domain =
    b'P' ∷ b'P' ∷ b'D' ∷ b'P' ∷ b'C' ∷ b'-' ∷ b'O' ∷ b'P' ∷ b'E' ∷ b'N' ∷ b'M' ∷ b'P' ∷ b'I' ∷ b'-'
    ∷ b'K' ∷ b'X' ∷ b'-' ∷ b'V' ∷ b'3' ∷ []

-- "PPDPC-OPENMPI-KDF-V2"
abbrev pub kdf_domain : Bytes
kdf_domain =
    b'P' ∷ b'P' ∷ b'D' ∷ b'P' ∷ b'C' ∷ b'-' ∷ b'O' ∷ b'P' ∷ b'E' ∷ b'N' ∷ b'M' ∷ b'P' ∷ b'I' ∷ b'-'
    ∷ b'K' ∷ b'D' ∷ b'F' ∷ b'-' ∷ b'V' ∷ b'2' ∷ []

-- "PPDPC-OPENMPI-FINISHED-V2"
abbrev pub finished_domain : Bytes
finished_domain =
    b'P' ∷ b'P' ∷ b'D' ∷ b'P' ∷ b'C' ∷ b'-' ∷ b'O' ∷ b'P' ∷ b'E' ∷ b'N' ∷ b'M' ∷ b'P' ∷ b'I' ∷ b'-'
    ∷ b'F' ∷ b'I' ∷ b'N' ∷ b'I' ∷ b'S' ∷ b'H' ∷ b'E' ∷ b'D' ∷ b'-' ∷ b'V' ∷ b'2' ∷ []

-- "traffic:c2w"
abbrev pub traffic_c2w : Bytes
traffic_c2w = b't' ∷ b'r' ∷ b'a' ∷ b'f' ∷ b'f' ∷ b'i' ∷ b'c' ∷ b':' ∷ b'c' ∷ b'2' ∷ b'w' ∷ []

-- "traffic:w2c"
abbrev pub traffic_w2c : Bytes
traffic_w2c = b't' ∷ b'r' ∷ b'a' ∷ b'f' ∷ b'f' ∷ b'i' ∷ b'c' ∷ b':' ∷ b'w' ∷ b'2' ∷ b'c' ∷ []

-- "confirm:c2w"
abbrev pub confirm_c2w : Bytes
confirm_c2w = b'c' ∷ b'o' ∷ b'n' ∷ b'f' ∷ b'i' ∷ b'r' ∷ b'm' ∷ b':' ∷ b'c' ∷ b'2' ∷ b'w' ∷ []

-- "confirm:w2c"
abbrev pub confirm_w2c : Bytes
confirm_w2c = b'c' ∷ b'o' ∷ b'n' ∷ b'f' ∷ b'i' ∷ b'r' ∷ b'm' ∷ b':' ∷ b'w' ∷ b'2' ∷ b'c' ∷ []

-- "worker"
abbrev pub role_worker : Bytes
role_worker = b'w' ∷ b'o' ∷ b'r' ∷ b'k' ∷ b'e' ∷ b'r' ∷ []

-- "central-node"
abbrev pub role_central : Bytes
role_central =
    b'c' ∷ b'e' ∷ b'n' ∷ b't' ∷ b'r' ∷ b'a' ∷ b'l' ∷ b'-' ∷ b'n' ∷ b'o' ∷ b'd' ∷ b'e' ∷ []

unfoldable pub compute_kx_transcript : Sodium → Bytes → Bytes → Bytes → Bytes → Bytes → Bytes
compute_kx_transcript s context client_pk server_pk binding evidence_hash =
    s.generichash hash_len [] (
      kx_transcript_domain ++ (context ++ (client_pk ++ (server_pk ++ (binding ++ evidence_hash)))))

unfoldable pub derive_bound_key : Sodium → Bytes → Bytes → Bytes → Bytes
derive_bound_key s raw_key transcript_hash label =
    s.generichash keyb raw_key (kdf_domain ++ (label ++ transcript_hash))

unfoldable pub compute_key_confirmation : Sodium → Bytes → Bytes → Bytes → Bytes
compute_key_confirmation s key transcript_hash role =
    s.generichash hash_len key (finished_domain ++ (role ++ transcript_hash))

-- `struct ea_auth_hdr` and the evidence that follows it.
pub record Authenticator : Type 0 where
  pub client_pk : Bytes
  pub payload_hdr : EaPayloadHdr
  pub evidence : Bytes

-- `struct kx_server_auth`.
pub record ServerAuth : Type 0 where
  pub server_pk : Bytes
  pub signature : Bytes

-- The keys that both sides derive: those of the traffic, and those of the confirmation.
pub record Keys : Type 0 where
  pub traffic_rx : Bytes
  pub traffic_tx : Bytes
  pub confirm_rx : Bytes
  pub confirm_tx : Bytes
  pub transcript_hash : Bytes

-- The channel at the start: what is sent and received on it is numbered from 0.
abbrev pub open_channel : Keys → Channel
open_channel keys = record {
  send_key = keys.traffic_tx;
  recv_key = keys.traffic_rx;
  channel_binding = keys.transcript_hash;
  send_nonce_ctr = 0;
  recv_nonce_ctr = 0;
}

-- The central node's side. `skip_attestation` is the build with SKIP_ATTESTATION, `snp` what
-- `verify_sev_snp_report` finds around it in this round.
module _ (s : Sodium) where
  -- `attest_ok`
  unfoldable pub attest : Bool → SnpAnswers → Bytes → Authenticator → Bool
  attest skip_attestation snp context auth =
      let bound = ea_verify_payload s auth.payload_hdr context auth.client_pk in
      let verified = report_verified s snp auth.evidence auth.payload_hdr.binding in
      let evidence_ok = bound && (length auth.evidence == 0 || verified) in
      if skip_attestation then true else if length auth.evidence == 0 then false else evidence_ok

  unfoldable pub server_transcript : Bytes → Authenticator → Bytes → Bytes
  server_transcript context auth server_pk =
      compute_kx_transcript s context auth.client_pk server_pk auth.payload_hdr.binding
        (hash_evidence s auth.evidence)

  -- The signed key that the central node sends; `none` when no signature is made.
  unfoldable pub server_auth : Bytes → Authenticator → Bytes → Bytes → Option ServerAuth
  server_auth context auth server_sk owner_sign_sk =
      let server_pk = s.kx_public server_sk in
      elim (s.sign_detached (server_transcript context auth server_pk) owner_sign_sk) [
        | none ↦ none
        | some signature ↦ some (record { server_pk = server_pk; signature = signature })
      ]

  -- `none` when `crypto_kx_server_session_keys` fails.
  unfoldable pub server_keys : Bytes → Authenticator → Bytes → Option Keys
  server_keys context auth server_sk =
      let server_pk = s.kx_public server_sk in
      let transcript_hash = server_transcript context auth server_pk in
      elim (s.server_session_keys server_pk server_sk auth.client_pk) [
        | none ↦ none
        | some (raw_rx, raw_tx) ↦ some (record {
          traffic_tx = derive_bound_key s raw_tx transcript_hash traffic_c2w;
          traffic_rx = derive_bound_key s raw_rx transcript_hash traffic_w2c;
          confirm_tx = derive_bound_key s raw_tx transcript_hash confirm_c2w;
          confirm_rx = derive_bound_key s raw_rx transcript_hash confirm_w2c;
          transcript_hash = transcript_hash;
        })
      ]

  -- The last step: the worker's confirmation, the central node's own, and the entry in the tables.
  unfoldable pub server_finish : Keys → Bytes → Option (Bytes × Channel)
  server_finish keys client_finish =
      let expected = compute_key_confirmation s keys.confirm_rx keys.transcript_hash role_worker in
      if not (s.memcmp client_finish expected == 0)
      then none
      else some (
        compute_key_confirmation s keys.confirm_tx keys.transcript_hash role_central,
        open_channel keys,
      )

  -- One round of the loop over `round`: `none` is `continue` without a worker. `client_finish` is
  -- what the worker answers to the signed key.
  unfoldable pub enroll_round :
      Bool
      → SnpAnswers
      → Bytes
      → Bytes
      → Bytes
      → Authenticator
      → (ServerAuth → Bytes)
      → Option (Bytes × Channel)
  enroll_round skip_attestation snp context server_sk owner_sign_sk auth client_finish =
      if ltb max_report_len (length auth.evidence)
      then none
      else if not (attest skip_attestation snp context auth)
      then none
      else elim (server_auth context auth server_sk owner_sign_sk) [
        | none ↦ none
        | some sent ↦ elim (server_keys context auth server_sk) [
          | none ↦ none
          | some keys ↦ server_finish keys (client_finish sent)
        ]
      ]

-- The worker's side.
module _ (s : Sodium) where
  unfoldable pub client_hello : Bytes → Bytes → Bytes → Authenticator
  client_hello context client_sk evidence =
      let client_pk = s.kx_public client_sk in
      record {
        client_pk = client_pk;
        payload_hdr = ea_build_payload s context client_pk evidence;
        evidence = evidence;
      }

  -- After the signed key arrived: `none` is the end of the process with status 1, because the
  -- signature is wrong or no session keys are made.
  unfoldable pub client_keys : Bytes → Bytes → Bytes → Bytes → ServerAuth → Option Keys
  client_keys context client_sk evidence owner_sign_pk auth =
      let client_pk = s.kx_public client_sk in
      let binding = (ea_compute_binding s context client_pk).1 in
      let transcript_hash =
        compute_kx_transcript s context client_pk auth.server_pk binding
          (hash_evidence s evidence) in
      if not (s.verify_detached auth.signature transcript_hash owner_sign_pk)
      then none
      else elim (s.client_session_keys client_pk client_sk auth.server_pk) [
        | none ↦ none
        | some (raw_rx, raw_tx) ↦ some (record {
          traffic_rx = derive_bound_key s raw_rx transcript_hash traffic_c2w;
          traffic_tx = derive_bound_key s raw_tx transcript_hash traffic_w2c;
          confirm_rx = derive_bound_key s raw_rx transcript_hash confirm_c2w;
          confirm_tx = derive_bound_key s raw_tx transcript_hash confirm_w2c;
          transcript_hash = transcript_hash;
        })
      ]

  unfoldable pub client_finish : Keys → Bytes
  client_finish keys = compute_key_confirmation s keys.confirm_tx keys.transcript_hash role_worker

  -- `none` is the end of the process: the central node's confirmation is wrong.
  unfoldable pub client_done : Keys → Bytes → Option Channel
  client_done keys server_finish =
      let expected = compute_key_confirmation s keys.confirm_rx keys.transcript_hash role_central in
      if not (s.memcmp server_finish expected == 0) then none else some (open_channel keys)

-- The loop over the rounds: the channels of the workers that are enrolled, in order.
unfoldable pub enrolled : List (Option (Bytes × Channel)) → List Channel
enrolled [] = []
enrolled (none ∷ rounds) = enrolled rounds
enrolled (some (finish, channel) ∷ rounds) = channel ∷ enrolled rounds

-- `if (nworkers != target)` gives up; `rounds` are the `target` rounds.
unfoldable pub enroll_all : List (Option (Bytes × Channel)) → Option (List Channel)
enroll_all rounds =
    let workers = enrolled rounds in
    if not (length workers == length rounds) then none else some workers
