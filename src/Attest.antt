-- ===== src/Attest.antt =====
-- Attestation at the central node: the claims of an SEV-SNP report, the binding of a worker's key, and
-- the verification with a cached certificate (src/master_npb.c); the worker's part of the binding is
-- the same code in src/worker_npb.c. What other programs and the file system answer is an argument.
pub mod Claims
pub mod Payload
pub mod Report
mod Tests
use distributed_enclave.Common.{
  ℕ, zero, suc, ◌+◌, ◌-◌, ◌*◌, Bool, true, false, not, ◌&&◌, ◌||◌, ltb, leb, ◌==◌, length, take,
  drop, replicate, get_or,
}
use distributed_enclave.Common.{List, [], ◌∷◌, ◌++◌, Option, none, some, if◌then◌else◌}
use distributed_enclave.Wire.{Bytes, load_u64_le, load_u64_be, hash_len}
use distributed_enclave.Wire.Hex.{parse_hex_exact, bytes_to_hex}
use distributed_enclave.Sodium.{Sodium}

abbrev pub snp_policy_offset : ℕ
snp_policy_offset = 0x08

abbrev pub snp_measurement_offset : ℕ
snp_measurement_offset = 0x90

abbrev pub snp_measurement_size : ℕ
snp_measurement_size = 48

abbrev pub snp_reported_tcb_offset : ℕ
snp_reported_tcb_offset = 0x180

abbrev pub snp_reported_tcb_size : ℕ
snp_reported_tcb_size = 8

abbrev pub snp_chip_id_offset : ℕ
snp_chip_id_offset = 0x1A0

abbrev pub snp_chip_id_size : ℕ
snp_chip_id_size = 64

abbrev pub binding_len : ℕ
binding_len = 64

abbrev pub ea_payload_version : ℕ
ea_payload_version = 2

-- "application/eat+cwt"
abbrev pub ea_media_type : Bytes
ea_media_type =
    b'a' ∷ b'p' ∷ b'p' ∷ b'l' ∷ b'i' ∷ b'c' ∷ b'a' ∷ b't' ∷ b'i' ∷ b'o' ∷ b'n' ∷ b'/' ∷ b'e' ∷ b'a'
    ∷ b't' ∷ b'+' ∷ b'c' ∷ b'w' ∷ b't' ∷ []

-- "Attestation"
abbrev pub ea_exporter_label : Bytes
ea_exporter_label = b'A' ∷ b't' ∷ b't' ∷ b'e' ∷ b's' ∷ b't' ∷ b'a' ∷ b't' ∷ b'i' ∷ b'o' ∷ b'n' ∷ []

-- `!text || !*text`
abbrev pub is_unset : Option Bytes → Bool
is_unset none = true
is_unset (some text) = length text == 0

abbrev pub text_of : Option Bytes → Bytes
text_of none = []
text_of (some text) = text

abbrev pub policy_field : Bytes → Bytes
policy_field report = take 8 (drop snp_policy_offset report)

abbrev pub measurement_field : Bytes → Bytes
measurement_field report = take snp_measurement_size (drop snp_measurement_offset report)

-- The environment variables SNP_EXPECTED_MEASUREMENT and SNP_EXPECTED_POLICY, and the report; true
-- for the result 0.
unfoldable pub verify_expected_snp_claims : Sodium → Option Bytes → Option Bytes → Bytes → Bool
verify_expected_snp_claims s measurement_hex policy_hex report =
    if is_unset measurement_hex || is_unset policy_hex
    then false
    else elim (parse_hex_exact (text_of measurement_hex) snp_measurement_size) [
      | none ↦ false
      | some expected_measurement ↦ elim (parse_hex_exact (text_of policy_hex) 8) [
        | none ↦ false
        | some expected_policy_bytes ↦
            if ltb (length report) (snp_measurement_offset + snp_measurement_size)
            then false
            else if not
                (load_u64_le (drop snp_policy_offset report) == load_u64_be expected_policy_bytes)
            then false
            else s.memcmp (measurement_field report) expected_measurement == 0
      ]
    ]

unfoldable pub hash_evidence : Sodium → Bytes → Bytes
hash_evidence s evidence = s.generichash hash_len [] evidence

unfoldable pub ea_aik_pub_hash : Sodium → Bytes → Bytes
ea_aik_pub_hash s pub_key = s.generichash hash_len [] pub_key

unfoldable pub ea_binding_value : Sodium → Bytes → Bytes → Bytes
ea_binding_value s pub_key context = s.generichash binding_len [] (pub_key ++ context)

unfoldable pub ea_compute_binding : Sodium → Bytes → Bytes → Bytes × Bytes
ea_compute_binding s context pub_key =
    (ea_aik_pub_hash s pub_key, ea_binding_value s pub_key context)

-- `struct ea_payload_hdr` with its binder; the two texts are arrays of 64 characters.
pub record EaPayloadHdr : Type 0 where
  pub version : ℕ
  pub media_type : Bytes
  pub evidence_len : ℕ
  pub aik_pub_hash : Bytes
  pub binding : Bytes
  pub exporter_label : Bytes

-- `strncmp(a, b, n) == 0`, where the end of a list is a NUL.
unfoldable pub strncmp_equal : ℕ → Bytes → Bytes → Bool
strncmp_equal zero a b = true
strncmp_equal (suc n) a b =
    let rest = strncmp_equal n (drop 1 a) (drop 1 b) in
    if not (get_or a 0 0 == get_or b 0 0) then false else if get_or a 0 0 == 0 then true else rest

unfoldable pub ea_verify_payload : Sodium → EaPayloadHdr → Bytes → Bytes → Bool
ea_verify_payload s hdr context pub_key =
    if not (hdr.version == ea_payload_version)
    then false
    else if not (strncmp_equal 64 hdr.media_type ea_media_type)
    then false
    else if not (strncmp_equal 64 hdr.exporter_label ea_exporter_label)
    then false
    else (let (expected_aik, expected_binding) = ea_compute_binding s context pub_key in
        if not (s.memcmp expected_aik hdr.aik_pub_hash == 0)
        then false
        else s.memcmp expected_binding hdr.binding == 0)

-- `strncpy(field, text, sizeof field - 1)` into an array of zeros.
abbrev pub text_field : Bytes → Bytes
text_field text = text ++ replicate (64 - length text) 0

-- How the worker fills in the header.
unfoldable pub ea_build_payload : Sodium → Bytes → Bytes → Bytes → EaPayloadHdr
ea_build_payload s context client_pk evidence =
    let (aik_hash, binding) = ea_compute_binding s context client_pk in
    record {
      version = ea_payload_version;
      media_type = text_field ea_media_type;
      evidence_len = length evidence;
      aik_pub_hash = aik_hash;
      binding = binding;
      exporter_label = text_field ea_exporter_label;
    }

-- What is done with the certificate of the chip.
pub data CertAction : Type 0 where
  fetch_vcek : CertAction
  verify_report : CertAction
  unlink_vcek : CertAction

-- The answers for one attempt: whether the certificate file is there and not empty, whether the fetch
-- succeeds, and whether the verification with its argument for the report data does.
pub record Attempt : Type 0 where
  pub cached : Bool
  pub fetch_ok : Bool
  pub verify_ok : Bytes → Bool

-- `for (attempt = 0; attempt < 2; attempt++)`, with `left` attempts left: the result, and what was done.
unfoldable pub verify_attempts : Bytes → ℕ → (ℕ → Attempt) → ℕ → Bool × List CertAction
verify_attempts rd_arg zero answers attempt = (false, [])
verify_attempts rd_arg (suc left) answers attempt =
    let (later, actions) = verify_attempts rd_arg left answers (attempt + 1) in
    let a = answers attempt in
    if not a.cached
    then (if not a.fetch_ok
        then (false, unlink_vcek ∷ fetch_vcek ∷ [])
        else (a.verify_ok rd_arg, unlink_vcek ∷ fetch_vcek ∷ verify_report ∷ []))
    else if a.verify_ok rd_arg
    then (true, verify_report ∷ [])
    else (later, verify_report ∷ (unlink_vcek ∷ actions))

-- `rd_arg`: "0x" and the expected report data in hexadecimal, of which 64 bytes are 128 digits.
unfoldable pub report_data_arg : Bytes → Bytes
report_data_arg expected_report_data =
    b'0' ∷ b'x' ∷ text_of (bytes_to_hex expected_report_data (2 * binding_len + 1))

-- The steps with files before the attempts; each of them leads to `cleanup` when it fails.
pub record ReportFiles : Type 0 where
  pub directory_made : Bool
  pub report_written : Bool
  pub paths_built : Bool
  pub cache_made : Bool
  pub certs_linked : Bool

unfoldable pub verify_sev_snp_report :
    Sodium → Option Bytes → Option Bytes → ReportFiles → (ℕ → Attempt) → Bytes → Bytes → Bool
verify_sev_snp_report s measurement_hex policy_hex files answers report expected_report_data =
    if length report == 0
    then false
    else if not (verify_expected_snp_claims s measurement_hex policy_hex report)
    then false
    else if not files.directory_made || not files.report_written
    then false
    else if ltb (length report) (snp_chip_id_offset + snp_chip_id_size)
    then false
    else if not files.paths_built || (not files.cache_made || not files.certs_linked)
    then false
    else (verify_attempts (report_data_arg expected_report_data) 2 answers 0).0

-- What `verify_sev_snp_report` finds around it in one round of the enrollment.
pub record SnpAnswers : Type 0 where
  pub measurement_hex : Option Bytes
  pub policy_hex : Option Bytes
  pub files : ReportFiles
  pub attempts : ℕ → Attempt

abbrev pub report_verified : Sodium → SnpAnswers → Bytes → Bytes → Bool
report_verified s snp report expected_report_data =
    verify_sev_snp_report s snp.measurement_hex snp.policy_hex snp.files snp.attempts report
      expected_report_data

-- The name of a chip's certificate directory: the hash of its identity and of its reported TCB.
unfoldable pub cache_key : Sodium → Bytes → Bytes
cache_key s report = s.generichash hash_len [] (
    take snp_chip_id_size (drop snp_chip_id_offset report)
    ++ take snp_reported_tcb_size (drop snp_reported_tcb_offset report))
