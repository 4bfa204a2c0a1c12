-- ===== src/Attest/Tests.antt =====
-- Runs of the attestation checks.
use distributed_enclave.Common.{
  ℕ, zero, suc, ◌≤◌, ◌≡◌, ◌↔◌, ◌⊎◌, Bool, ◌&&◌, ◌==◌, get_or, refl, arith, true, false, length, [],
  ◌∷◌, ◌++◌, some, replicate, All,
}
use distributed_enclave.Wire.{Bytes, load_u64_le, load_u64_be}
use distributed_enclave.Wire.Words.{IsByte}
use distributed_enclave.Wire.Hex.{parse_hex_exact, hex_nibble, bytes_to_hex}
use distributed_enclave.Sodium.Toy.{toy_sodium, toy_sodium-IsSodium}
use distributed_enclave.Attest.{
  verify_expected_snp_claims, EaPayloadHdr, ea_verify_payload, ea_build_payload, ea_compute_binding,
  ea_aik_pub_hash, ea_binding_value, Attempt, ReportFiles, verify_attempts, report_data_arg,
  verify_sev_snp_report,
}
use distributed_enclave.Attest.Claims.{ExpectedClaims, verify_expected_snp_claims_iff}
use distributed_enclave.Attest.Payload.{ea_verify_payload-ea_build_payload, ea_verify_payload-bound}
use distributed_enclave.Attest.Report.{Verified, verify_sev_snp_report_sound}

-- A report with policy 3, a measurement of 48 equal bytes, and room for the chip's identity.
abbrev report : Bytes
report =
    replicate 8 1
    ++ ((3 ∷ replicate 7 0) ++ (replicate 128 1 ++ (replicate 48 170 ++ replicate 288 1)))

abbrev measurement_hex : Bytes
measurement_hex = replicate 96 b'a'

abbrev policy_hex : Bytes
policy_hex = replicate 15 b'0' ++ (b'3' ∷ [])

report_accepted :
    verify_expected_snp_claims toy_sodium (some measurement_hex) (some policy_hex) report ≡ true
unfolding verify_expected_snp_claims parse_hex_exact hex_nibble load_u64_le load_u64_be
report_accepted = refl

abbrev report_bytes : All IsByte report
report_bytes = omega arith

verify_expected_snp_claims_iff_example :
    (verify_expected_snp_claims toy_sodium (some measurement_hex) (some policy_hex) report ≡ true)
    ↔ ExpectedClaims (some measurement_hex) (some policy_hex) report
verify_expected_snp_claims_iff_example =
    verify_expected_snp_claims_iff toy_sodium toy_sodium-IsSodium (some measurement_hex)
      (some policy_hex) report report_bytes

abbrev context : Bytes
context = replicate 32 9

abbrev client_pk : Bytes
client_pk = replicate 32 5

ea_verify_payload-ea_build_payload_example :
    ea_verify_payload toy_sodium
      (ea_build_payload toy_sodium context client_pk report)
      context
      client_pk
    ≡ true
ea_verify_payload-ea_build_payload_example =
    ea_verify_payload-ea_build_payload toy_sodium toy_sodium-IsSodium context client_pk report

abbrev hdr : EaPayloadHdr
hdr = ea_build_payload toy_sodium context client_pk []

hdr_lengths : (length hdr.aik_pub_hash ≡ 32) × (length hdr.binding ≡ 64)
unfolding ea_build_payload ea_compute_binding ea_aik_pub_hash ea_binding_value
hdr_lengths = (refl, refl)

ea_verify_payload-bound_example :
    (hdr.version ≡ 2)
    × (hdr.aik_pub_hash ≡ ea_aik_pub_hash toy_sodium client_pk)
    × (hdr.binding ≡ ea_binding_value toy_sodium client_pk context)
ea_verify_payload-bound_example =
    ea_verify_payload-bound toy_sodium toy_sodium-IsSodium context client_pk hdr hdr_lengths.0
      hdr_lengths.1
      (ea_verify_payload-ea_build_payload toy_sodium toy_sodium-IsSodium context client_pk [])

abbrev files : ReportFiles
files = record {
  directory_made = true;
  report_written = true;
  paths_built = true;
  cache_made = true;
  certs_linked = true;
}

-- The report names 64 zeros.
abbrev zeros : Bytes
zeros = replicate 64 0

abbrev names_zeros : Bytes → Bool
names_zeros rd_arg = (length rd_arg == 130) && (get_or rd_arg 129 0 == b'0')

-- The cached certificate does not fit; the fetched one does.
abbrev stale : ℕ → Attempt
stale zero = record { cached = true; fetch_ok = false; verify_ok = λ rd_arg. false }
stale (suc attempt) = record { cached = false; fetch_ok = true; verify_ok = names_zeros }

stale_accepted :
    verify_sev_snp_report toy_sodium
      (some measurement_hex)
      (some policy_hex)
      files
      stale
      report
      zeros
    ≡ true
unfolding verify_sev_snp_report verify_attempts verify_expected_snp_claims parse_hex_exact
    hex_nibble load_u64_le load_u64_be report_data_arg bytes_to_hex
stale_accepted = refl

verify_sev_snp_report_sound_example :
    (verify_expected_snp_claims toy_sodium (some measurement_hex) (some policy_hex) report ≡ true)
    × (480 ≤ length report)
    × (Verified (report_data_arg zeros) (stale 0) ⊎ Verified (report_data_arg zeros) (stale 1))
verify_sev_snp_report_sound_example =
    verify_sev_snp_report_sound toy_sodium (some measurement_hex) (some policy_hex) files stale
      report zeros stale_accepted
