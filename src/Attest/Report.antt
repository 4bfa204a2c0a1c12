-- ===== src/Attest/Report.antt =====
-- The certificate cache: at most two attempts, and a stale certificate is replaced once.
use distributed_enclave.Common.{
  ℕ, ◌+◌, ◌≤◌, ◌≡◌, ◌⊎◌, arith, true, false, ◌&&◌, length, List, [], ◌∷◌, Option,
}
use distributed_enclave.Wire.{Bytes}
use distributed_enclave.Sodium.{Sodium}
use distributed_enclave.Attest.{
  CertAction, fetch_vcek, verify_report, unlink_vcek, Attempt, verify_attempts, ReportFiles,
  verify_expected_snp_claims, report_data_arg, verify_sev_snp_report,
}

abbrev pub verifications : List CertAction → ℕ
verifications [] = 0
verifications (verify_report ∷ actions) = verifications actions + 1
verifications (fetch_vcek ∷ actions) = verifications actions
verifications (unlink_vcek ∷ actions) = verifications actions

abbrev pub fetches : List CertAction → ℕ
fetches [] = 0
fetches (verify_report ∷ actions) = fetches actions
fetches (fetch_vcek ∷ actions) = fetches actions + 1
fetches (unlink_vcek ∷ actions) = fetches actions

-- An attempt whose verification for that report data succeeds, on a certificate that was cached or
-- fetched for it.
abbrev pub Verified : Bytes → Attempt → Type 0
Verified rd_arg a = (a.verify_ok rd_arg ≡ true) × ((a.cached ≡ true) ⊎ (a.fetch_ok ≡ true))

-- There is at most one fetch and there are at most two verifications; a report is accepted only
-- after a verification that succeeds, and a cached certificate that does not fit is removed and
-- fetched anew before the report is given up.
pub verify_attempts-cases :
    (rd_arg : Bytes) (answers : ℕ → Attempt)
    → let (ok, actions) = verify_attempts rd_arg 2 answers 0 in
      (fetches actions ≤ 1)
      × (verifications actions ≤ 2)
      × ((ok ≡ true) → Verified rd_arg (answers 0) ⊎ Verified rd_arg (answers 1))
      × (((answers 0).cached ≡ true)
          → ((answers 0).verify_ok rd_arg ≡ false)
          → ((answers 1).cached ≡ false)
          → ok ≡ ((answers 1).fetch_ok && (answers 1).verify_ok rd_arg))
unfolding verify_attempts
verify_attempts-cases rd_arg answers = ground arith

-- An accepted report has the expected claims, is long enough to name its chip, and was verified
-- with a certificate and with exactly the expected report data, in hexadecimal behind "0x".
pub verify_sev_snp_report_sound :
    (s : Sodium) (measurement_hex policy_hex : Option Bytes) (files : ReportFiles)
    (answers : ℕ → Attempt) (report expected_report_data : Bytes)
    → verify_sev_snp_report s measurement_hex policy_hex files answers report expected_report_data
      ≡ true
    → (verify_expected_snp_claims s measurement_hex policy_hex report ≡ true)
      × (480 ≤ length report)
      × (Verified (report_data_arg expected_report_data) (answers 0)
          ⊎ Verified (report_data_arg expected_report_data) (answers 1))
unfolding verify_sev_snp_report
verify_sev_snp_report_sound s measurement_hex policy_hex files answers report expected_report_data
      ok =
    (
      ground arith,
      ground arith,
      (verify_attempts-cases (report_data_arg expected_report_data) answers).2 (ground arith),
    )
