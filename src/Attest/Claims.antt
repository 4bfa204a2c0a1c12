-- ===== src/Attest/Claims.antt =====
-- What the claims of an accepted report are.
use distributed_enclave.Common.{
  ℕ, ◌+◌, ◌*◌, ◌^◌, ◌≤◌, ◌<◌, ◌≡◌, ◌↔◌, refl, sym, ◌∙◌, arith, Bool, true, false, not, ◌==◌,
}
use distributed_enclave.Common.{
  [], ◌∷◌, ◌++◌, Option, none, some, Option-cases, Bool-cases, inl, inr, length, take, drop, All,
  All-take, All-drop, take_all, length-drop, length-take, if◌then◌else◌, ltb,
}
use distributed_enclave.Wire.{Bytes, load_u64_le, load_u64_be}
use distributed_enclave.Wire.Words.{
  IsByte, le_value, be_value, load_le_loop-le_value, load_be_loop-be_value,
}
use distributed_enclave.Wire.Hex.{parse_hex_exact}
use distributed_enclave.Wire.Hex.Laws.{parse_hex_exact-shape}
use distributed_enclave.Sodium.{Sodium, IsSodium}
use distributed_enclave.Attest.{
  snp_policy_offset, snp_measurement_size, is_unset, text_of, policy_field, measurement_field,
  verify_expected_snp_claims,
}

abbrev pub reverse : Bytes → Bytes
reverse [] = []
reverse (b ∷ bs) = reverse bs ++ (b ∷ [])

-- Eight bytes from the lowest are the number that they are, reversed, from the highest.
le_be :
    (xs ys : Bytes)
    → length xs ≡ 8
    → length ys ≡ 8
    → All IsByte xs
    → All IsByte ys
    → (le_value xs ≡ be_value ys 0) ↔ (xs ≡ reverse ys)
le_be (a ∷ b ∷ c ∷ d ∷ e ∷ f ∷ g ∷ h ∷ []) (a' ∷ b' ∷ c' ∷ d' ∷ e' ∷ f' ∷ g' ∷ h' ∷ []) n n' all
      all' =
    ((λ eq. ground arith), λ eq. ground arith)
le_be _ _ n n' all all' = absurd (omega arith)

abbrev Policy : Bytes → Bytes → Type 0
Policy report expected = policy_field report ≡ reverse expected

Policy-iff :
    (report expected : Bytes)
    → 192 ≤ length report
    → All IsByte report
    → length expected ≡ 8
    → All IsByte expected
    → (load_u64_le (drop snp_policy_offset report) ≡ load_u64_be expected) ↔ Policy report expected
unfolding load_u64_le load_u64_be
Policy-iff report expected long all n all' =
    let field : Bytes = policy_field report in
    let bytes : All IsByte field =
      All-take IsByte 8 (drop 8 report) (All-drop IsByte 8 report all) in
    let eight : length field ≡ 8 =
      omega (arith, length-take 8 (drop 8 report), length-drop 8 report) in
    let whole : take 8 expected ≡ expected = take_all expected 8 (omega arith) in
    rw
      (
        load_le_loop-le_value field 0 0 (omega arith) (omega arith) bytes,
        whole,
        load_be_loop-be_value expected 0 0 (omega arith) (omega arith) all',
      )
      (let shifted : 0 + 2 ^ (8 * 0) * le_value field ≡ le_value field = omega arith in
        rw shifted (le_be field expected eight n bytes all'))

parse_empty : (n : ℕ) → 0 < n → parse_hex_exact [] n ≡ none
unfolding parse_hex_exact
parse_empty n pos = ground arith

-- The claims that the environment names: the measurement as it stands in the report, and the policy,
-- which the environment writes from the highest byte and the report from the lowest.
abbrev pub ExpectedClaims : Option Bytes → Option Bytes → Bytes → Type 0
ExpectedClaims measurement_hex policy_hex report =
    (measurement : Bytes) × (policy : Bytes) × (parse_hex_exact (text_of measurement_hex)
        snp_measurement_size
      ≡ some measurement)
    × (parse_hex_exact (text_of policy_hex) 8 ≡ some policy)
    × (192 ≤ length report)
    × (measurement_field report ≡ measurement)
    × (policy_field report ≡ reverse policy)

-- The three tests that are left when both texts are parsed.
abbrev tests : ℕ → ℕ → ℕ → ℕ → Bool
tests len actual expected differ =
    if ltb len 192 then false else if not (actual == expected) then false else differ == 0

tests_iff :
    (len actual expected differ : ℕ)
    → (tests len actual expected differ ≡ true) ↔ ((192 ≤ len) × (actual ≡ expected) × (differ ≡ 0))
tests_iff len actual expected differ = ((λ ok. ground arith), λ (a, b, c). ground arith)

unset_parse :
    (text : Option Bytes) (n : ℕ)
    → 0 < n
    → is_unset text ≡ true
    → parse_hex_exact (text_of text) n ≡ none
unset_parse none n pos e = parse_empty n pos
unset_parse (some []) n pos e = parse_empty n pos
unset_parse (some (c ∷ text)) n pos e = absurd (ground arith)

none_not_some : (bs : Bytes) → none ≡ some bs → ⊥
none_not_some bs e = absurd (ground arith)

true_not_false : ◌≡◌ {A = Bool} true false → ⊥
true_not_false e = absurd (ground arith)

module _ (s : Sodium) (measurement_hex policy_hex : Option Bytes) (report : Bytes) where
  no_measurement :
      parse_hex_exact (text_of measurement_hex) 48 ≡ none
      → verify_expected_snp_claims s measurement_hex policy_hex report ≡ false
  unfolding verify_expected_snp_claims
  no_measurement e = ground arith

  no_policy :
      parse_hex_exact (text_of policy_hex) 8 ≡ none
      → verify_expected_snp_claims s measurement_hex policy_hex report ≡ false
  unfolding verify_expected_snp_claims
  no_policy e = ground arith

  both_parsed :
      (m p : Bytes)
      → parse_hex_exact (text_of measurement_hex) 48 ≡ some m
      → parse_hex_exact (text_of policy_hex) 8 ≡ some p
      → verify_expected_snp_claims s measurement_hex policy_hex report
        ≡ tests
            (length report)
            (load_u64_le (drop 8 report))
            (load_u64_be p)
            (s.memcmp (measurement_field report) m)
  unfolding verify_expected_snp_claims
  both_parsed m p e f = elim (Bool-cases (is_unset measurement_hex)) [
    | inl unset ↦
        absurd (none_not_some m (sym (unset_parse measurement_hex 48 (omega arith) unset) ∙ e))
    | inr set ↦ elim (Bool-cases (is_unset policy_hex)) [
      | inl unset ↦
          absurd (none_not_some p (sym (unset_parse policy_hex 8 (omega arith) unset) ∙ f))
      | inr set' ↦ rw (set, set', e, f) refl
    ]
  ]

module _ (s : Sodium) (law : IsSodium s) (measurement_hex policy_hex : Option Bytes)
    (report : Bytes) (all : All IsByte report) where
  fields_iff :
      (m p : Bytes)
      → parse_hex_exact (text_of measurement_hex) 48 ≡ some m
      → parse_hex_exact (text_of policy_hex) 8 ≡ some p
      → 192 ≤ length report
      → ((s.memcmp (measurement_field report) m ≡ 0) ↔ (measurement_field report ≡ m))
        × ((load_u64_le (drop 8 report) ≡ load_u64_be p) ↔ (policy_field report ≡ reverse p))
  fields_iff m p e f long =
      let (m_len, m_bytes) = parse_hex_exact-shape (text_of measurement_hex) 48 m e in
      let (p_len, p_bytes) = parse_hex_exact-shape (text_of policy_hex) 8 p f in
      (
        law.memcmp_iff (measurement_field report) m
            (omega (arith, length-take 48 (drop 0x90 report), length-drop 0x90 report)),
        Policy-iff report p long all p_len p_bytes,
      )

  accepted_claims :
      verify_expected_snp_claims s measurement_hex policy_hex report ≡ true
      → ExpectedClaims measurement_hex policy_hex report
  accepted_claims ok = elim (Option-cases (parse_hex_exact (text_of measurement_hex) 48)) [
    | inl bad ↦
        absurd (true_not_false (sym ok ∙ no_measurement s measurement_hex policy_hex report bad))
    | inr (m, e) ↦ elim (Option-cases (parse_hex_exact (text_of policy_hex) 8)) [
      | inl bad ↦
          absurd (true_not_false (sym ok ∙ no_policy s measurement_hex policy_hex report bad))
      | inr (p, f) ↦
          (let (long, policy, same) =
              (tests_iff _ _ _ _).0
                (sym (both_parsed s measurement_hex policy_hex report m p e f) ∙ ok) in
            let (field, word) = fields_iff m p e f long in
            (m, p, e, f, long, field.0 same, word.0 policy))
    ]
  ]

  claims_accepted :
      ExpectedClaims measurement_hex policy_hex report
      → verify_expected_snp_claims s measurement_hex policy_hex report ≡ true
  claims_accepted (m, p, e, f, long, same, policy) =
      let (field, word) = fields_iff m p e f long in
      both_parsed s measurement_hex policy_hex report m p e f
      ∙ (tests_iff _ _ _ _).1 (long, word.1 policy, field.1 same)

  -- A report is accepted if and only if both variables hold hexadecimal texts of the right length,
  -- the report is long enough, and its two fields are what the variables say.
  pub verify_expected_snp_claims_iff :
      (verify_expected_snp_claims s measurement_hex policy_hex report ≡ true)
      ↔ ExpectedClaims measurement_hex policy_hex report
  verify_expected_snp_claims_iff = (accepted_claims, claims_accepted)
