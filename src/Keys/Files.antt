-- ===== src/Keys/Files.antt =====
-- The generator makes both files or none, and they are read back.
use distributed_enclave.Common.{
  ◌<◌, ◌≡◌, refl, sym, arith, Bool, true, false, ◌==◌, length, ap, ◌∙◌, ◌&&◌, ◌||◌, Option,
}
use distributed_enclave.Common.{none, some, if◌then◌else◌, Option-cases, inl, inr, ◌⊎◌, Bool-cases}
use distributed_enclave.Wire.{Bytes}
use mathlib.Core.Path.{subst}
use distributed_enclave.Keys.{
  after_secret, after_public, Fs, same_path, put, Writing, write_new_file, owner_keygen,
  load_secret_key, load_public_key,
}
use distributed_enclave.Keys.Writes.{
  Stays, same_path_refl, same_path-eq, same_path_sym, some-injective, Wrote, write_new_file-Wrote,
}

-- What stays of a path when the generator fails: what was there, or, only where an unlink() failed, a
-- file at one of the two paths, which was free.
abbrev pub Untouched : Bool → Fs → Bytes → Bytes → Fs → Bytes → Type 0
Untouched removes fs public_path secret_path fs' q =
    (fs' q ≡ fs q)
    ⊎ ((removes ≡ false)
        × ((same_path q public_path || same_path q secret_path) ≡ true)
        × (fs q ≡ none))

-- What the generator's report means for the files; `removes` says that every unlink() succeeds.
abbrev pub KeysMade : Bool → Fs → Bytes → Bytes → Bytes → Bytes → Fs × Bool → Type 0
KeysMade removes fs public_path secret_path public_key secret_key (fs', made) =
    ((made ≡ false) × ((q : Bytes) → Untouched removes fs public_path secret_path fs' q))
    ⊎ ((made ≡ true)
        × (fs secret_path ≡ none)
        × (fs public_path ≡ none)
        × (load_secret_key fs' (some secret_path) true (length secret_key) ≡ some secret_key)
        × (load_public_key fs' public_path true (length public_key) ≡ some public_key)
        × (fs'
            ≡ put (put fs secret_path (some (record { content = secret_key; mode = 0o600 })))
                public_path (some (record { content = public_key; mode = 0o644 }))))

module _ (fs : Fs) (public_path secret_path public_key secret_key : Bytes)
    (named : 0 < length secret_path) (gone : fs secret_path ≡ none) where
  abbrev with_secret : Fs
  with_secret = put fs secret_path (some (record { content = secret_key; mode = 0o600 }))

  abbrev with_both : Fs
  with_both = put with_secret public_path (some (record { content = public_key; mode = 0o644 }))

  -- The files when the second file fails, and the secret file is removed or not.
  module _ (removes public_ok : Bool) (fs₂ : Fs) (public_bad : public_ok ≡ false → removes ≡ false)
      (stays : (q : Bytes) → Stays public_ok public_path with_secret fs₂ q) where
    elsewhere :
        (q : Bytes)
        → same_path q secret_path ≡ false
        → Untouched removes fs public_path secret_path fs₂ q
    elsewhere q apart =
        let unchanged : with_secret q ≡ fs q = rw apart refl in
        elim (stays q) [
          | inl same ↦ inl (same ∙ unchanged)
          | inr (bad, at_public, free) ↦
              inr (public_bad bad, rw at_public refl, sym unchanged ∙ free)
        ]

    removed :
        (q : Bytes) → Untouched removes fs public_path secret_path (put fs₂ secret_path none) q
    removed q = elim (Bool-cases (same_path q secret_path)) [
      | inl eq ↦ inl (rw (eq, same_path-eq q secret_path eq) (sym gone))
      | inr apart ↦ elim (elsewhere q apart) [
        | inl same ↦ inl (rw apart same)
        | inr left ↦ inr left
      ]
    ]

    not_removed : removes ≡ false → (q : Bytes) → Untouched removes fs public_path secret_path fs₂ q
    not_removed bad q = elim (Bool-cases (same_path q secret_path)) [
      | inl eq ↦ inr (bad, ground (arith, eq), ap fs (same_path-eq q secret_path eq) ∙ gone)
      | inr apart ↦ elsewhere q apart
    ]

  -- The file is there already.
  secret_taken : same_path public_path secret_path ≡ true → ¬ (with_secret public_path ≡ none)
  secret_taken same free = absurd (
      ground (
        arith,
        subst
            (λ b.
              (if b then some (record { content = secret_key; mode = 0o600 }) else fs public_path)
              ≡ none)
            same free,
      ))

  secret_back :
      same_path secret_path public_path ≡ false
      → load_secret_key with_both (some secret_path) true (length secret_key) ≡ some secret_key
  unfolding load_secret_key
  secret_back apart =
      let is_named : (length secret_path == 0) ≡ false = ground arith in
      let is_long : (length secret_key == length secret_key) ≡ true = ground arith in
      rw (is_named, apart, same_path_refl secret_path, is_long) refl

  public_back : load_public_key with_both public_path true (length public_key) ≡ some public_key
  unfolding load_public_key
  public_back =
      let is_long : (length public_key == length public_key) ≡ true = ground arith in
      rw (load_public_key, same_path_refl public_path, is_long) refl

  both_made :
      (removes : Bool)
      → with_secret public_path ≡ none
      → KeysMade removes fs public_path secret_path public_key secret_key (with_both, true)
  both_made removes free = elim (Bool-cases (same_path public_path secret_path)) [
    | inl same ↦ absurd (secret_taken same free)
    | inr apart ↦
        (let was_free : fs public_path ≡ none =
            subst
              (λ b.
                (if b then some (record { content = secret_key; mode = 0o600 }) else fs public_path)
                ≡ none)
              apart free in
          inr (
            refl,
            gone,
            was_free,
            secret_back (same_path_sym public_path secret_path apart),
            public_back,
            refl,
          ))
  ]

  -- Behind the second file.
  module _ (removes : Bool) (after : Fs × Bool) where
    second_half :
        (unlink_ok public_ok : Bool) (second : Fs × Bool)
        → (unlink_ok ≡ false → removes ≡ false)
        → (public_ok ≡ false → removes ≡ false)
        → Wrote public_ok with_secret public_path public_key 0o644 second
        → after_public unlink_ok secret_path (some second) ≡ some after
        → KeysMade removes fs public_path secret_path public_key secret_key after
    second_half true public_ok (fs₂, false) own other (inl (failed, stays)) e =
        subst (KeysMade removes fs public_path secret_path public_key secret_key) (some-injective e)
          (inl (refl, removed removes public_ok fs₂ other stays))
    second_half false public_ok (fs₂, false) own other (inl (failed, stays)) e =
        subst (KeysMade removes fs public_path secret_path public_key secret_key) (some-injective e)
          (inl (refl, not_removed removes public_ok fs₂ other stays (own refl)))
    second_half unlink_ok public_ok (fs₂, false) own other (inr (ok, free, is)) e =
        absurd (ground arith)
    second_half unlink_ok public_ok (fs₂, true) own other (inl (failed, stays)) e =
        absurd (ground arith)
    second_half unlink_ok public_ok (fs₂, true) own other (inr (ok, free, is)) e =
        subst (KeysMade removes fs public_path secret_path public_key secret_key) (some-injective e)
          (subst (λ f. KeysMade removes fs public_path secret_path public_key secret_key (f, true))
            (sym is) (both_made removes free))

    second_file :
        (unlink_ok : Bool) (public_writing : Writing)
        → (unlink_ok ≡ false → removes ≡ false)
        → (public_writing.unlink_ok ≡ false → removes ≡ false)
        → after_public unlink_ok secret_path
            (write_new_file public_writing with_secret public_path public_key 0o644)
          ≡ some after
        → KeysMade removes fs public_path secret_path public_key secret_key after
    second_file unlink_ok public_writing own other e =
        let written = write_new_file public_writing with_secret public_path public_key 0o644 in
        elim (Option-cases written) [
          | inl missing ↦ absurd (
              ground
                (arith, subst (λ o. after_public unlink_ok secret_path o ≡ some after) missing e))
          | inr (second, is) ↦
              second_half unlink_ok public_writing.unlink_ok second own other
                (write_new_file-Wrote public_writing with_secret public_path public_key 0o644 second
                  is)
                (subst (λ o. after_public unlink_ok secret_path o ≡ some after) is e)
        ]

module _ (unlink_ok : Bool) (secret_writing public_writing : Writing) (fs : Fs)
    (public_path secret_path public_key secret_key : Bytes) (named : 0 < length secret_path)
    (after : Fs × Bool) where
  abbrev all_removed : Bool
  all_removed = unlink_ok && (secret_writing.unlink_ok && public_writing.unlink_ok)

  own_bad : unlink_ok ≡ false → all_removed ≡ false
  own_bad e = ground (arith, e)

  secret_bad : secret_writing.unlink_ok ≡ false → all_removed ≡ false
  secret_bad e = ground (arith, e)

  public_bad : public_writing.unlink_ok ≡ false → all_removed ≡ false
  public_bad e = ground (arith, e)

  first_failed :
      (fs₁ : Fs) (q : Bytes)
      → Stays secret_writing.unlink_ok secret_path fs fs₁ q
      → Untouched all_removed fs public_path secret_path fs₁ q
  first_failed fs₁ q (inl same) = inl same
  first_failed fs₁ q (inr (bad, at_secret, free)) =
      inr (secret_bad bad, ground (arith, at_secret), free)

  first_half :
      (first : Fs × Bool)
      → Wrote secret_writing.unlink_ok fs secret_path secret_key 0o600 first
      → after_secret unlink_ok public_writing public_path secret_path public_key (some first)
        ≡ some after
      → KeysMade all_removed fs public_path secret_path public_key secret_key after
  first_half (fs₁, false) (inl (failed, stays)) e =
      subst (KeysMade all_removed fs public_path secret_path public_key secret_key)
        (some-injective e) (inl (refl, λ q. first_failed fs₁ q (stays q)))
  first_half (fs₁, false) (inr (ok, gone, is)) e = absurd (ground arith)
  first_half (fs₁, true) (inl (failed, stays)) e = absurd (ground arith)
  first_half (fs₁, true) (inr (ok, gone, is)) e =
      second_file fs public_path secret_path public_key secret_key named gone all_removed after
        unlink_ok public_writing own_bad public_bad
        (subst
          (λ f.
            after_public unlink_ok secret_path
              (write_new_file public_writing f public_path public_key 0o644)
            ≡ some after)
          is e)

-- Whatever the system calls answer, short writes and failing unlink() calls included, when the secret
-- key's path is not empty: when the generator reports success, both paths were free, exactly the two
-- files are added with their whole content, the secret key's with mode 0600, and both programs read
-- back the keys, if the reading itself succeeds; when it reports failure, every path is as it was,
-- but that where an unlink() failed, one of the two paths that was free may hold a file.
pub owner_keygen-KeysMade :
    (unlink_ok : Bool) (secret_writing public_writing : Writing) (fs : Fs)
    (public_path secret_path public_key secret_key : Bytes) (after : Fs × Bool)
    → 0 < length secret_path
    → owner_keygen unlink_ok secret_writing public_writing fs public_path secret_path public_key
        secret_key
      ≡ some after
    → KeysMade
        (unlink_ok && (secret_writing.unlink_ok && public_writing.unlink_ok))
        fs
        public_path
        secret_path
        public_key
        secret_key
        after
unfolding owner_keygen
owner_keygen-KeysMade unlink_ok secret_writing public_writing fs public_path secret_path public_key
      secret_key after named e =
    let rest : Option (Fs × Bool) → Option (Fs × Bool) =
      λ o. after_secret unlink_ok public_writing public_path secret_path public_key o in
    elim (Option-cases (write_new_file secret_writing fs secret_path secret_key 0o600)) [
      | inl missing ↦ absurd (ground (arith, subst (λ o. rest o ≡ some after) missing e))
      | inr (first, is) ↦
          first_half unlink_ok secret_writing public_writing fs public_path secret_path public_key
            secret_key named after first
            (write_new_file-Wrote secret_writing fs secret_path secret_key 0o600 first is)
            (subst (λ o. rest o ≡ some after) is e)
    ]
