-- ===== src/Keys/Writes.antt =====
-- What a call of `write_new_file` does, and that it ends.
use distributed_enclave.Common.{
  ℕ, ◌+◌, ◌<◌, ◌≤◌, ◌≡◌, refl, sym, ap, arith, Bool, true, false, not, ◌||◌, ltb, length, zero, suc,
  ◌++◌, ◌∙◌, take, drop, take_all,
}
use distributed_enclave.Common.{
  List, [], ◌∷◌, Option, none, some, if◌then◌else◌, Option-cases, inl, inr, ◌⊎◌, Bool-cases, All,
}
use distributed_enclave.Wire.{Bytes}
use mathlib.Core.Path.{subst}
use distributed_enclave.Keys.{
  unlinked, after_loop, after_open, WriteAnswer, wrote, interrupted, write_error, File, Fs,
  same_path, put, Writing, WriteEnd, all_written, write_failed, still_writing, write_loop,
  write_new_file,
}

pub same_path_refl : (p : Bytes) → same_path p p ≡ true
same_path_refl [] = refl
same_path_refl (c ∷ p) = ground (arith, same_path_refl p)

pub same_path-eq : (p q : Bytes) → same_path p q ≡ true → p ≡ q
same_path-eq [] [] e = refl
same_path-eq [] (b ∷ q) e = absurd (ground arith)
same_path-eq (a ∷ p) [] e = absurd (ground arith)
same_path-eq (a ∷ p) (b ∷ q) e = ground (arith, same_path-eq p q)

pub same_path_sym : (p q : Bytes) → same_path p q ≡ false → same_path q p ≡ false
same_path_sym [] [] e = e
same_path_sym [] (b ∷ q) e = refl
same_path_sym (a ∷ p) [] e = refl
same_path_sym (a ∷ p) (b ∷ q) e = elim (Bool-cases (same_path (b ∷ q) (a ∷ p))) [
  | inl same ↦ absurd (
      ground (
        arith,
        e,
        sym (same_path_refl (a ∷ p)),
        ap (same_path (a ∷ p)) (same_path-eq (b ∷ q) (a ∷ p) same),
      ))
  | inr apart ↦ apart
]

-- Taking a file away that was not there changes nothing.
put_nothing : (fs : Fs) (path : Bytes) → fs path ≡ none → (q : Bytes) → put fs path none q ≡ fs q
put_nothing fs path gone q = elim (Bool-cases (same_path q path)) [
  | inl same ↦ rw (same, same_path-eq q path same) (sym gone)
  | inr other ↦ rw other refl
]

pub some-injective : {A : Type 0} {x y : A} → some x ≡ some y → x ≡ y
some-injective e = cc

-- What stays of a path when a call fails: what was there, or, where unlink() failed, a file at a path
-- that was free.
abbrev pub Stays : Bool → Bytes → Fs → Fs → Bytes → Type 0
Stays unlink_ok path fs fs' q =
    (fs' q ≡ fs q) ⊎ ((unlink_ok ≡ false) × (same_path q path ≡ true) × (fs q ≡ none))

-- What a call of `write_new_file` does to the files.
abbrev pub Wrote : Bool → Fs → Bytes → Bytes → ℕ → Fs × Bool → Type 0
Wrote unlink_ok fs path bytes mode (fs', made) =
    ((made ≡ false) × ((q : Bytes) → Stays unlink_ok path fs fs' q))
    ⊎ ((made ≡ true)
        × (fs path ≡ none)
        × (fs' ≡ put fs path (some (record { content = bytes; mode = mode }))))

unlinked-Stays :
    (unlink_ok : Bool) (fs : Fs) (path : Bytes) (file : File)
    → fs path ≡ none
    → (q : Bytes) → Stays unlink_ok path fs (unlinked unlink_ok fs path file) q
unlinked-Stays true fs path file gone q = inl (put_nothing fs path gone q)
unlinked-Stays false fs path file gone q = elim (Bool-cases (same_path q path)) [
  | inl same ↦ inr (refl, same, ap fs (same_path-eq q path same) ∙ gone)
  | inr other ↦ inl (rw other refl)
]

take_more : (n m : ℕ) (bytes : Bytes) → take n bytes ++ take m (drop n bytes) ≡ take (n + m) bytes
take_more zero m bytes = let e : 0 + m ≡ m = omega arith in rw e refl
take_more (suc n) m [] = take_all [] m (omega arith) ∙ sym (take_all [] (suc n + m) (omega arith))
take_more (suc n) m (b ∷ bytes) =
    let e : suc n + m ≡ suc (n + m) = omega arith in rw e (ap (λ xs. b ∷ xs) (take_more n m bytes))

-- While the file holds what was written of the data, a loop that ends with all of it written leaves
-- exactly the data.
write_loop-content :
    (bytes : Bytes) (written : ℕ) (content : Bytes) (answers : List WriteAnswer) (final : Bytes)
    → content ≡ take written bytes
    → write_loop bytes written content answers ≡ (all_written, final)
    → final ≡ bytes
unfolding write_loop
write_loop-content bytes written content [] final holds e =
    elim (Bool-cases (ltb written (length bytes))) [
      | inl more ↦ absurd (ground (arith, e))
      | inr done ↦ ground (arith, e, holds, take_all bytes written (ground arith))
    ]
write_loop-content bytes written content (wrote count ∷ answers) final holds e =
    elim (Bool-cases (ltb written (length bytes))) [
      | inl more ↦
          write_loop-content bytes (written + count) (content ++ take count (drop written bytes))
            answers final
            (ap (λ c. c ++ take count (drop written bytes)) holds ∙ take_more written count bytes)
            (ground (arith, e))
      | inr done ↦ ground (arith, e, holds, take_all bytes written (ground arith))
    ]
write_loop-content bytes written content (interrupted ∷ answers) final holds e =
    elim (Bool-cases (ltb written (length bytes))) [
      | inl more ↦ write_loop-content bytes written content answers final holds (ground (arith, e))
      | inr done ↦ ground (arith, e, holds, take_all bytes written (ground arith))
    ]
write_loop-content bytes written content (write_error ∷ answers) final holds e =
    elim (Bool-cases (ltb written (length bytes))) [
      | inl more ↦ absurd (ground (arith, e))
      | inr done ↦ ground (arith, e, holds, take_all bytes written (ground arith))
    ]

after_loop-Wrote :
    (w : Writing) (fs : Fs) (path bytes : Bytes) (mode : ℕ) (ending : WriteEnd) (content : Bytes)
    (after : Fs × Bool)
    → fs path ≡ none
    → (ending ≡ all_written → content ≡ bytes)
    → after_loop w fs path mode (ending, content) ≡ some after
    → Wrote w.unlink_ok fs path bytes mode after
after_loop-Wrote w fs path bytes mode still_writing content after gone whole e =
    absurd (ground arith)
after_loop-Wrote w fs path bytes mode write_failed content after gone whole e =
    subst (Wrote w.unlink_ok fs path bytes mode) (some-injective e)
      (inl (refl, unlinked-Stays w.unlink_ok fs path _ gone))
after_loop-Wrote w fs path bytes mode all_written content after gone whole e =
    let made = put fs path (some (record { content = content; mode = mode })) in
    let left = unlinked w.unlink_ok fs path (record { content = content; mode = mode }) in
    let choose : Bool → Option (Fs × Bool) =
      λ b. if b then some (left, false) else some (made, true) in
    elim (Bool-cases (not w.sync_ok || not w.close_ok)) [
      | inl bad ↦
          (let e' : some (left, false) ≡ some after = subst (λ b. choose b ≡ some after) bad e in
            subst (Wrote w.unlink_ok fs path bytes mode) (some-injective e')
              (inl (refl, unlinked-Stays w.unlink_ok fs path _ gone)))
      | inr good ↦
          (let e' : some (made, true) ≡ some after = subst (λ b. choose b ≡ some after) good e in
            subst (Wrote w.unlink_ok fs path bytes mode) (some-injective e') (
              inr (
                refl,
                gone,
                ap (λ c. put fs path (some (record { content = c; mode = mode }))) (whole refl),
              )))
    ]

pub write_new_file-Wrote :
    (w : Writing) (fs : Fs) (path bytes : Bytes) (mode : ℕ) (after : Fs × Bool)
    → write_new_file w fs path bytes mode ≡ some after
    → Wrote w.unlink_ok fs path bytes mode after
unfolding write_new_file
write_new_file-Wrote w fs path bytes mode after e = elim (Option-cases (fs path)) [
  | inr (file, there) ↦
      (let e' : some (fs, false) ≡ some after =
          subst (λ o. after_open w fs path bytes mode o ≡ some after) there e in
        subst (Wrote w.unlink_ok fs path bytes mode) (some-injective e')
          (inl (refl, λ q. inl refl)))
  | inl gone ↦
      (let e' = subst (λ o. after_open w fs path bytes mode o ≡ some after) gone e in
        let ran = write_loop bytes 0 [] w.answers in
        let choose : Bool → Option (Fs × Bool) =
          λ b. if b then some (fs, false) else after_loop w fs path mode ran in
        elim (Bool-cases (not w.open_ok)) [
          | inl closed ↦
              (let e'' : some (fs, false) ≡ some after =
                  subst (λ b. choose b ≡ some after) closed e' in
                subst (Wrote w.unlink_ok fs path bytes mode) (some-injective e'')
                  (inl (refl, λ q. inl refl)))
          | inr opened ↦
              after_loop-Wrote w fs path bytes mode ran.0 ran.1 after gone
                (λ ended.
                  write_loop-content bytes 0 [] w.answers ran.1 refl (ap (λ k. (k, ran.1)) ended))
                (subst (λ b. choose b ≡ some after) opened e')
        ])
]

-- An answer of write() that brings the loop on.
abbrev pub Advances : WriteAnswer → Type 0
Advances (wrote count) = 0 < count
Advances interrupted = ⊥
Advances write_error = Unit

abbrev pub Ended : WriteEnd → Type 0
Ended all_written = Unit
Ended write_failed = Unit
Ended still_writing = ⊥

write_loop-Ended :
    (bytes : Bytes) (written : ℕ) (content : Bytes) (answers : List WriteAnswer)
    → All Advances answers
    → length bytes ≤ written + length answers
    → Ended (write_loop bytes written content answers).0
unfolding write_loop
write_loop-Ended bytes written content [] advance enough =
    let done : ltb written (length bytes) ≡ false = ground arith in rw done tt
write_loop-Ended bytes written content (wrote count ∷ answers) advance enough =
    elim (Bool-cases (ltb written (length bytes))) [
      | inl more ↦ rw more (
          write_loop-Ended bytes (written + count) (content ++ take count (drop written bytes))
            answers advance.1 (omega (arith, enough, advance.0)))
      | inr done ↦ rw done tt
    ]
write_loop-Ended bytes written content (interrupted ∷ answers) advance enough = absurd advance.0
write_loop-Ended bytes written content (write_error ∷ answers) advance enough =
    elim (Bool-cases (ltb written (length bytes))) [ inl more ↦ rw more tt | inr done ↦ rw done tt ]

after_loop_returns :
    (w : Writing) (fs : Fs) (path : Bytes) (mode : ℕ) (ending : WriteEnd) (content : Bytes)
    → Ended ending
    → (after : Fs × Bool) × (after_loop w fs path mode (ending, content) ≡ some after)
after_loop_returns w fs path mode all_written content ended =
    let file : File = record { content = content; mode = mode } in
    elim (Bool-cases (not w.sync_ok || not w.close_ok)) [
      | inl bad ↦ ((unlinked w.unlink_ok fs path file, false), rw bad refl)
      | inr good ↦ ((put fs path (some file), true), rw good refl)
    ]
after_loop_returns w fs path mode write_failed content ended =
    ((unlinked w.unlink_ok fs path (record { content = content; mode = mode }), false), refl)
after_loop_returns w fs path mode still_writing content ended = absurd ended

after_open_returns :
    (w : Writing) (fs : Fs) (path bytes : Bytes) (mode : ℕ) (there : Option File)
    → All Advances w.answers
    → length bytes ≤ length w.answers
    → (after : Fs × Bool) × (after_open w fs path bytes mode there ≡ some after)
after_open_returns w fs path bytes mode (some file) advance enough = ((fs, false), refl)
after_open_returns w fs path bytes mode none advance enough = elim (Bool-cases w.open_ok) [
  | inl opened ↦ rw opened (
      after_loop_returns w fs path mode (write_loop bytes 0 [] w.answers).0
        (write_loop bytes 0 [] w.answers).1
        (write_loop-Ended bytes 0 [] w.answers advance (omega (arith, enough))))
  | inr closed ↦ rw closed ((fs, false), refl)
]

-- A new file's writing comes to an end, with a result, when every call of write() writes something
-- or fails, for as many calls as there are bytes.
pub write_new_file_returns :
    (w : Writing) (fs : Fs) (path bytes : Bytes) (mode : ℕ)
    → All Advances w.answers
    → length bytes ≤ length w.answers
    → (after : Fs × Bool) × (write_new_file w fs path bytes mode ≡ some after)
unfolding write_new_file
write_new_file_returns w fs path bytes mode advance enough =
    after_open_returns w fs path bytes mode (fs path) advance enough
