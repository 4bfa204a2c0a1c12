-- ===== src/Program/Output/Atomic.antt =====
-- The output file is replaced as a whole or not at all.
use distributed_enclave.Common.{
  ◌+◌, ◌<◌, ◌≡◌, refl, ap, arith, Bool, true, false, leb, length, length-append, All,
}
use distributed_enclave.Common.{◌++◌, Option, some, none, if◌then◌else◌, Bool-cases, ◌⊎◌, inl, inr}
use distributed_enclave.Keys.{File, Fs, put, same_path}
use distributed_enclave.Keys.Writes.{same_path_refl, same_path-eq, same_path_sym}
use distributed_enclave.Wire.{Bytes}
use distributed_enclave.Program.Output.{
  path_max, tmp_infix, csv_tmp, Answers, output_error, text_file, held, write_csv,
}

module _ (a : Answers) (fs : Fs) (csv_file pid text : Bytes) where
  tmp_apart : same_path (csv_tmp csv_file pid) csv_file ≡ false
  unfolding csv_tmp
  tmp_apart = elim (Bool-cases (same_path (csv_tmp csv_file pid) csv_file)) [
    | inr apart ↦ apart
    | inl same ↦
        (let longer : length (csv_file ++ (tmp_infix ++ pid)) ≡ length csv_file =
            ap length (same_path-eq (csv_tmp csv_file pid) csv_file same) in
          let parts : length (csv_file ++ (tmp_infix ++ pid))
              ≡ length csv_file + length (tmp_infix ++ pid) =
            length-append csv_file (tmp_infix ++ pid) in
          let some_byte : 0 < length (tmp_infix ++ pid) = omega arith in
          absurd (omega (arith, longer, parts, some_byte)))
  ]

  -- What holds for the files `now`, for a reader of the output file.
  abbrev pub OldOrNew : Fs → Type 0
  OldOrNew now = (now csv_file ≡ fs csv_file) ⊎ (now csv_file ≡ some (text_file text))

  put_tmp : (file : Option File) → put fs (csv_tmp csv_file pid) file csv_file ≡ fs csv_file
  put_tmp file = rw (same_path_sym (csv_tmp csv_file pid) csv_file tmp_apart) refl

  -- What a call of remove() leaves of the temporary file.
  after_remove :
      (ok : Bool) (reached : Bytes)
      → let now =
          if ok
          then put fs (csv_tmp csv_file pid) none
          else put fs (csv_tmp csv_file pid) (some (text_file reached)) in
        (now csv_file ≡ fs csv_file)
        × ((now (csv_tmp csv_file pid) ≡ none)
            ⊎ ((now (csv_tmp csv_file pid) ≡ fs (csv_tmp csv_file pid))
                ⊎ ((ok ≡ false) × (now (csv_tmp csv_file pid) ≡ some (text_file reached)))))
  after_remove true reached = (put_tmp none, inl (rw (same_path_refl (csv_tmp csv_file pid)) refl))
  after_remove false reached =
      (put_tmp _, inr (inr (refl, rw (same_path_refl (csv_tmp csv_file pid)) refl)))

  -- Whatever the calls answer: a reader who opens the output file at any moment finds the old content
  -- or the whole new one. Status 0 means that the new content is there and the temporary file is
  -- gone; otherwise the status is 1, the old content is there, and the temporary file is gone, or as
  -- it was before, or, only when its removal failed, left with what the writes reached.
  pub write_csv_atomic :
      let (during, at_end, status) = write_csv a fs csv_file pid text in
      All OldOrNew during
      × (((status ≡ 0)
            × (at_end csv_file ≡ some (text_file text))
            × (at_end (csv_tmp csv_file pid) ≡ none))
          ⊎ ((status ≡ 1)
              × (at_end csv_file ≡ fs csv_file)
              × ((at_end (csv_tmp csv_file pid) ≡ none)
                  ⊎ ((at_end (csv_tmp csv_file pid) ≡ fs (csv_tmp csv_file pid))
                      ⊎ ((a.remove_ok ≡ false)
                          × (at_end (csv_tmp csv_file pid) ≡ some (text_file (held a text))))))))
  unfolding write_csv
  write_csv_atomic =
      let tmp = csv_tmp csv_file pid in
      let here : same_path tmp tmp ≡ true = same_path_refl tmp in
      let itself : same_path csv_file csv_file ≡ true = same_path_refl csv_file in
      elim (Bool-cases (leb path_max (length tmp))) [
        | inl long ↦ rw (write_csv, long) (tt, inr (refl, refl, inr (inl refl)))
        | inr short ↦ elim (Bool-cases a.open_ok) [
          | inr unopened ↦ rw (write_csv, short, unopened) (tt, inr (refl, refl, inr (inl refl)))
          | inl opened ↦ elim (Bool-cases (output_error a)) [
            | inl error ↦
                rw (write_csv, short, error, opened)
                  (
                    (inl (put_tmp _), (inl (put_tmp _), tt)),
                    inr (
                        let (untouched, tmp_end) = after_remove a.remove_ok _ in
                        (refl, untouched, tmp_end)),
                  )
            | inr fine ↦ elim (Bool-cases a.rename_ok) [
              | inl renamed ↦
                  rw (write_csv, short, fine, renamed, opened)
                    (
                      (inl (put_tmp _), (inl (put_tmp _), tt)),
                      inl (refl, rw itself refl, rw (tmp_apart, here) refl),
                    )
              | inr unrenamed ↦
                  rw (write_csv, short, fine, unrenamed, opened)
                    (
                      (inl (put_tmp _), (inl (put_tmp _), tt)),
                      inr (
                          let (untouched, tmp_end) = after_remove a.remove_ok _ in
                          (refl, untouched, tmp_end)),
                    )
            ]
          ]
        ]
      ]
