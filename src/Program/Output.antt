-- ===== src/Program/Output.antt =====
-- The output file of `main` in src/master_npb.c: the text goes to a temporary file, which then takes
-- the place of the old one. The text itself is an argument; the mode is that of fopen without a umask.
pub mod Atomic
use distributed_enclave.Common.{
  ℕ, Bool, true, false, not, ◌||◌, ◌&&◌, leb, length, List, [], ◌∷◌, ◌++◌, some, none,
  if◌then◌else◌,
}
use distributed_enclave.Keys.{File, Fs, put}
use distributed_enclave.Wire.{Bytes}

abbrev pub path_max : ℕ
path_max = 4096

-- `".tmp."`
abbrev pub tmp_infix : Bytes
tmp_infix = b'.' ∷ b't' ∷ b'm' ∷ b'p' ∷ b'.' ∷ []

-- `snprintf` with "%s.tmp.%ld"; `pid` is the process id in decimal digits.
unfoldable pub csv_tmp : Bytes → Bytes → Bytes
csv_tmp csv_file pid = csv_file ++ (tmp_infix ++ pid)

-- The answers of the calls. `reached` is what the temporary file holds if one of them fails; when
-- none fails it holds the text.
pub record Answers : Type 0 where
  pub open_ok : Bool
  pub stream_error : Bool
  pub flush_ok : Bool
  pub sync_ok : Bool
  pub close_ok : Bool
  pub rename_ok : Bool
  pub remove_ok : Bool
  pub reached : Bytes

-- `output_error` behind fclose; fsync is called when there was no error before it.
unfoldable pub output_error : Answers → Bool
output_error a =
    let before_sync = a.stream_error || not a.flush_ok in
    (if before_sync then true else not a.sync_ok) || not a.close_ok

abbrev pub text_file : Bytes → File
text_file text = record { content = text; mode = 0o666 }

-- What the temporary file holds behind fclose.
abbrev pub held : Answers → Bytes → Bytes
held a text = if output_error a then a.reached else text

-- The files after each call that changes them, the files at the end, and the status of the process.
unfoldable pub write_csv : Answers → Fs → Bytes → Bytes → Bytes → List Fs × Fs × ℕ
write_csv a fs csv_file pid text =
    let tmp = csv_tmp csv_file pid in
    if leb path_max (length tmp)
    then ([], fs, 1)
    else if not a.open_ok
    then ([], fs, 1)
    else (let opened = put fs tmp (some (text_file [])) in
        let written = put fs tmp (some (text_file (held a text))) in
        if not (output_error a) && a.rename_ok
        then (
          opened ∷ written ∷ [],
          put (put fs tmp none) csv_file (some (text_file (held a text))),
          0,
        )
        else (opened ∷ written ∷ [], if a.remove_ok then put fs tmp none else written, 1))
