-- ===== src/Keys.antt =====
-- Key files: src/owner_keygen.c writes them, `load_secret_key` of src/master_npb.c and `load_public_key` of
-- src/worker_npb.c read them. Only regular files occur, and the
-- umask clears no bit of the modes; the answers of the system calls are arguments.
pub mod Writes
pub mod Files
pub mod Returns
mod Tests
use distributed_enclave.Common.{
  ℕ, ◌+◌, Bool, true, false, not, ◌||◌, ◌&&◌, ltb, ◌==◌, ◌++◌, length, take, drop, bit_and,
}
use distributed_enclave.Common.{List, [], ◌∷◌, Option, none, some, if◌then◌else◌}
use distributed_enclave.Wire.{Bytes}

pub record File : Type 0 where
  pub content : Bytes
  pub mode : ℕ

-- The files by their paths.
abbrev pub Fs : Type 0
Fs = Bytes → Option File

abbrev pub same_path : Bytes → Bytes → Bool
same_path [] [] = true
same_path [] (b ∷ ys) = false
same_path (a ∷ xs) [] = false
same_path (a ∷ xs) (b ∷ ys) = (a == b) && same_path xs ys

abbrev pub put : Fs → Bytes → Option File → Fs
put fs path file other = if same_path other path then file else fs other

-- What one call of write() answers: a count, EINTR, or another error.
pub data WriteAnswer : Type 0 where
  wrote : ℕ → WriteAnswer
  interrupted : WriteAnswer
  write_error : WriteAnswer

pub data WriteEnd : Type 0 where
  all_written : WriteEnd
  write_failed : WriteEnd
  still_writing : WriteEnd

-- `while (written < data_len)`: how it ends, and the file's content, to which each call adds bytes of
-- `bytes + written`. The answers are those of the calls to come.
unfoldable pub write_loop : Bytes → ℕ → Bytes → List WriteAnswer → WriteEnd × Bytes
write_loop bytes written content [] =
    if ltb written (length bytes) then (still_writing, content) else (all_written, content)
write_loop bytes written content (wrote count ∷ answers) =
    let rest =
      write_loop bytes (written + count) (content ++ take count (drop written bytes)) answers in
    if ltb written (length bytes) then rest else (all_written, content)
write_loop bytes written content (interrupted ∷ answers) =
    let rest = write_loop bytes written content answers in
    if ltb written (length bytes) then rest else (all_written, content)
write_loop bytes written content (write_error ∷ answers) =
    if ltb written (length bytes) then (write_failed, content) else (all_written, content)

-- The answers for one file.
pub record Writing : Type 0 where
  pub open_ok : Bool
  pub answers : List WriteAnswer
  pub sync_ok : Bool
  pub close_ok : Bool
  pub unlink_ok : Bool

-- The files behind unlink(), whose answer is not looked at.
abbrev pub unlinked : Bool → Fs → Bytes → File → Fs
unlinked true fs path file = put fs path none
unlinked false fs path file = put fs path (some file)

-- Behind the loop; `none` while answers are missing.
abbrev pub after_loop : Writing → Fs → Bytes → ℕ → WriteEnd × Bytes → Option (Fs × Bool)
after_loop w fs path mode (still_writing, content) = none
after_loop w fs path mode (write_failed, content) =
    some (unlinked w.unlink_ok fs path (record { content = content; mode = mode }), false)
after_loop w fs path mode (all_written, content) =
    if not w.sync_ok || not w.close_ok
    then some (unlinked w.unlink_ok fs path (record { content = content; mode = mode }), false)
    else some (put fs path (some (record { content = content; mode = mode })), true)

-- open() with O_CREAT and O_EXCL, which fails for a path that exists.
abbrev pub after_open : Writing → Fs → Bytes → Bytes → ℕ → Option File → Option (Fs × Bool)
after_open w fs path bytes mode (some file) = some (fs, false)
after_open w fs path bytes mode none =
    if not w.open_ok
    then some (fs, false)
    else after_loop w fs path mode (write_loop bytes 0 [] w.answers)

-- The files afterwards, and whether the result is 0.
unfoldable pub write_new_file : Writing → Fs → Bytes → Bytes → ℕ → Option (Fs × Bool)
write_new_file w fs path bytes mode = after_open w fs path bytes mode (fs path)

-- The second half of the generator's `main`: the public key is tried, and the secret file goes when
-- that fails, if unlink() succeeds.
abbrev pub after_public : Bool → Bytes → Option (Fs × Bool) → Option (Fs × Bool)
after_public unlink_ok secret_path none = none
after_public true secret_path (some (fs, false)) = some (put fs secret_path none, false)
after_public false secret_path (some (fs, false)) = some (fs, false)
after_public unlink_ok secret_path (some (fs, true)) = some (fs, true)

abbrev pub after_secret :
    Bool → Writing → Bytes → Bytes → Bytes → Option (Fs × Bool) → Option (Fs × Bool)
after_secret unlink_ok public_writing public_path secret_path public_key none = none
after_secret unlink_ok public_writing public_path secret_path public_key (some (fs, false)) =
    some (fs, false)
after_secret unlink_ok public_writing public_path secret_path public_key (some (fs, true)) =
    after_public unlink_ok secret_path
      (write_new_file public_writing fs public_path public_key 0o644)

-- `main` of the generator after the key pair is made: 0 is true, 1 is false. `unlink_ok` is the answer
-- of its own unlink().
unfoldable pub owner_keygen :
    Bool → Writing → Writing → Fs → Bytes → Bytes → Bytes → Bytes → Option (Fs × Bool)
owner_keygen unlink_ok secret_writing public_writing fs public_path secret_path public_key
      secret_key =
    after_secret unlink_ok public_writing public_path secret_path public_key
      (write_new_file secret_writing fs secret_path secret_key 0o600)

-- `read_ok` says that the file can be opened and read without an error.
abbrev read_exactly : Bool → File → ℕ → Option Bytes
read_exactly read_ok file key_len =
    if not read_ok || not (length file.content == key_len) then none else some file.content

-- The path that the environment gives, if it is set.
unfoldable pub load_secret_key : Fs → Option Bytes → Bool → ℕ → Option Bytes
load_secret_key fs none read_ok key_len = none
load_secret_key fs (some path) read_ok key_len = if length path == 0 then none else elim (fs path) [
  | none ↦ none
  | some file ↦
      if not (bit_and file.mode 0o77 == 0) then none else read_exactly read_ok file key_len
]

unfoldable pub load_public_key : Fs → Bytes → Bool → ℕ → Option Bytes
load_public_key fs path read_ok key_len = elim (fs path) [
  | none ↦ none
  | some file ↦ read_exactly read_ok file key_len
]
