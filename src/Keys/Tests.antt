-- ===== src/Keys/Tests.antt =====
-- Runs of the key generator with keys of three bytes.
use distributed_enclave.Common.{◌≡◌, Bool, All, refl, arith, ◌∷◌, [], true, false, none, some}
use distributed_enclave.Keys.{
  Fs, put, Writing, wrote, interrupted, write_error, write_loop, write_new_file, owner_keygen,
}
use distributed_enclave.Keys.Writes.{Advances}
use distributed_enclave.Keys.Returns.{owner_keygen_returns}
use distributed_enclave.Keys.Files.{KeysMade, owner_keygen-KeysMade}

abbrev no_files : Fs
no_files path = none

-- The first call writes one byte, the next is interrupted, the last writes the rest.
abbrev in_pieces : Writing
in_pieces = record {
  open_ok = true;
  answers = wrote 1 ∷ interrupted ∷ wrote 2 ∷ [];
  sync_ok = true;
  close_ok = true;
  unlink_ok = true;
}

abbrev full_disk : Writing
full_disk = record {
  open_ok = true;
  answers = wrote 1 ∷ wrote 1 ∷ write_error ∷ [];
  sync_ok = true;
  close_ok = true;
  unlink_ok = true;
}

abbrev both : Fs
both =
    put (put no_files (2 ∷ []) (some (record { content = 7 ∷ 8 ∷ 9 ∷ []; mode = 0o600 }))) (1 ∷ [])
      (some (record { content = 4 ∷ 5 ∷ 6 ∷ []; mode = 0o644 }))

makes_both :
    owner_keygen true in_pieces in_pieces no_files
      (1 ∷ [])
      (2 ∷ [])
      (4 ∷ 5 ∷ 6 ∷ [])
      (7 ∷ 8 ∷ 9 ∷ [])
    ≡ some (both, true)
unfolding owner_keygen write_new_file write_loop
makes_both = refl

owner_keygen-KeysMade_example :
    KeysMade true no_files (1 ∷ []) (2 ∷ []) (4 ∷ 5 ∷ 6 ∷ []) (7 ∷ 8 ∷ 9 ∷ []) (both, true)
owner_keygen-KeysMade_example =
    owner_keygen-KeysMade true in_pieces in_pieces no_files (1 ∷ []) (2 ∷ []) (4 ∷ 5 ∷ 6 ∷ [])
      (7 ∷ 8 ∷ 9 ∷ []) (both, true) (omega arith) makes_both

-- The disk is full at the third byte: no file is left.
fails_clean :
    owner_keygen true full_disk in_pieces no_files
      (1 ∷ [])
      (2 ∷ [])
      (4 ∷ 5 ∷ 6 ∷ [])
      (7 ∷ 8 ∷ 9 ∷ [])
    ≡ some (put no_files (2 ∷ []) none, false)
unfolding owner_keygen write_new_file write_loop
fails_clean = refl

-- A file in three calls.
abbrev bytewise : Writing
bytewise = record {
  open_ok = true;
  answers = wrote 1 ∷ wrote 1 ∷ wrote 1 ∷ [];
  sync_ok = true;
  close_ok = true;
  unlink_ok = false;
}

abbrev bytewise_Advances : All Advances bytewise.answers
bytewise_Advances = (omega arith, (omega arith, (omega arith, tt)))

abbrev full_disk_Advances : All Advances full_disk.answers
full_disk_Advances = (omega arith, (omega arith, (tt, tt)))

owner_keygen_returns_example :
    (after : Fs × Bool) × (owner_keygen false bytewise full_disk no_files
        (1 ∷ [])
        (2 ∷ [])
        (4 ∷ 5 ∷ 6 ∷ [])
        (7 ∷ 8 ∷ 9 ∷ [])
      ≡ some after)
owner_keygen_returns_example =
    owner_keygen_returns false bytewise full_disk no_files (1 ∷ []) (2 ∷ []) (4 ∷ 5 ∷ 6 ∷ [])
      (7 ∷ 8 ∷ 9 ∷ []) bytewise_Advances (omega arith) full_disk_Advances (omega arith)
