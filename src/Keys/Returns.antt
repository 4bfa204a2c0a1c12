-- ===== src/Keys/Returns.antt =====
-- The key generator comes to an end, whatever of its calls fail.
use distributed_enclave.Common.{◌≤◌, ◌≡◌, refl, Bool, true, false, length, All, some}
use distributed_enclave.Wire.{Bytes}
use distributed_enclave.Keys.{Fs, Writing, after_public, after_secret, owner_keygen}
use distributed_enclave.Keys.Writes.{Advances, write_new_file_returns}

public_returns :
    (unlink_ok : Bool) (secret_path : Bytes) (second : Fs × Bool)
    → (after : Fs × Bool) × (after_public unlink_ok secret_path (some second) ≡ some after)
public_returns true secret_path (fs, false) = (_, refl)
public_returns false secret_path (fs, false) = (_, refl)
public_returns unlink_ok secret_path (fs, true) = (_, refl)

module _ (unlink_ok : Bool) (public_writing : Writing) (public_path secret_path public_key : Bytes)
    (advance : All Advances public_writing.answers)
    (enough : length public_key ≤ length public_writing.answers) where
  secret_returns :
      (first : Fs × Bool)
      → (after : Fs × Bool) × (after_secret unlink_ok public_writing public_path secret_path
            public_key
            (some first)
          ≡ some after)
  secret_returns (fs, false) = ((fs, false), refl)
  secret_returns (fs, true) =
      let (second, e) =
        write_new_file_returns public_writing fs public_path public_key 0o644 advance enough in
      rw e (public_returns unlink_ok secret_path second)

-- When, for each of the two files, there are at least as many calls of write() as there are bytes,
-- and each call writes at least one byte or fails with an error other than EINTR, the generator comes
-- to an end with a result, whatever the other calls answer.
pub owner_keygen_returns :
    (unlink_ok : Bool) (secret_writing public_writing : Writing) (fs : Fs)
    (public_path secret_path public_key secret_key : Bytes)
    → All Advances secret_writing.answers
    → length secret_key ≤ length secret_writing.answers
    → All Advances public_writing.answers
    → length public_key ≤ length public_writing.answers
    → (after : Fs × Bool) × (owner_keygen unlink_ok secret_writing public_writing fs public_path
          secret_path public_key secret_key
        ≡ some after)
unfolding owner_keygen
owner_keygen_returns unlink_ok secret_writing public_writing fs public_path secret_path public_key
      secret_key secret_advance secret_enough public_advance public_enough =
    let (first, e) =
      write_new_file_returns secret_writing fs secret_path secret_key 0o600 secret_advance
        secret_enough in
    rw e (
      secret_returns unlink_ok public_writing public_path secret_path public_key public_advance
        public_enough first)
