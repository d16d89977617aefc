-- ===== src/Storage/Wal/Open.antt =====
-- let_storage_wal_init of LetDB/src/storage/wal.c: the file is created with its header, or opened
-- and its header is checked; writing then goes on at its end.
use let_dx.Base.{ℕ, ◌+◌, Bool, true, false, Option, none, some, [], length, ◌==◌, if◌then◌else◌}
use let_dx.Base.Bytes.{le_bytes, from_le}
use let_dx.Error.{
  Error, storage, wal_invalid_state, wal_invalid_path, wal_write_failed, wal_open_failed,
  wal_read_failed, wal_invalid_magic, wal_invalid_version, wal_create_failed,
}
use let_dx.Result.{Result, ok, err, stuck}
use let_dx.Storage.Wal.{header_magic, header_version}
use let_dx.Storage.Wal.File.{Wal, sys_write, sys_read, wal_close}
use let_dx.Storage.Wal.Replay.{wal_seek}

-- What open(2) with O_CREAT and O_EXCL answers: a new file, EEXIST, or another error.
pub data Creation : Type 0 where
  created exists_already refused : Creation

-- What the system answers: the two calls of open(2), the writes and reads of the header's two
-- parts, and the seek to the end.
pub record OpenDevice : Type 0 where
  pub creates : Creation
  pub opens : Bool
  pub magic : Option ℕ
  pub version : Option ℕ
  pub seeks : Bool

-- `write_result != size` is false
abbrev pub wrote : Option ℕ → ℕ → Bool
wrote none size = false
wrote (some n) size = n == size

abbrev pub refuse : Error → Wal → Result (Unit {0}) × Wal
refuse e w = (err e, wal_close w)

-- the version behind the magic bytes of a new file
unfoldable pub write_version : OpenDevice → Option ℕ × Wal → Result (Unit {0}) × Wal
write_version dev (n, w) = if wrote n 2 then (ok tt, w) else refuse (storage wal_write_failed) w

unfoldable pub write_header : OpenDevice → Option ℕ × Wal → Result (Unit {0}) × Wal
unfolding write_version
write_header dev (n, w) =
    if wrote n 8
    then write_version dev (sys_write dev.version (le_bytes 2 header_version) w)
    else refuse (storage wal_write_failed) w

-- the check of a part of the header, of `size` bytes at the position
unfoldable pub read_part : Option ℕ → ℕ → ℕ → Error → Wal → Result (Unit {0}) × Wal
read_part answer size expected mismatch w = elim (sys_read answer size w.bytes w.offset) [
  | none ↦ refuse (storage wal_read_failed) w
  | some got ↦
      if length got == size
      then if from_le got == expected
        then (ok tt, record w { offset = w.offset + size })
        else refuse mismatch w
      else refuse (storage wal_read_failed) w
]

unfoldable pub read_header : OpenDevice → Result (Unit {0}) × Wal → Result (Unit {0}) × Wal
unfolding read_part
read_header dev (ok u, w) = read_part dev.version 2 header_version (storage wal_invalid_version) w
read_header dev (err e, w) = (err e, w)
read_header dev (stuck, w) = (stuck, w)

-- the descriptor of the file, with its header written or checked
unfoldable pub open_file : OpenDevice → Creation → Wal → Result (Unit {0}) × Wal
unfolding write_header read_header
open_file dev created w = write_header dev (
    sys_write dev.magic (le_bytes 8 header_magic)
      (record w { opened = true; bytes = []; offset = 0 }))
open_file dev exists_already w =
    if dev.opens
    then read_header dev (
        read_part dev.magic 8 header_magic (storage wal_invalid_magic)
          (record w { opened = true; offset = 0 }))
    else (err (storage wal_open_failed), w)
open_file dev refused w = (err (storage wal_create_failed), w)

-- the seek to the end of the file
unfoldable pub seek_end : OpenDevice → Result (Unit {0}) × Wal → Result (Unit {0}) × Wal
seek_end dev (ok u, w) = elim (wal_seek dev.seeks) [
  | ok v ↦ (ok tt, record w { offset = length w.bytes })
  | err e ↦ refuse e w
  | stuck ↦ (stuck, w)
]
seek_end dev (err e, w) = (err e, w)
seek_end dev (stuck, w) = (stuck, w)

-- let_storage_wal_init; the two tests say whether the state and the path are given. The bytes of the
-- log it is given are those of the file that the path names, if there is one.
unfoldable pub wal_init : OpenDevice → Bool → Bool → Wal → Result (Unit {0}) × Wal
unfolding open_file seek_end
wal_init dev has_state has_path w =
    if has_state
    then if has_path
      then seek_end dev (open_file dev dev.creates w)
      else (err (storage wal_invalid_path), w)
    else (err (storage wal_invalid_state), w)
