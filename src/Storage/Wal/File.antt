-- ===== src/Storage/Wal/File.antt =====
-- let_storage_wal_t of LetDB/include/let/storage/wal.h, with the file behind its descriptor: the
-- bytes on disk and the position of the next read or write. What the system calls return is given:
-- `none` is -1, and `some n` a transfer of at most n bytes.
use let_dx.Base.{ℕ, ◌+◌, Bool, Option, none, some, List, [], ◌++◌, length, take, drop, false}

pub record Wal : Type 0 where
  pub transactions : ℕ
  -- the descriptor is not -1
  pub opened : Bool
  pub bytes : List ℕ
  pub offset : ℕ

-- let_storage_wal_empty; the descriptor 0 of the zeroed struct is not -1
abbrev pub wal_empty : Wal
wal_empty = record { transactions = 0; opened = Bool.true; bytes = []; offset = 0 }

-- The bytes that replace those at the position.
abbrev pub write_at : List ℕ → ℕ → List ℕ → List ℕ
write_at bytes offset new = take offset bytes ++ (new ++ drop (offset + length new) bytes)

-- write(2): how many bytes were written, and the file after it
unfoldable pub sys_write : Option ℕ → List ℕ → Wal → Option ℕ × Wal
sys_write none new w = (none, w)
sys_write (some n) new w =
    let written = take n new in
    (
      some (length written),
      record w { bytes = write_at w.bytes w.offset written; offset = w.offset + length written },
    )

-- read(2) of `size` bytes at the position
unfoldable pub sys_read : Option ℕ → ℕ → List ℕ → ℕ → Option (List ℕ)
sys_read none size bytes offset = none
sys_read (some n) size bytes offset = some (take n (take size (drop offset bytes)))

-- let_storage_wal_close
abbrev pub wal_close : Wal → Wal
wal_close w = record w { opened = false }
