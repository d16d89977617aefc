-- ===== src/Storage/Wal/Opening.antt =====
-- On a system on which nothing fails, `let_storage_wal_init` opens a new log, and one that begins with
-- the header.
use let_dx.Base.{
  ℕ, ◌+◌, ◌^◌, ◌≤◌, ◌<◌, ◌≡◌, refl, ap, ◌∙◌, true, some, List, [], ◌++◌, length, take, drop,
  take_all, take-append, drop-append, append_assoc, ==_refl, arith,
}
use let_dx.Base.Bytes.{le_bytes, length-le_bytes, from_le-le_bytes}
use let_dx.Error.{Error, storage, wal_invalid_version, wal_invalid_magic}
use let_dx.Result.{ok}
use let_dx.Storage.Wal.{header_magic, header_version}
use let_dx.Storage.Wal.File.{Wal, sys_write, sys_read}
use let_dx.Storage.Wal.Log.{header_bytes}
use let_dx.Storage.Wal.Replay.{wal_seek}
use let_dx.Storage.Wal.Write.{AtEnd, torn, sys_write_lem}
use let_dx.Storage.Wal.Open.{
  OpenDevice, created, exists_already, write_header, write_version, read_part, read_header,
  open_file, seek_end, wal_init,
}

-- Nothing fails: files are opened, and each transfer is whole.
pub record Opens (dev : OpenDevice) : Type 0 where
  pub opens : dev.opens ≡ true
  pub magic : (n : ℕ) × (dev.magic ≡ some n) × (8 ≤ n)
  pub version : (n : ℕ) × (dev.version ≡ some n) × (2 ≤ n)
  pub seeks : dev.seeks ≡ true

-- A part of the header that is there is accepted.
read_part-there :
    (n size expected : ℕ) (mismatch : Error) (w : Wal) (rest : List ℕ)
    → size ≤ n
    → expected < 256 ^ size
    → drop w.offset w.bytes ≡ le_bytes size expected ++ rest
    → read_part (some n) size expected mismatch w ≡ (ok tt, record w { offset = w.offset + size })
unfolding read_part sys_read
read_part-there n size expected mismatch w rest enough fits there =
    let part = le_bytes size expected in
    let got : take n (take size (part ++ rest)) ≡ part =
      ap (take n) (take-append size part rest (length-le_bytes size expected))
      ∙ take_all n part (omega (arith, length-le_bytes size expected)) in
    rw there (
      rw got (
        rw (length-le_bytes size expected, from_le-le_bytes size expected fits)
          (rw (==_refl size) (rw (==_refl expected) refl))))

-- A part of the header that is written whole.
write_whole :
    (n : ℕ) (new : List ℕ) (w : Wal)
    → AtEnd w
    → length new ≤ n
    → sys_write (some n) new w ≡ (some (length new), torn w new)
write_whole n new w at_end enough =
    sys_write_lem n new w at_end
    ∙ ap (λ (t : List ℕ). (some (length t), torn w t)) (take_all n new enough)

-- A file that begins with the header is opened at its end, and is not changed.
pub wal_init-existing :
    (dev : OpenDevice) (w : Wal) (rest : List ℕ)
    → Opens dev
    → dev.creates ≡ exists_already
    → w.bytes ≡ header_bytes ++ rest
    → wal_init dev true true w ≡ (ok tt, record w { opened = true; offset = length w.bytes })
unfolding wal_init open_file read_header seek_end wal_seek
wal_init-existing dev w rest works there file =
    let (m, magic_read, m_enough) = works.magic in
    let (v, version_read, v_enough) = works.version in
    let magic = le_bytes 8 header_magic in
    let version = le_bytes 2 header_version in
    let file' : w.bytes ≡ magic ++ (version ++ rest) =
      file ∙ unfold header_bytes in append_assoc magic version rest in
    let opened : Wal = record w { opened = true; offset = 0 } in
    let first =
      read_part-there m 8 header_magic (storage wal_invalid_magic) opened (version ++ rest) m_enough
        (omega arith) file' in
    let behind : drop 8 w.bytes ≡ version ++ rest =
      ap (drop 8) file' ∙ drop-append 8 magic (version ++ rest) (length-le_bytes 8 header_magic) in
    let second =
      read_part-there v 2 header_version (storage wal_invalid_version)
        (record opened { offset = 8 }) rest v_enough (omega arith) behind in
    rw (there, works.opens, magic_read) (rw (first, version_read) (rw second (rw works.seeks refl)))

-- A file that does not exist is created with the header, and is opened behind it.
pub wal_init-created :
    (dev : OpenDevice) (w : Wal)
    → Opens dev
    → dev.creates ≡ created
    → wal_init dev true true w
      ≡ (ok tt, record w { opened = true; bytes = header_bytes; offset = length header_bytes })
unfolding wal_init open_file write_header write_version seek_end wal_seek le_bytes header_bytes
wal_init-created dev w works new =
    let (m, magic_written, m_enough) = works.magic in
    let (v, version_written, v_enough) = works.version in
    let magic = le_bytes 8 header_magic in
    let version = le_bytes 2 header_version in
    let empty : Wal = record w { opened = true; bytes = []; offset = 0 } in
    let first = write_whole m magic empty refl (omega (arith, length-le_bytes 8 header_magic)) in
    let second =
      write_whole v version (torn empty magic) refl
        (omega (arith, length-le_bytes 2 header_version)) in
    rw (new, magic_written) (rw first (rw version_written (rw second (rw works.seeks refl))))
