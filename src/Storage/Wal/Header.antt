-- ===== src/Storage/Wal/Header.antt =====
-- A log that `let_storage_wal_init` accepts has its header.
use let_dx.Base.{
  ℕ, ◌+◌, ◌≡◌, refl, sym, ap, ◌∙◌, subst, Bool, true, false, Option, none, some, List, [], ◌++◌,
  append-nil, append_assoc, length, length-take, take, drop, take_all, drop_all, take-append-drop,
  drop-drop, All, All-take, All-drop, ◌==◌, ==_iff, arith, Bool-cases, inl, inr,
}
use let_dx.Base.Bytes.{le_bytes, from_le, IsByte, le_bytes-from_le}
use let_dx.Error.{Error, storage, wal_invalid_version, wal_invalid_magic}
use let_dx.Result.{Result, ok, err, stuck}
use let_dx.Storage.Wal.{header_magic, header_version}
use let_dx.Storage.Wal.File.{Wal, sys_write, sys_read}
use let_dx.Storage.Wal.Log.{header_bytes, log_file, log_bytes}
use let_dx.Storage.Wal.Replay.{wal_seek}
use let_dx.Storage.Wal.Write.{AtEnd, torn, sys_write_lem}
use let_dx.Storage.Wal.Open.{
  wrote, Creation, OpenDevice, created, exists_already, refused, write_header, write_version,
  read_part, read_header, open_file, seek_end, wal_init,
}

-- A read that returns all the bytes it asks for returns those that are there.
whole_read :
    (n size : ℕ) (rest : List ℕ)
    → length (take n (take size rest)) ≡ size
    → take n (take size rest) ≡ take size rest
whole_read n size rest h =
    take_all n (take size rest)
      (omega (arith, length-take n (take size rest), length-take size rest))

-- The bytes of a number, and what follows them.
begins_with :
    (n size expected : ℕ) (rest : List ℕ)
    → All IsByte rest
    → length (take n (take size rest)) ≡ size
    → from_le (take n (take size rest)) ≡ expected
    → rest ≡ le_bytes size expected ++ drop size rest
begins_with n size expected rest bytes full value =
    let got = take size rest in
    let same = whole_read n size rest full in
    let number : le_bytes size expected ≡ got = rw⁻¹ value (
      rw same (
        subst (λ (k : ℕ). le_bytes k (from_le got) ≡ got) (ap length (sym same) ∙ full)
          (le_bytes-from_le got (All-take IsByte size rest bytes)))) in
    rw number (sym (take-append-drop size rest))

-- A part of the header that is accepted stands at the position.
read_part-ok :
    (answer : Option ℕ) (size expected : ℕ) (mismatch : Error) (w w' : Wal)
    → All IsByte w.bytes
    → read_part answer size expected mismatch w ≡ (ok tt, w')
    → (drop w.offset w.bytes ≡ le_bytes size expected ++ drop (w.offset + size) w.bytes)
      × (w' ≡ record w { offset = w.offset + size })
unfolding read_part sys_read
read_part-ok none size expected mismatch w w' bytes h = cc
read_part-ok (some n) size expected mismatch w w' bytes h =
    let rest = drop w.offset w.bytes in
    let (full, value, same) : (length (take n (take size rest)) ≡ size)
        × (from_le (take n (take size rest)) ≡ expected)
        × (w' ≡ record w { offset = w.offset + size }) =
      ground arith in
    (
      begins_with n size expected rest (All-drop IsByte w.offset w.bytes bytes) full value
          ∙ ap (λ t. le_bytes size expected ++ t) (drop-drop size w.offset w.bytes),
      same,
    )

read_header-ok :
    (dev : OpenDevice) (r : Result (Unit {0}) × Wal) (w' : Wal)
    → read_header dev r ≡ (ok tt, w')
    → (w : Wal) × (r ≡ (ok tt, w))
      × (read_part dev.version 2 header_version (storage wal_invalid_version) w ≡ (ok tt, w'))
unfolding read_header
read_header-ok dev (ok u, w) w' h = (w, refl, h)
read_header-ok dev (err e, w) w' h = cc
read_header-ok dev (stuck, w) w' h = cc

-- A file that exists, has its header, and is left as it is.
existing-ok :
    (dev : OpenDevice) (w w' : Wal)
    → All IsByte w.bytes
    → open_file dev exists_already w ≡ (ok tt, w')
    → (w.bytes ≡ header_bytes ++ drop 10 w.bytes) × (w'.bytes ≡ w.bytes)
unfolding open_file
existing-ok dev w w' bytes h = elim (Bool-cases dev.opens) [
  | inr closed ↦ ground arith
  | inl opens ↦
      let opened : Wal = record w { opened = true; offset = 0 } in
      let r = read_part dev.magic 8 header_magic (storage wal_invalid_magic) opened in
      let read : read_header dev r ≡ (ok tt, w') = ground arith in
      let (w1, first, second) = read_header-ok dev r w' read in
      let (magic, same1) = read_part-ok dev.magic 8 header_magic _ opened w1 bytes first in
      let (version, same2) =
        read_part-ok dev.version 2 header_version _ w1 w' (rw same1 bytes) second in
      let version_there : drop 8 w.bytes ≡ le_bytes 2 header_version ++ drop 10 w.bytes =
        subst
          (λ v. drop v.offset v.bytes ≡ le_bytes 2 header_version ++ drop (v.offset + 2) v.bytes)
          same1 version in
      (
        magic
            ∙ ap (λ t. le_bytes 8 header_magic ++ t) version_there
            ∙ sym (
                unfold header_bytes in
                append_assoc (le_bytes 8 header_magic) (le_bytes 2 header_version)
                  (drop 10 w.bytes)),
        ap (λ v. v.bytes) same2 ∙ ap (λ v. v.bytes) same1,
      )
]

written_whole :
    (answer : Option ℕ) (new : List ℕ) (w : Wal)
    → AtEnd w
    → wrote (sys_write answer new w).0 (length new) ≡ true
    → (sys_write answer new w).1 ≡ torn w new
written_whole none new w h e = unfold sys_write in cc
written_whole (some n) new w h e =
    let written = sys_write_lem n new w h in
    let full : (length (take n new) == length new) ≡ true =
      ap (λ r. wrote r.0 (length new)) (sym written) ∙ e in
    let whole : take n new ≡ new =
      take_all n new
        (omega (arith, (==_iff (length (take n new)) (length new)).0 full, length-take n new)) in
    ap (λ r. r.1) written ∙ ap (torn w) whole

write_header-ok :
    (dev : OpenDevice) (r : Option ℕ × Wal) (w' : Wal)
    → write_header dev r ≡ (ok tt, w')
    → (wrote r.0 8 ≡ true)
      × (write_version dev (sys_write dev.version (le_bytes 2 header_version) r.1) ≡ (ok tt, w'))
unfolding write_header
write_header-ok dev (n, w) w' h = ground arith

write_version-ok :
    (dev : OpenDevice) (r : Option ℕ × Wal) (w' : Wal)
    → write_version dev r ≡ (ok tt, w')
    → (wrote r.0 2 ≡ true) × (w' ≡ r.1)
unfolding write_version
write_version-ok dev (n, w) w' h = ground arith

-- A new file gets its header.
created-ok :
    (dev : OpenDevice) (w w' : Wal) → open_file dev created w ≡ (ok tt, w') → w'.bytes ≡ log_file []
unfolding open_file le_bytes
created-ok dev w w' h =
    let empty : Wal = record w { opened = true; bytes = []; offset = 0 } in
    let magic = le_bytes 8 header_magic in
    let version = le_bytes 2 header_version in
    let r1 = sys_write dev.magic magic empty in
    let (full1, h1) = write_header-ok dev r1 w' h in
    let w1 = written_whole dev.magic magic empty refl full1 in
    let (full2, same) = write_version-ok dev (sys_write dev.version version r1.1) w' h1 in
    let w2 =
      written_whole dev.version version r1.1
        (ap (λ v. v.offset) w1 ∙ sym (ap (λ v. length v.bytes) w1)) full2 in
    ap (λ v. v.bytes) same
    ∙ ap (λ v. v.bytes) w2
    ∙ ap (λ v. v.bytes ++ version) w1
    ∙ unfold header_bytes log_bytes in sym (append-nil (magic ++ version))

-- What an accepted log is.
pub record IsOpened (dev : OpenDevice) (w w' : Wal) : Type 0 where
  pub header : w'.bytes ≡ header_bytes ++ drop 10 w'.bytes
  pub at_end : AtEnd w'
  pub new : dev.creates ≡ created → w'.bytes ≡ log_file []
  pub kept : dev.creates ≡ exists_already → w'.bytes ≡ w.bytes

record Headed (c : Creation) (w w1 : Wal) : Type 0 where
  header : w1.bytes ≡ header_bytes ++ drop 10 w1.bytes
  new : c ≡ created → w1.bytes ≡ log_file []
  kept : c ≡ exists_already → w1.bytes ≡ w.bytes

open_file-ok :
    (dev : OpenDevice) (c : Creation) (w w1 : Wal)
    → All IsByte w.bytes
    → open_file dev c w ≡ (ok tt, w1)
    → Headed c w w1
unfolding log_bytes
open_file-ok dev created w w1 bytes h =
    let empty = created-ok dev w w1 h in
    record {
      header = rw empty (
          ap (λ t. header_bytes ++ t)
            (sym
              (drop_all 10 (log_file []) (unfold header_bytes log_bytes le_bytes in omega arith))));
      new = λ e. empty;
      kept = λ e. cc;
    }
open_file-ok dev exists_already w w1 bytes h =
    let (headed, same) = existing-ok dev w w1 bytes h in
    record { header = rw same headed; new = λ e. cc; kept = λ e. same }
open_file-ok dev refused w w1 bytes h = unfold open_file in cc

seek_end-ok :
    (dev : OpenDevice) (r : Result (Unit {0}) × Wal) (w' : Wal)
    → seek_end dev r ≡ (ok tt, w')
    → (w1 : Wal) × (r ≡ (ok tt, w1)) × (w' ≡ record w1 { offset = length w1.bytes })
unfolding seek_end wal_seek
seek_end-ok dev (ok u, w) w' h = elim (Bool-cases dev.seeks) [
  | inl e ↦ (w, refl, ground arith)
  | inr e ↦ ground arith
]
seek_end-ok dev (err e, w) w' h = cc
seek_end-ok dev (stuck, w) w' h = cc

-- A file of bytes that is accepted begins with the header, and the position is its end. A file that
-- was created holds the header alone, so it is the log of no entries; one that was there is
-- unchanged.
pub wal_init-IsOpened :
    (dev : OpenDevice) (has_state has_path : Bool) (w w' : Wal)
    → All IsByte w.bytes
    → wal_init dev has_state has_path w ≡ (ok tt, w')
    → IsOpened dev w w'
unfolding wal_init
wal_init-IsOpened dev false has_path w w' bytes h = cc
wal_init-IsOpened dev true false w w' bytes h = cc
wal_init-IsOpened dev true true w w' bytes h =
    let (w1, opened, same) = seek_end-ok dev (open_file dev dev.creates w) w' h in
    let headed = open_file-ok dev dev.creates w w1 bytes opened in
    rw same (record { header = headed.header; at_end = refl; new = headed.new; kept = headed.kept })
