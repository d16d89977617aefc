-- ===== src/Storage/Wal/Write.antt =====
-- let_storage_wal_write and let_storage_wal_sync of LetDB/src/storage/wal.c.
use native.Mathlib.Nat.{add-zero}
use let_dx.Base.{
  ℕ, ◌+◌, ◌%◌, ◌^◌, ◌≤◌, ◌≡◌, ◌≢◌, inl, inr, refl, sym, ap, ◌∙◌, Bool, true, false, Option, none,
  some, List, [], ◌++◌, length, take, ◌==◌, if◌then◌else◌, append-nil, arith, take_all, drop_all,
  Bool-cases, ==_iff, length-take, subst,
}
use let_dx.Error.{Error, storage, wal_nonce_mismatch, wal_write_failed, wal_sync_failed}
use let_dx.Error.Report.{fatal, error_report}
use let_dx.Result.{Result, ok, err, stuck}
use let_dx.Storage.Wal.{Entry, safe_bytes, sizeof_safe}
use let_dx.Storage.Wal.Bytes.{length-safe_bytes}
use let_dx.Storage.Wal.File.{Wal, sys_write, write_at}

-- What write(2) and fsync(2) answer while one entry is written.
pub record WriteDevice : Type 0 where
  pub writes : Option ℕ
  pub syncs : Bool

-- let_storage_wal_sync
unfoldable pub wal_sync : Bool → Result (Unit {0})
wal_sync true = ok tt
wal_sync false = err (storage wal_sync_failed)

-- the part behind the write
unfoldable pub wal_written : WriteDevice → Option ℕ × Wal → Result (Unit {0}) × Wal
wal_written dev (none, w) = (err (storage wal_write_failed), w)
wal_written dev (some n, w) =
    if n == sizeof_safe
    then elim (wal_sync dev.syncs) [
      | ok u ↦ (ok tt, record w { transactions = (w.transactions + 1) % 2 ^ 64 })
      | err e ↦ (err e, w)
      | stuck ↦ (stuck, w)
    ]
    else (err (storage wal_write_failed), w)

-- let_storage_wal_write
unfoldable pub wal_write : WriteDevice → Wal → Entry → Result (Unit {0}) × Wal
wal_write dev w e =
    if e.id == w.transactions
    then wal_written dev (sys_write dev.writes (safe_bytes e) w)
    else (err (storage wal_nonce_mismatch), w)

-- The position stands at the end of the file, as it does whenever the log is open for writing.
abbrev pub AtEnd : Wal → Type 0
AtEnd w = w.offset ≡ length w.bytes

write_at_end : (bytes new : List ℕ) → write_at bytes (length bytes) new ≡ bytes ++ new
write_at_end bytes new = rw (
  take_all (length bytes) bytes (omega arith),
  drop_all (length bytes + length new) bytes (omega arith),
  append-nil,
)

-- The log behind the first `n` bytes of one more entry.
abbrev pub torn : Wal → List ℕ → Wal
torn w new = record w { bytes = w.bytes ++ new; offset = w.offset + length new }

-- The log behind one more entry.
abbrev pub appended : Wal → Entry → Wal
appended w e = record (torn w (safe_bytes e)) { transactions = (w.transactions + 1) % 2 ^ 64 }

pub sys_write_lem :
    (n : ℕ) (new : List ℕ) (w : Wal)
    → AtEnd w
    → sys_write (some n) new w ≡ (some (length (take n new)), torn w (take n new))
unfolding sys_write
sys_write_lem n new w h =
    let bytes : write_at w.bytes w.offset (take n new) ≡ w.bytes ++ take n new =
      rw h (write_at_end w.bytes (take n new)) in
    cc bytes

torn-nil : (w : Wal) → torn w [] ≡ w
torn-nil w = cc (append-nil w.bytes, add-zero w.offset)

-- What writing an entry can come to.
pub data Written (w : Wal) (e : Entry) (r : Result (Unit {0}) × Wal) : Type 0 where
  refused : e.id ≢ w.transactions → r ≡ (err (storage wal_nonce_mismatch), w) → Written w e r
  stored : e.id ≡ w.transactions → r ≡ (ok tt, appended w e) → Written w e r
  failed :
      (n : ℕ) (x : Error)
      → (error_report x).action ≡ fatal
      → r ≡ (err x, torn w (take n (safe_bytes e)))
      → Written w e r

-- Behind a write of the whole entry.
synced :
    (n : ℕ) (syncs : Bool) (w : Wal) (e : Entry)
    → e.id ≡ w.transactions
    → take n (safe_bytes e) ≡ safe_bytes e
    → Written w e (
        wal_written
          (record { writes = some n; syncs = syncs })
          (some sizeof_safe, torn w (safe_bytes e)))
unfolding wal_written wal_sync error_report
synced n true w e next whole = stored next refl
synced n false w e next whole =
    failed n (storage wal_sync_failed) refl
      (ap (λ t. (err (storage wal_sync_failed), torn w t)) (sym whole))

-- The same, for an entry that has the next number.
wal_written-Written :
    (writes : Option ℕ) (syncs : Bool) (w : Wal) (e : Entry)
    → AtEnd w
    → e.id ≡ w.transactions
    → Written w e (
        wal_written (record { writes = writes; syncs = syncs }) (sys_write writes (safe_bytes e) w))
wal_written-Written none syncs w e h next =
    failed 0 (storage wal_write_failed) (unfold error_report in refl)
      (unfold wal_written sys_write in cc (torn-nil w))
wal_written-Written (some n) syncs w e h next =
    let count = length (take n (safe_bytes e)) in
    rw (sys_write_lem n (safe_bytes e) w h) (elim (Bool-cases (count == sizeof_safe)) [
      | inr short ↦
          failed n (storage wal_write_failed) (unfold error_report in refl)
            (unfold wal_written in rw short)
      | inl full ↦
          let enough : count ≡ sizeof_safe = (==_iff count sizeof_safe).0 full in
          let whole : take n (safe_bytes e) ≡ safe_bytes e =
            take_all n (safe_bytes e)
              (omega (arith, length-safe_bytes e, length-take n (safe_bytes e))) in
          subst
            (λ (k : ℕ). Written w e (
              wal_written (record { writes = some n; syncs = syncs })
                (some k, torn w (take n (safe_bytes e)))))
            (sym enough) (rw whole (synced n syncs w e next whole))
    ])

-- Whatever the system calls answer, writing an entry at the end of the log has one of three
-- outcomes: the number is not the next one, and then nothing changes; the entry is appended and
-- counted; or a fatal error, behind which the file ends in some first bytes of the entry, and
-- nothing is counted.
pub wal_write_outcome :
    (dev : WriteDevice) (w : Wal) (e : Entry) → AtEnd w → Written w e (wal_write dev w e)
unfolding wal_write
wal_write_outcome dev w e h = elim (Bool-cases (e.id == w.transactions)) [
  | inl next ↦
      rw next (wal_written-Written dev.writes dev.syncs w e h ((==_iff e.id w.transactions).0 next))
  | inr other ↦ refused (λ same. ground arith) (rw other)
]

-- write(2) takes a whole entry at once, and fsync(2) succeeds.
pub record WriteWorks (dev : WriteDevice) : Type 0 where
  pub takes : ℕ
  pub writes : dev.writes ≡ some takes
  pub enough : sizeof_safe ≤ takes
  pub syncs : dev.syncs ≡ true

-- Where the calls work, only the number of the entry decides.
pub wal_write-works :
    (dev : WriteDevice) (w : Wal) (e : Entry)
    → AtEnd w
    → WriteWorks dev
    → wal_write dev w e ≡ (
        if e.id == w.transactions
        then (ok tt, appended w e)
        else (err (storage wal_nonce_mismatch), w))
unfolding wal_write wal_written wal_sync
wal_write-works dev w e h works =
    let whole : take works.takes (safe_bytes e) ≡ safe_bytes e =
      take_all works.takes (safe_bytes e) (omega (arith, length-safe_bytes e, works.enough)) in
    let taken : sys_write dev.writes (safe_bytes e) w ≡ (some sizeof_safe, torn w (safe_bytes e)) =
      ap (λ n. sys_write n (safe_bytes e) w) works.writes
      ∙ sys_write_lem works.takes (safe_bytes e) w h
      ∙ ap (λ t. (some (length t), torn w t)) whole
      ∙ ap (λ (n : ℕ). (some n, torn w (safe_bytes e))) (length-safe_bytes e) in
    rw taken (rw works.syncs refl)
