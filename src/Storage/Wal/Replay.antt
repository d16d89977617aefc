-- ===== src/Storage/Wal/Replay.antt =====
-- let_storage_wal_replay, let_storage_wal_seek and let_storage_wal_truncate of
-- LetDB/src/storage/wal.c: the log is read from its start and rebuilds the ledger. An error ends the
-- program, so what it leaves in memory is not part of the answer.
pub mod Apply
pub mod Loop
pub mod Ends
pub mod Recovery
pub mod Refusal
pub mod Altered
use let_dx.Base.{
  ℕ, zero, suc, ◌+◌, ◌%◌, ◌^◌, Bool, true, false, Option, none, some, List, [], ◌∷◌, length, take,
  drop, ◌==◌, ltb, if◌then◌else◌,
}
use let_dx.Base.Bytes.{from_le}
use let_dx.Error.{
  storage, wal_read_failed, wal_seek_failed, wal_truncate_failed, wal_checksum_mismatch,
  wal_invalid_entry_type,
}
use let_dx.Result.{Result, ok, err, stuck, ◌>>=◌, ◌>>◌}
use let_dx.Account.{AccountList, account_new}
use let_dx.State.{state_add_account, state_make_transfer, state_update_account}
use let_dx.Storage.Crc.{crc32c}
use let_dx.Storage.Wal.{
  Entry, EntryData, add_account, make_transfer, update_account, read_entry, header_length,
  sizeof_entry, sizeof_safe,
}
use let_dx.Storage.Wal.File.{Wal, sys_read}

-- What the system answers during a replay: the seeks, the truncation, the read at each position of
-- the file, the clock when each transaction is applied, and the memory that is granted then.
pub record ReplayDevice : Type 0 where
  pub seeks_start : Bool
  pub seeks_end : Bool
  pub truncates : Bool
  pub reads : ℕ → Option ℕ
  pub clock : ℕ → Option ℕ
  pub alloc : ℕ → ℕ → Bool

-- let_storage_wal_seek
unfoldable pub wal_seek : Bool → Result (Unit {0})
wal_seek true = ok tt
wal_seek false = err (storage wal_seek_failed)

-- let_storage_wal_truncate: the bytes that are left
unfoldable pub wal_truncate : Bool → List ℕ → ℕ → Result (List ℕ)
wal_truncate true bytes offset = ok (take offset bytes)
wal_truncate false bytes offset = err (storage wal_truncate_failed)

-- the `switch` on the type of an entry, which is the `seq`-th; `none` is an unknown type
unfoldable pub replay_entry : ReplayDevice → ℕ → AccountList → Option Entry → Result AccountList
replay_entry dev seq l none = err (storage wal_invalid_entry_type)
replay_entry dev seq l (some e) = elim e.payload [
  | add_account credits debits flags ↦ do
    (id, l') ← state_add_account (dev.alloc seq) l (account_new credits debits e.timestamp flags)
    ok l'
  | make_transfer from_id to_id amount ↦ state_make_transfer (dev.clock seq) l from_id to_id amount
  | update_account account_id flags ↦ state_update_account l account_id flags
]

-- The variables of the loop, and the ledger.
pub record Scan : Type 0 where
  pub transactions : ℕ
  pub file_offset : ℕ
  pub ledger : AccountList

-- Why the loop ended: the last `bytes_read`, which is -1, too short, or that of a record whose
-- checksum was wrong.
pub data ScanEnd : Type 0 where
  failed : ScanEnd
  short : ℕ → ScanEnd
  corrupted : ScanEnd

-- the checksum of a record is that of its entry
unfoldable pub checksum_holds : List ℕ → Bool
checksum_holds record_bytes =
    crc32c (take sizeof_entry record_bytes) == from_le (drop sizeof_entry record_bytes)

-- the `for` loop; the fuel is one more than the records that are left
unfoldable pub replay_loop :
    ℕ → ReplayDevice → Bool → List ℕ → Scan → Result (Scan × ScanEnd × List ℕ)
replay_loop zero dev truncate_on_failure bytes s = stuck
replay_loop (suc fuel) dev truncate_on_failure bytes s =
    elim (sys_read (dev.reads s.file_offset) sizeof_safe bytes s.file_offset) [
      | none ↦ ok (s, failed, bytes)
      | some got ↦
          if length got == sizeof_safe
          then if checksum_holds got
            then (do
              l ← replay_entry dev s.transactions s.ledger (read_entry (take sizeof_entry got))
              replay_loop fuel dev truncate_on_failure bytes (record {
                transactions = (s.transactions + 1) % 2 ^ 64;
                file_offset = s.file_offset + sizeof_safe;
                ledger = l;
              }))
            else if truncate_on_failure
            then (do
              bytes' ← wal_truncate dev.truncates bytes s.file_offset
              ok (s, corrupted, bytes'))
            else err (storage wal_checksum_mismatch)
          else ok (s, short (length got), bytes)
    ]

-- the checks behind the loop: the file that is left
unfoldable pub replay_tail : ReplayDevice → Bool → Scan × ScanEnd × List ℕ → Result (List ℕ)
replay_tail dev truncate_on_failure (s, failed, bytes) = err (storage wal_read_failed)
replay_tail dev truncate_on_failure (s, corrupted, bytes) = ok bytes
replay_tail dev truncate_on_failure (s, short n, bytes) =
    if ltb 0 n
    then if truncate_on_failure
      then wal_truncate dev.truncates bytes s.file_offset
      else err (storage wal_read_failed)
    else ok bytes

-- let_storage_wal_replay: the log, open for writing at its end, and the ledger
unfoldable pub wal_replay : ReplayDevice → Bool → Wal → AccountList → Result (Wal × AccountList)
wal_replay dev truncate_on_failure w l = do
  wal_seek dev.seeks_start
  (s, ending, bytes) ←
      replay_loop (suc (length w.bytes)) dev truncate_on_failure w.bytes
        (record { transactions = 0; file_offset = header_length; ledger = l })
  bytes' ← replay_tail dev truncate_on_failure (s, ending, bytes)
  wal_seek dev.seeks_end
  ok (record w { transactions = s.transactions; bytes = bytes'; offset = length bytes' }, s.ledger)
