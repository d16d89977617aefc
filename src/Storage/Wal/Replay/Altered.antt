-- ===== src/Storage/Wal/Replay/Altered.antt =====
-- What the replay makes of a record in which one byte was changed on disk.
use let_dx.Base.{
  ℕ, zero, suc, replicate, ◌≤◌, ◌≡◌, ◌≢◌, refl, sym, ap, ◌∙◌, subst, true, false, List, ◌∷◌, ◌++◌,
  length, length-append, take-append, drop-append, All, All-append, All-parts, arith, ne→==_false,
}
use let_dx.Base.Bytes.{IsByte, le_bytes, length-le_bytes, le_bytes-IsByte, from_le-le_bytes}
use let_dx.Error.{storage, wal_checksum_mismatch}
use let_dx.Result.{ok, err}
use let_dx.Account.{AccountList, IsValid}
use let_dx.Storage.Crc.{crc32c}
use let_dx.Storage.Crc.Detection.{crc32c-detects}
use let_dx.Storage.Wal.{Entry, EntryData, entry_bytes, entry_type, payload_bytes}
use let_dx.Storage.Wal.Bytes.{length-entry_bytes}
use let_dx.Storage.Wal.File.{Wal}
use let_dx.Storage.Wal.Log.{log_file}
use let_dx.Storage.Wal.Replay.{ReplayDevice, checksum_holds, wal_replay}
use let_dx.Storage.Wal.Replay.Loop.{crc32c-lt}
use let_dx.Storage.Wal.Replay.Apply.{Works}
use let_dx.Storage.Wal.Replay.Ends.{Damaged, wrong}
use let_dx.Storage.Wal.Replay.Recovery.{IsLog, Recovered, wal_replay_truncates}
use let_dx.Storage.Wal.Replay.Refusal.{damage, wal_replay_refuses}

-- Numbers in bytes, one behind the other.
number_first :
    (width v : ℕ) (bytes : List ℕ) → All IsByte bytes → All IsByte (le_bytes width v ++ bytes)
number_first width v bytes h =
    All-append IsByte (le_bytes width v) bytes (le_bytes-IsByte width v) h

zeros : (n : ℕ) → All IsByte (replicate n 0)
zeros zero = tt
zeros (suc n) = (omega arith, zeros n)

payload_bytes-IsByte : (p : EntryData) → All IsByte (payload_bytes p)
unfolding payload_bytes
payload_bytes-IsByte (EntryData.add_account credits debits flags) =
    number_first 16 credits _ (number_first 16 debits _ (le_bytes-IsByte 1 flags))
payload_bytes-IsByte (EntryData.make_transfer from_id to_id amount) =
    number_first 8 from_id _ (number_first 8 to_id _ (number_first 16 amount _ (zeros 1)))
payload_bytes-IsByte (EntryData.update_account account_id flags) =
    number_first 8 account_id _ (number_first 1 flags _ (zeros 24))

entry_bytes-IsByte : (e : Entry) → All IsByte (entry_bytes e)
unfolding entry_bytes
entry_bytes-IsByte e = number_first 8 e.id _ (
    number_first 8 e.timestamp _
      (number_first 1 (entry_type e.payload) _ (payload_bytes-IsByte e.payload)))

-- A record whose entry is `new`, with the checksum of another entry.
abbrev forged : List ℕ → Entry → List ℕ
forged new e = new ++ le_bytes 4 (crc32c (entry_bytes e))

forged_checksum :
    (new : List ℕ) (e : Entry)
    → length new ≡ 50
    → crc32c (entry_bytes e) ≢ crc32c new
    → checksum_holds (forged new e) ≡ false
unfolding checksum_holds
forged_checksum new e sized differs =
    let stored = le_bytes 4 (crc32c (entry_bytes e)) in
    rw (take-append 50 new stored sized, drop-append 50 new stored sized)
      (rw (from_le-le_bytes 4 (crc32c (entry_bytes e)) (crc32c-lt (entry_bytes e)))
        (ne→==_false (crc32c new) (crc32c (entry_bytes e)) (λ same. differs (sym same))))

forged-Damaged :
    (new : List ℕ) (e : Entry) (rest : List ℕ)
    → length new ≡ 50
    → crc32c (entry_bytes e) ≢ crc32c new
    → (d : Damaged (forged new e ++ rest)) × (damage d ≡ storage wal_checksum_mismatch)
      × (54 ≤ length (forged new e ++ rest))
unfolding damage
forged-Damaged new e rest sized differs =
    let stored = le_bytes 4 (crc32c (entry_bytes e)) in
    let whole_record : length (forged new e) ≡ 54 =
      omega (arith, length-append new stored, length-le_bytes 4 (crc32c (entry_bytes e))) in
    let long : 54 ≤ length (forged new e ++ rest) =
      omega (arith, length-append (forged new e) rest) in
    (
      wrong long (
          ap checksum_holds (take-append 54 (forged new e) rest whole_record)
          ∙ forged_checksum new e sized differs),
      refl,
      long,
    )

-- The replay of a log, an entry of which has one byte changed on disk, and anything behind it: with
-- truncation, it succeeds with the log before that entry; without, it ends with the error of a wrong
-- checksum.
pub record Detected (dev : ReplayDevice) (log : List Entry) (w : Wal) (l : AccountList)
    : Type 0 where
  pub truncated :
      (w' : Wal) × (l' : AccountList) × (wal_replay dev true w l ≡ ok (w', l'))
      × Recovered log l w' l'
  pub refused : wal_replay dev false w l ≡ err (storage wal_checksum_mismatch)

-- Where one byte of an entry is changed on disk, behind a log whose entries can be applied to the
-- valid list that the replay begins with, the change is found on a system on which nothing fails: a
-- replay with truncation goes back to the log before that entry, and one without ends with the error
-- of a wrong checksum.
pub wal_replay-Detected :
    (dev : ReplayDevice) (log : List Entry) (e : Entry) (before : List ℕ) (byte byte' : ℕ)
    (after rest : List ℕ) (w : Wal) (l : AccountList)
    → Works dev
    → IsValid l
    → IsLog log l
    → entry_bytes e ≡ before ++ (byte ∷ after)
    → IsByte byte'
    → byte ≢ byte'
    → w.bytes
      ≡ log_file log
        ++ (((before ++ (byte' ∷ after)) ++ le_bytes 4 (crc32c (entry_bytes e))) ++ rest)
    → Detected dev log w l
wal_replay-Detected dev log e before byte byte' after rest w l works v is_log splits is_byte' differ
      file =
    let (h, (is_byte, h')) =
      All-parts IsByte before (byte ∷ after) (subst (All IsByte) splits (entry_bytes-IsByte e)) in
    let sized : length (before ++ (byte' ∷ after)) ≡ 50 = omega (
      arith,
      length-append before (byte' ∷ after),
      length-append before (byte ∷ after),
      ap length splits,
      length-entry_bytes e,
    ) in
    let differs =
      subst (λ (t : List ℕ). crc32c t ≢ crc32c (before ++ (byte' ∷ after))) (sym splits)
        (crc32c-detects before byte byte' after h is_byte is_byte' h' differ) in
    let (d, named, long) = forged-Damaged (before ++ (byte' ∷ after)) e rest sized differs in
    record {
      truncated = wal_replay_truncates dev log _ w l works v is_log file d;
      refused = wal_replay_refuses dev log _ w l works v is_log file d (omega arith) ∙ ap err named;
    }
