-- ===== src/Storage/Wal/Replay/Recovery.antt =====
-- What `let_storage_wal_replay` makes of a log, whole or damaged at its end.
use let_dx.Base.{
  ℕ, suc, ◌+◌, ◌-◌, ◌*◌, ◌^◌, ◌≤◌, ◌≡◌, inl, inr, refl, sym, ap, ◌∙◌, subst, Bool, true, List, [],
  ◌++◌, length, length-append, append-nil, append_assoc, arith, All,
}
use let_dx.Result.{ok}
use let_dx.Account.{AccountList, IsValid}
use let_dx.Storage.Wal.{Entry, EntryFits, header_length}
use let_dx.Storage.Wal.File.{Wal}
use let_dx.Storage.Wal.Write.{AtEnd}
use let_dx.Storage.Wal.Log.{
  log_bytes, log_file, header_bytes, length-header_bytes, length-log_bytes,
}
use let_dx.Storage.Wal.Replay.{
  ReplayDevice, Scan, ScanEnd, replay_loop, replay_tail, wal_seek, wal_replay,
}
use let_dx.Storage.Wal.Replay.Apply.{Works}
use let_dx.Storage.Wal.Replay.Ends.{Damaged, Cleared, Ends-Cleared}
use let_dx.Storage.Wal.Replay.Loop.{replay_loop-log, Passed}
use let_dx.Ledger.{view, apply_log, IsReplayable}

-- A log that can be applied to a ledger.
pub record IsLog (log : List Entry) (l : AccountList) : Type 0 where
  pub fits : All EntryFits log
  pub replayable : IsReplayable log (view l)
  pub storable : l.length + length log ≤ 2 ^ 63

-- The log and the ledger behind a replay.
pub record Recovered (log : List Entry) (l : AccountList) (w' : Wal) (l' : AccountList)
    : Type 0 where
  pub counted : w'.transactions ≡ length log
  pub file : w'.bytes ≡ log_file log
  pub at_end : AtEnd w'
  pub same_view : view l' ≡ apply_log log (view l)
  pub valid : IsValid l'

-- The state that the loop begins with.
abbrev pub start : AccountList → Scan
start l = record { transactions = 0; file_offset = header_length; ledger = l }

-- The loop passes over the log, with fuel to spare.
pub replay_loop-whole :
    (dev : ReplayDevice) (truncate : Bool) (log : List Entry) (tail : List ℕ) (l : AccountList)
    → Works dev
    → IsValid l
    → IsLog log l
    → (s : Scan) × Passed log (start l) s
      × (s.file_offset ≡ length (log_file log))
      × (replay_loop
            (suc (length (log_file log ++ tail)))
            dev
            truncate
            (log_file log ++ tail)
            (start l)
          ≡ replay_loop
              (suc (length (log_file log ++ tail) - length log))
              dev
              truncate
              (log_file log ++ tail)
              s)
replay_loop-whole dev truncate log tail l works v is_log =
    let size : length (log_file log ++ tail) ≡ 10 + 54 * length log + length tail = omega (
      arith,
      length-append (log_file log) tail,
      length-append header_bytes (log_bytes log),
      length-header_bytes,
      length-log_bytes log,
    ) in
    let (s, passed, runs) =
      replay_loop-log dev truncate log header_bytes tail (start l) works (sym length-header_bytes) v
        is_log.fits is_log.replayable
        (record { countable = omega (arith, is_log.storable); storable = is_log.storable }) in
    (
      s,
      passed,
      omega (
        arith,
        passed.moved,
        length-append header_bytes (log_bytes log),
        length-header_bytes,
        length-log_bytes log,
      ),
      subst
          (λ b.
            replay_loop (suc (length (log_file log ++ tail))) dev truncate b (start l)
            ≡ replay_loop (suc (length (log_file log ++ tail) - length log)) dev truncate b s)
          (sym (append_assoc header_bytes (log_bytes log) tail))
          (ap
              (λ (k : ℕ).
                replay_loop k dev truncate (header_bytes ++ (log_bytes log ++ tail)) (start l))
              (omega (arith, size))
            ∙ runs (suc (length (log_file log ++ tail) - length log))),
    )

pub seeks : (b : Bool) → b ≡ true → wal_seek b ≡ ok tt
unfolding wal_seek
seeks b h = rw h refl

-- A replay whose loop ends, and whose file is then accepted.
replays :
    (dev : ReplayDevice) (truncate : Bool) (w : Wal) (l : AccountList) (s : Scan) (ending : ScanEnd)
    (bytes left : List ℕ)
    → Works dev
    → replay_loop (suc (length w.bytes)) dev truncate w.bytes (start l) ≡ ok (s, ending, bytes)
    → replay_tail dev truncate (s, ending, bytes) ≡ ok left
    → wal_replay dev truncate w l
      ≡ ok
          (record w { transactions = s.transactions; bytes = left; offset = length left }, s.ledger)
unfolding wal_replay
replays dev truncate w l s ending bytes left works looped accepted =
    rw
      (
        seeks dev.seeks_start works.seeks_start,
        looped,
        accepted,
        seeks dev.seeks_end works.seeks_end,
      )
      refl

recovers :
    (dev : ReplayDevice) (truncate : Bool) (log : List Entry) (tail : List ℕ) (w : Wal)
    (l : AccountList)
    → Works dev
    → IsValid l
    → IsLog log l
    → w.bytes ≡ log_file log ++ tail
    → Cleared truncate tail
    → (w' : Wal) × (l' : AccountList) × (wal_replay dev truncate w l ≡ ok (w', l'))
      × Recovered log l w' l'
recovers dev truncate log tail w l works v is_log file cleared =
    let (s, passed, behind, runs) = replay_loop-whole dev truncate log tail l works v is_log in
    let (ending, bytes, ended, left) =
      Ends-Cleared dev (log_file log) tail s truncate works behind cleared
        (length (log_file log ++ tail) - length log) in
    let looped : replay_loop (suc (length w.bytes)) dev truncate w.bytes (start l)
        ≡ ok (s, ending, bytes) =
      subst (λ b. replay_loop (suc (length b)) dev truncate b (start l) ≡ ok (s, ending, bytes))
        (sym file) (runs ∙ ended) in
    (
      record w {
        transactions = s.transactions;
        bytes = log_file log;
        offset = length (log_file log);
      },
      s.ledger,
      replays dev truncate w l s ending bytes (log_file log) works looped left,
      record {
        counted = omega (arith, passed.counted);
        file = refl;
        at_end = refl;
        same_view = passed.same_view;
        valid = passed.valid;
      },
    )

-- Over a log that was written whole, whose entries can be applied to the valid list it begins with,
-- a replay on a system on which nothing fails succeeds, with truncation or without: it counts the
-- entries, leaves the file as it is and stands at its end, and the list, which is valid, has the
-- balances that the entries give in their order.
pub wal_replay_whole :
    (dev : ReplayDevice) (truncate : Bool) (log : List Entry) (w : Wal) (l : AccountList)
    → Works dev
    → IsValid l
    → IsLog log l
    → w.bytes ≡ log_file log
    → (w' : Wal) × (l' : AccountList) × (wal_replay dev truncate w l ≡ ok (w', l'))
      × Recovered log l w' l'
wal_replay_whole dev truncate log w l works v is_log file =
    recovers dev truncate log [] w l works v is_log (file ∙ sym (append-nil (log_file log)))
      (inr refl)

-- Over a log that was written whole and is followed by a damaged tail (less than a record, or a
-- record whose checksum is wrong and anything behind it), whose entries can be applied to the valid
-- list it begins with, a replay with truncation on a system on which nothing fails succeeds: it
-- cuts the tail off, counts the entries and stands at the end of the file, and the list, which is
-- valid, has the balances that the entries give in their order.
pub wal_replay_truncates :
    (dev : ReplayDevice) (log : List Entry) (tail : List ℕ) (w : Wal) (l : AccountList)
    → Works dev
    → IsValid l
    → IsLog log l
    → w.bytes ≡ log_file log ++ tail
    → Damaged tail
    → (w' : Wal) × (l' : AccountList) × (wal_replay dev true w l ≡ ok (w', l'))
      × Recovered log l w' l'
wal_replay_truncates dev log tail w l works v is_log file d =
    recovers dev true log tail w l works v is_log file (inl (refl, d))
