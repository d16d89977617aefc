-- ===== src/Storage/Wal/Replay/Refusal.antt =====
-- What `let_storage_wal_replay` answers to a damaged log that it may not truncate.
use let_dx.Base.{
  ℕ, suc, ◌-◌, ◌≤◌, ◌<◌, ◌≡◌, refl, sym, ◌∙◌, subst, false, List, ◌++◌, length, length-take, take,
  arith, lt→ltb, ap,
}
use let_dx.Error.{Error, storage, wal_read_failed, wal_checksum_mismatch}
use let_dx.Result.{err, ◌>>=◌, >>=-eq-err}
use let_dx.Account.{AccountList, IsValid}
use let_dx.Storage.Wal.{Entry, sizeof_safe}
use let_dx.Storage.Wal.File.{Wal}
use let_dx.Storage.Wal.Log.{log_file}
use let_dx.Storage.Wal.Replay.{
  ReplayDevice, Scan, checksum_holds, replay_loop, replay_tail, wal_replay,
}
use let_dx.Storage.Wal.Replay.Apply.{Works}
use let_dx.Storage.Wal.Replay.Ends.{Damaged, cut, wrong, stops_short}
use let_dx.Storage.Wal.Replay.Loop.{sys_read-behind}
use let_dx.Storage.Wal.Replay.Recovery.{IsLog, start, seeks, replay_loop-whole}

-- The error that names the damage.
unfoldable pub damage : {tail : List ℕ} → Damaged tail → Error
damage (cut h) = storage wal_read_failed
damage (wrong h bad) = storage wal_checksum_mismatch

module _ (dev : ReplayDevice) (before tail : List ℕ) (s : Scan) (works : Works dev)
    (behind : s.file_offset ≡ length before) where
  stops_wrong :
      (fuel : ℕ)
      → 54 ≤ length tail
      → checksum_holds (take sizeof_safe tail) ≡ false
      → replay_loop (suc fuel) dev false (before ++ tail) s ≡ err (storage wal_checksum_mismatch)
  unfolding replay_loop
  stops_wrong fuel h bad =
      let whole : length (take sizeof_safe tail) ≡ 54 = omega (arith, length-take 54 tail) in
      rw (sys_read-behind dev before tail s.file_offset works behind, replay_loop, whole, bad) refl

  refuses :
      (fuel : ℕ) (d : Damaged tail)
      → 0 < length tail
      → (replay_loop (suc fuel) dev false (before ++ tail) s >>= replay_tail dev false)
        ≡ err (damage d)
  unfolding replay_tail damage
  refuses fuel (cut h) some_left =
      rw (stops_short dev before tail s works behind fuel false h, lt→ltb 0 (length tail) some_left)
        refl
  refuses fuel (wrong h bad) some_left = rw (stops_wrong fuel h bad) refl

-- Over a log that was written whole and is followed by a damaged tail of at least one byte, whose
-- entries can be applied to the valid list it begins with, a replay without truncation on a system
-- on which nothing fails ends with an error: the read has failed where the tail is less than a
-- record, and otherwise a checksum is wrong.
pub wal_replay_refuses :
    (dev : ReplayDevice) (log : List Entry) (tail : List ℕ) (w : Wal) (l : AccountList)
    → Works dev
    → IsValid l
    → IsLog log l
    → w.bytes ≡ log_file log ++ tail
    → (d : Damaged tail) → 0 < length tail
    → wal_replay dev false w l ≡ err (damage d)
unfolding wal_replay
wal_replay_refuses dev log tail w l works v is_log file d some_left =
    let (s, passed, behind, runs) = replay_loop-whole dev false log tail l works v is_log in
    let refused : (replay_loop (suc (length w.bytes)) dev false w.bytes (start l)
          >>= replay_tail dev false)
        ≡ err (damage d) =
      subst
        (λ b.
          (replay_loop (suc (length b)) dev false b (start l) >>= replay_tail dev false)
          ≡ err (damage d))
        (sym file)
        (ap (λ m. m >>= replay_tail dev false) runs
          ∙ refuses dev (log_file log) tail s works behind
              (length (log_file log ++ tail) - length log) d some_left) in
    rw (seeks dev.seeks_start works.seeks_start) (
      >>=-eq-err (replay_loop (suc (length w.bytes)) dev false w.bytes (start l))
        (replay_tail dev false) _ refused)
