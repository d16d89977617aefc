-- ===== src/Storage/Wal/Replay/Loop.antt =====
-- The loop of the replay passes over the whole records of a log, one round for each.
use let_dx.Base.{
  ℕ, suc, ◌+◌, ◌*◌, ◌%◌, ◌^◌, ◌≤◌, ◌<◌, ◌≡◌, refl, sym, ap, ◌∙◌, Bool, true, some, List, [], ◌∷◌,
  ◌++◌, length, length-append, take, drop, take_all, take-append, drop-append, append_assoc, arith,
  ==_refl, All, length-take, subst,
}
use let_dx.Base.Bytes.{from_le, from_le-le_bytes}
use let_dx.Result.{ok}
use let_dx.Account.{AccountList, IsValid}
use let_dx.Storage.Crc.{crc32c}
use let_dx.Storage.Wal.{
  Entry, EntryFits, entry_bytes, safe_bytes, read_entry, sizeof_safe, sizeof_entry,
}
use let_dx.Storage.Wal.Bytes.{length-entry_bytes, length-safe_bytes, read_entry-entry_bytes}
use let_dx.Storage.Wal.File.{sys_read}
use let_dx.Storage.Wal.Log.{log_bytes}
use let_dx.Storage.Wal.Replay.{ReplayDevice, Scan, checksum_holds, replay_entry, replay_loop}
use let_dx.Storage.Wal.Replay.Apply.{Works, replay_entry_lem}
use let_dx.Ledger.{view, apply_log, IsReplayable}

pub crc32c-lt : (bytes : List ℕ) → crc32c bytes < 256 ^ 4
unfolding crc32c
crc32c-lt [] = omega arith
crc32c-lt (b ∷ bytes) = omega arith

entry_of_record : (e : Entry) → take sizeof_entry (safe_bytes e) ≡ entry_bytes e
unfolding safe_bytes
entry_of_record e = take-append 50 (entry_bytes e) _ (length-entry_bytes e)

-- A record that was written whole has the checksum of its entry.
pub checksum_holds-safe_bytes : (e : Entry) → checksum_holds (safe_bytes e) ≡ true
unfolding checksum_holds
checksum_holds-safe_bytes e =
    let stored : from_le (drop sizeof_entry (safe_bytes e)) ≡ crc32c (entry_bytes e) =
      unfold safe_bytes in
      ap from_le (drop-append 50 (entry_bytes e) _ (length-entry_bytes e))
      ∙ from_le-le_bytes 4 (crc32c (entry_bytes e)) (crc32c-lt (entry_bytes e)) in
    rw (stored, entry_of_record e, ==_refl (crc32c (entry_bytes e)))

-- A read behind `before` returns what comes next, up to the size of a record.
pub sys_read-behind :
    (dev : ReplayDevice) (before next : List ℕ) (offset : ℕ)
    → Works dev
    → offset ≡ length before
    → sys_read (dev.reads offset) sizeof_safe (before ++ next) offset ≡ some (take sizeof_safe next)
unfolding sys_read
sys_read-behind dev before next offset works h =
    let (n, answer, enough) = works.reads offset in
    let rest : drop offset (before ++ next) ≡ next = drop-append offset before next (sym h) in
    rw (answer, rest) (ap some (take_all n (take 54 next) (omega (arith, length-take 54 next))))

-- The state of the loop behind the next record.
abbrev pub advance : Scan → AccountList → Scan
advance s l = record {
  transactions = (s.transactions + 1) % 2 ^ 64;
  file_offset = s.file_offset + sizeof_safe;
  ledger = l;
}

-- One round over a whole record, whose entry is applied.
round :
    (fuel : ℕ) (dev : ReplayDevice) (truncate : Bool) (before rest : List ℕ) (s : Scan) (e : Entry)
    (l' : AccountList)
    → Works dev
    → s.file_offset ≡ length before
    → EntryFits e
    → replay_entry dev s.transactions s.ledger (some e) ≡ ok l'
    → replay_loop (suc fuel) dev truncate (before ++ (safe_bytes e ++ rest)) s
      ≡ replay_loop fuel dev truncate (before ++ (safe_bytes e ++ rest)) (advance s l')
unfolding replay_loop
round fuel dev truncate before rest s e l' works h fits done =
    let whole : take sizeof_safe (safe_bytes e ++ rest) ≡ safe_bytes e =
      take-append 54 (safe_bytes e) rest (length-safe_bytes e) in
    let got : sys_read (dev.reads s.file_offset) sizeof_safe (before ++ (safe_bytes e ++ rest))
          s.file_offset
        ≡ some (safe_bytes e) =
      sys_read-behind dev before (safe_bytes e ++ rest) s.file_offset works h ∙ ap some whole in
    let parsed : read_entry (take sizeof_entry (safe_bytes e)) ≡ some e =
      ap read_entry (entry_of_record e) ∙ read_entry-entry_bytes e fits in
    rw (got, replay_loop, length-safe_bytes e, checksum_holds-safe_bytes e, parsed, done)

-- The state behind a whole log.
pub record Passed (log : List Entry) (s s' : Scan) : Type 0 where
  pub counted : s'.transactions ≡ s.transactions + length log
  pub moved : s'.file_offset ≡ s.file_offset + 54 * length log
  pub same_view : view s'.ledger ≡ apply_log log (view s.ledger)
  pub valid : IsValid s'.ledger

-- There is room for a log: no count wraps, and no array would be too long.
pub record HasRoom (log : List Entry) (s : Scan) : Type 0 where
  pub countable : s.transactions + length log < 2 ^ 64
  pub storable : s.ledger.length + length log ≤ 2 ^ 63

pub replay_loop-log :
    (dev : ReplayDevice) (truncate : Bool) (log : List Entry) (before rest : List ℕ) (s : Scan)
    → Works dev
    → s.file_offset ≡ length before
    → IsValid s.ledger
    → All EntryFits log
    → IsReplayable log (view s.ledger)
    → HasRoom log s
    → (s' : Scan) × Passed log s s'
      × ((fuel : ℕ)
          → replay_loop (length log + fuel) dev truncate (before ++ (log_bytes log ++ rest)) s
            ≡ replay_loop fuel dev truncate (before ++ (log_bytes log ++ rest)) s')
unfolding apply_log log_bytes
replay_loop-log dev truncate [] before rest s works h v fits replayable room = (
  s,
  record { counted = omega arith; moved = omega arith; same_view = refl; valid = v },
  λ fuel. ap (λ (t : ℕ). replay_loop t dev truncate (before ++ rest) s) (omega arith),
)
replay_loop-log dev truncate (e ∷ log) before rest s works h v (e_fits, fits) (inside, replayable)
      room =
    let (l', done, applied) =
      replay_entry_lem dev s.transactions s.ledger e works v (omega arith) e_fits inside in
    let behind : List ℕ = before ++ safe_bytes e in
    let (s', passed, runs) =
      replay_loop-log dev truncate log behind rest (advance s l') works
        (omega (arith, length-append before (safe_bytes e), length-safe_bytes e)) applied.valid fits
        (rw applied.same_view replayable)
        (record { countable = omega arith; storable = omega (arith, applied.grown) }) in
    let inner : safe_bytes e ++ (log_bytes log ++ rest) ≡ (safe_bytes e ++ log_bytes log) ++ rest =
      sym (append_assoc (safe_bytes e) (log_bytes log) rest) in
    let file_before : before ++ (safe_bytes e ++ (log_bytes log ++ rest))
        ≡ before ++ ((safe_bytes e ++ log_bytes log) ++ rest) =
      ap (λ t. before ++ t) inner in
    let file_behind : behind ++ (log_bytes log ++ rest)
        ≡ before ++ ((safe_bytes e ++ log_bytes log) ++ rest) =
      append_assoc before (safe_bytes e) (log_bytes log ++ rest) ∙ file_before in
    (
      s',
      record {
        counted = omega (arith, passed.counted);
        moved = omega (arith, passed.moved);
        same_view = passed.same_view ∙ ap (apply_log log) applied.same_view;
        valid = passed.valid;
      },
      λ fuel.
          ap
            (λ (k : ℕ).
              replay_loop k dev truncate (before ++ ((safe_bytes e ++ log_bytes log) ++ rest)) s)
            (omega arith)
          ∙ subst
              (λ b.
                replay_loop (suc (length log + fuel)) dev truncate b s
                ≡ replay_loop (length log + fuel) dev truncate b (advance s l'))
              file_before
              (round (length log + fuel) dev truncate before (log_bytes log ++ rest) s e l' works h
                e_fits done)
          ∙ subst
              (λ b.
                replay_loop (length log + fuel) dev truncate b (advance s l')
                ≡ replay_loop fuel dev truncate b s')
              file_behind (runs fuel),
    )
