-- ===== src/Storage/Wal/Crash.antt =====
-- A crash while an entry is written, and the replay after it.
use let_dx.Base.{
  ℕ, ◌<◌, ◌≡◌, ◌≢◌, ◌⊎◌, inl, inr, refl, sym, ap, ◌∙◌, List, [], ◌∷◌, ◌++◌, length, length-append,
  length-take, take, take_all, append-nil, append_assoc, arith, Bool-cases, ltb, All, true,
}
use let_dx.Error.{Error}
use let_dx.Result.{Result, ok, err}
use let_dx.Account.{AccountList, IsValid}
use let_dx.Storage.Wal.{Entry, EntryFits, safe_bytes}
use let_dx.Storage.Wal.Bytes.{length-safe_bytes}
use let_dx.Storage.Wal.File.{Wal}
use let_dx.Storage.Wal.Log.{header_bytes, log_bytes, log_file, log_bytes-append}
use let_dx.Storage.Wal.Write.{
  WriteDevice, wal_write, wal_write_outcome, AtEnd, Written, refused, stored, failed, torn,
  appended,
}
use let_dx.Storage.Wal.Replay.{ReplayDevice, wal_replay}
use let_dx.Storage.Wal.Replay.Apply.{Works}
use let_dx.Storage.Wal.Replay.Ends.{cut}
use let_dx.Storage.Wal.Replay.Recovery.{IsLog, Recovered, wal_replay_whole, wal_replay_truncates}
use let_dx.Ledger.{Balance, apply_entry, view, IsReplayable}

All-append_left : (log more : List Entry) → All EntryFits (log ++ more) → All EntryFits log
All-append_left [] more h = tt
All-append_left (e ∷ log) more (he, h) = (he, All-append_left log more h)

IsReplayable-append_left :
    (log more : List Entry) (v : List Balance) → IsReplayable (log ++ more) v → IsReplayable log v
IsReplayable-append_left [] more v h = tt
IsReplayable-append_left (e ∷ log) more v (he, h) =
    (he, IsReplayable-append_left log more (apply_entry e v) h)

-- A log without its last entry can be applied too.
IsLog-init :
    (log : List Entry) (e : Entry) (l : AccountList) → IsLog (log ++ (e ∷ [])) l → IsLog log l
IsLog-init log e l h = record {
  fits = All-append_left log (e ∷ []) h.fits;
  replayable = IsReplayable-append_left log (e ∷ []) (view l) h.replayable;
  storable = omega (arith, h.storable, length-append log (e ∷ []));
}

-- The file of a log with one more record.
pub log_file-append :
    (log : List Entry) (e : Entry) → log_file log ++ safe_bytes e ≡ log_file (log ++ (e ∷ []))
log_file-append log e =
    let last : log_bytes (e ∷ []) ≡ safe_bytes e = unfold log_bytes in append-nil (safe_bytes e) in
    append_assoc header_bytes (log_bytes log) (safe_bytes e)
    ∙ ap (λ t. header_bytes ++ t)
        (ap (λ t. log_bytes log ++ t) (sym last) ∙ sym (log_bytes-append log (e ∷ [])))

-- The first bytes of a record are all of it, or less than a record.
take-cases :
    (n : ℕ) (e : Entry)
    → (take n (safe_bytes e) ≡ safe_bytes e) ⊎ (length (take n (safe_bytes e)) < 54)
take-cases n e = elim (Bool-cases (ltb n 54)) [
  | inl small ↦ inr (ground (arith, length-take n (safe_bytes e)))
  | inr large ↦ inl (take_all n (safe_bytes e) (ground (arith, length-safe_bytes e)))
]

-- What a replay finds: the log with the entry, or, where the write did not succeed, without it.
abbrev pub Found :
    ReplayDevice → List Entry → Entry → AccountList → Result (Unit {0}) × Wal → Type 0
Found dev log e l (r, w) =
    (w' : Wal) × (l' : AccountList) × (wal_replay dev true w l ≡ ok (w', l'))
    × (Recovered (log ++ (e ∷ [])) l w' l' ⊎ (r ≢ ok tt) × Recovered log l w' l')

module _ (replay : ReplayDevice) (log : List Entry) (w : Wal) (e : Entry) (l : AccountList)
    (works : Works replay) (v : IsValid l) (is_log : IsLog (log ++ (e ∷ [])) l)
    (file : w.bytes ≡ log_file log) where
  finds_without : (x : Error) → Found replay log e l (err x, w)
  finds_without x =
      let (w', l', done, found) =
        wal_replay_whole replay true log w l works v (IsLog-init log e l is_log) file in
      (w', l', done, inr (λ same. cc, found))

  finds_whole :
      (r : Result (Unit {0})) (w1 : Wal)
      → w1.bytes ≡ w.bytes ++ safe_bytes e
      → Found replay log e l (r, w1)
  finds_whole r w1 more =
      let (w', l', done, found) =
        wal_replay_whole replay true (log ++ (e ∷ [])) w1 l works v is_log
          (more ∙ ap (λ t. t ++ safe_bytes e) file ∙ log_file-append log e) in
      (w', l', done, inl found)

  finds_torn : (n : ℕ) (x : Error) → Found replay log e l (err x, torn w (take n (safe_bytes e)))
  finds_torn n x = elim (take-cases n e) [
    | inl whole ↦
        finds_whole (err x) (torn w (take n (safe_bytes e))) (ap (λ t. w.bytes ++ t) whole)
    | inr part ↦
        let (w', l', done, found) =
          wal_replay_truncates replay log (take n (safe_bytes e)) (torn w (take n (safe_bytes e))) l
            works v (IsLog-init log e l is_log) (ap (λ t. t ++ take n (safe_bytes e)) file)
            (cut part) in
        (w', l', done, inr (λ same. cc, found))
  ]

  finds : (r : Result (Unit {0}) × Wal) → Written w e r → Found replay log e l r
  finds r (refused h same) = rw same (finds_without _)
  finds r (stored h same) = rw same (finds_whole (ok tt) (appended w e) refl)
  finds r (failed n x h same) = rw same (finds_torn n x)

-- Take a log on disk that was written whole, at whose end the position stands, and an entry such
-- that the log with the entry can be applied to the valid list that a replay begins with. Whatever
-- the write of the entry returns, and however much of it gets to the file, a replay with truncation
-- on a system on which nothing fails succeeds afterwards: it finds the log with the entry or, only
-- where the write did not succeed, the log without it.
pub wal_write_crash :
    (dev : WriteDevice) (replay : ReplayDevice) (log : List Entry) (w : Wal) (e : Entry)
    (l : AccountList)
    → Works replay
    → IsValid l
    → IsLog (log ++ (e ∷ [])) l
    → w.bytes ≡ log_file log
    → AtEnd w
    → Found replay log e l (wal_write dev w e)
wal_write_crash dev replay log w e l works v is_log file at_end =
    finds replay log w e l works v is_log file (wal_write dev w e)
      (wal_write_outcome dev w e at_end)
