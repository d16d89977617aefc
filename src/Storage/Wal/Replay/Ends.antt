-- ===== src/Storage/Wal/Replay/Ends.antt =====
-- How the loop of the replay ends behind the whole records of a log.
use let_dx.Base.{
  ℕ, suc, ◌≤◌, ◌<◌, ◌≡◌, ◌⊎◌, inl, inr, refl, sym, ap, Bool, true, false, List, [], ◌∷◌, ◌++◌,
  length, length-take, take, take_all, take-append, append-nil, arith, Bool-cases, ltb, ne→==_false,
}
use let_dx.Result.{ok}
use let_dx.Storage.Wal.{sizeof_safe}
use let_dx.Storage.Wal.Replay.{
  ReplayDevice, Scan, ScanEnd, short, corrupted, checksum_holds, replay_loop, replay_tail,
  wal_truncate,
}
use let_dx.Storage.Wal.Replay.Apply.{Works}
use let_dx.Storage.Wal.Replay.Loop.{sys_read-behind}

-- Bytes behind the last whole record of a log that are not one more: less than a record, or a
-- record whose checksum is wrong, and whatever follows it.
pub data Damaged (tail : List ℕ) : Type 0 where
  cut : length tail < 54 → Damaged tail
  wrong : 54 ≤ length tail → checksum_holds (take sizeof_safe tail) ≡ false → Damaged tail

-- How the loop ends behind the whole records.
module _ (dev : ReplayDevice) (before tail : List ℕ) (s : Scan) (works : Works dev)
    (behind : s.file_offset ≡ length before) where
  truncates_to : wal_truncate dev.truncates (before ++ tail) s.file_offset ≡ ok before
  unfolding wal_truncate
  truncates_to = rw works.truncates (ap ok (take-append s.file_offset before tail (sym behind)))

  abbrev pub Ends : ℕ → Bool → Type 0
  Ends fuel truncate =
      (ending : ScanEnd) × (bytes : List ℕ) × (replay_loop (suc fuel) dev truncate (before ++ tail)
          s
        ≡ ok (s, ending, bytes))
      × (replay_tail dev truncate (s, ending, bytes) ≡ ok before)

  pub stops_short :
      (fuel : ℕ) (truncate : Bool)
      → length tail < 54
      → replay_loop (suc fuel) dev truncate (before ++ tail) s
        ≡ ok (s, short (length tail), before ++ tail)
  unfolding replay_loop
  stops_short fuel truncate h =
      let whole : take sizeof_safe tail ≡ tail = take_all 54 tail (omega arith) in
      rw
        (
          sys_read-behind dev before tail s.file_offset works behind,
          replay_loop,
          whole,
          ne→==_false (length tail) 54 (λ e. omega arith),
        )
        refl

  Ends-empty : (fuel : ℕ) (truncate : Bool) → tail ≡ [] → Ends fuel truncate
  unfolding replay_tail
  Ends-empty fuel truncate e =
      let none_left : length tail ≡ 0 = ap length e in
      (
        short (length tail),
        before ++ tail,
        stops_short fuel truncate (omega arith),
        rw (none_left, e) (ap ok (append-nil before)),
      )

  Ends-cut : (fuel : ℕ) → length tail < 54 → Ends fuel true
  unfolding replay_tail
  Ends-cut fuel h = elim (Bool-cases (ltb 0 (length tail))) [
    | inl some_left ↦ (
      short (length tail),
      before ++ tail,
      stops_short fuel true h,
      rw (some_left, truncates_to) refl,
    )
    | inr none_left ↦ Ends-empty fuel true (length-nil tail (ground arith))
  ]
    where
      length-nil : (xs : List ℕ) → length xs ≡ 0 → xs ≡ []
      length-nil [] e = refl
      length-nil (x ∷ xs) e = absurd (omega arith)

  reads_record : 54 ≤ length tail → length (take sizeof_safe tail) ≡ 54
  reads_record h = omega (arith, length-take 54 tail)

  Ends-wrong :
      (fuel : ℕ)
      → 54 ≤ length tail
      → checksum_holds (take sizeof_safe tail) ≡ false
      → Ends fuel true
  unfolding replay_loop replay_tail
  Ends-wrong fuel h bad = (
    corrupted,
    before,
    rw
        (
          sys_read-behind dev before tail s.file_offset works behind,
          replay_loop,
          reads_record h,
          bad,
          truncates_to,
        )
        refl,
    refl,
  )

  Ends-truncated : (fuel : ℕ) → Damaged tail → Ends fuel true
  Ends-truncated fuel (cut h) = Ends-cut fuel h
  Ends-truncated fuel (wrong h bad) = Ends-wrong fuel h bad

-- The loop and the checks behind it, over a log and a damaged tail, which `truncate` allows for.
abbrev pub Cleared : Bool → List ℕ → Type 0
Cleared truncate tail = (truncate ≡ true) × Damaged tail ⊎ tail ≡ []

pub Ends-Cleared :
    (dev : ReplayDevice) (before tail : List ℕ) (s : Scan) (truncate : Bool)
    → (works : Works dev) → (h : s.file_offset ≡ length before) → Cleared truncate tail
    → (fuel : ℕ) → Ends dev before tail s works h fuel truncate
Ends-Cleared dev before tail s truncate works h (inl (e, d)) fuel =
    rw e (Ends-truncated dev before tail s works h fuel d)
Ends-Cleared dev before tail s truncate works h (inr e) fuel =
    Ends-empty dev before tail s works h fuel truncate e
