-- ===== src/Storage/Wal/Replay/Apply.antt =====
-- The `switch` of the replay does to the ledger what the entry stands for.
use let_dx.Base.{
  ℕ, ◌+◌, ◌^◌, ◌≤◌, ◌<◌, ◌≡◌, inl, inr, refl, Bool, true, some, length, arith, lt→ltb, modify,
}
use let_dx.Result.{ok}
use let_dx.Account.{
  Account, AccountList, IsValid, account_new, account_list_add, account_list_update, set_flags,
}
use let_dx.Account.Laws.{account_list_add-total, account_list_add_appends}
use let_dx.State.{transfer_writes, state_add_account, state_make_transfer, state_update_account}
use let_dx.State.Transfer.{state_make_transfer-IsValid}
use let_dx.Storage.Wal.{
  Entry, EntryData, EntryFits, PayloadFits, add_account, make_transfer, update_account,
}
use let_dx.Storage.Wal.Replay.{ReplayDevice, replay_entry}
use let_dx.Ledger.{view, apply_entry, InLedger}
use let_dx.Ledger.Refines.{
  length-map_balances, state_add_account-view, state_make_transfer-view, state_update_account-view,
}

-- A system on which nothing fails: it seeks and truncates, the clock can be read, memory is
-- granted, and a read returns all the bytes that it is asked for and that there are.
pub record Works (dev : ReplayDevice) : Type 0 where
  pub seeks_start : dev.seeks_start ≡ true
  pub seeks_end : dev.seeks_end ≡ true
  pub truncates : dev.truncates ≡ true
  pub reads : (offset : ℕ) → (n : ℕ) × (dev.reads offset ≡ some n) × (54 ≤ n)
  pub clock : (seq : ℕ) → (now : ℕ) × (dev.clock seq ≡ some now)
  pub alloc : (seq size : ℕ) → dev.alloc seq size ≡ true

-- The list behind an entry.
pub record Applied (e : Entry) (l l' : AccountList) : Type 0 where
  pub same_view : view l' ≡ apply_entry e (view l)
  pub valid : IsValid l'
  pub grown : l'.length ≤ l.length + 1

-- The entries whose payload is `p`.
abbrev entry : ℕ → ℕ → EntryData → Entry
entry id timestamp payload = record { id = id; timestamp = timestamp; payload = payload }

-- With memory granted, a valid list of less than 2 ^ 63 accounts takes another.
add_account-total :
    (alloc : ℕ → Bool) (l : AccountList) (a : Account)
    → ((size : ℕ) → alloc size ≡ true)
    → IsValid l
    → l.length < 2 ^ 63
    → (l' : AccountList) × (account_list_add alloc l a ≡ ok l')
add_account-total alloc l a granted v small = elim (account_list_add-total alloc l a v) [
  | inl added ↦ added
  | inr (e, h, (full, inl (over, big))) ↦ absurd (omega arith)
  | inr (e, h, (full, inr (no_memory, refused))) ↦ absurd (cc (refused, granted _))
]

replay_add :
    (dev : ReplayDevice) (seq : ℕ) (l : AccountList) (id timestamp credits debits flags : ℕ)
    → Works dev
    → IsValid l
    → l.length < 2 ^ 63
    → PayloadFits (add_account credits debits flags)
    → (let e = entry id timestamp (add_account credits debits flags) in
        (l' : AccountList) × (replay_entry dev seq l (some e) ≡ ok l') × Applied e l l')
unfolding replay_entry
replay_add dev seq l id timestamp credits debits flags works v small (fc, fd, ff) =
    let a = account_new credits debits timestamp flags in
    let (l', added) = add_account-total (dev.alloc seq) l a (works.alloc seq) v small in
    let stored : state_add_account (dev.alloc seq) l a ≡ ok (l.length, l') =
      unfold state_add_account in rw added in
    let (seen, valid, same) =
      state_add_account-view (dev.alloc seq) l l.length l' credits debits timestamp flags v (fc, fd)
        stored in
    (
      l',
      rw stored,
      record {
        same_view = seen;
        valid = valid;
        grown = omega (arith, (account_list_add_appends (dev.alloc seq) l a l' v added).1);
      },
    )

replay_transfer :
    (dev : ReplayDevice) (seq : ℕ) (l : AccountList) (id timestamp from to amount : ℕ)
    → Works dev
    → IsValid l
    → InLedger (length (view l)) (make_transfer from to amount)
    → (let e = entry id timestamp (make_transfer from to amount) in
        (l' : AccountList) × (replay_entry dev seq l (some e) ≡ ok l') × Applied e l l')
unfolding replay_entry
replay_transfer dev seq l id timestamp from to amount works v (from_in, to_in) =
    let (now, reading) = works.clock seq in
    let (l', done) : (l' : AccountList) × (state_make_transfer (some now) l from to amount
          ≡ ok l') =
      unfold state_make_transfer in
      (
        record l { accounts = transfer_writes now from to amount l.accounts },
        rw (
          lt→ltb from (length l.accounts) (omega (arith, length-map_balances l.accounts)),
          lt→ltb to (length l.accounts) (omega (arith, length-map_balances l.accounts)),
        ),
      ) in
    let (valid, same_length) = state_make_transfer-IsValid (some now) l from to amount l' v done in
    (
      l',
      rw (reading, done),
      record {
        same_view = state_make_transfer-view (some now) l from to amount l' timestamp done;
        valid = valid;
        grown = omega arith;
      },
    )

replay_update :
    (dev : ReplayDevice) (seq : ℕ) (l : AccountList) (id timestamp account_id flags : ℕ)
    → IsValid l
    → InLedger (length (view l)) (update_account account_id flags)
    → (let e = entry id timestamp (update_account account_id flags) in
        (l' : AccountList) × (replay_entry dev seq l (some e) ≡ ok l') × Applied e l l')
unfolding replay_entry
replay_update dev seq l id timestamp account_id flags v inside =
    let (l', done, same_length) : (l' : AccountList) × (state_update_account l account_id flags
          ≡ ok l')
        × (l'.length ≡ l.length) =
      unfold state_update_account account_list_update in
      (
        record l { accounts = modify l.accounts account_id (set_flags flags) },
        rw (lt→ltb account_id (length l.accounts) (omega (arith, length-map_balances l.accounts))),
        refl,
      ) in
    let (seen, valid) = state_update_account-view l account_id flags l' timestamp v done in
    (l', done, record { same_view = seen; valid = valid; grown = omega arith })

replay_payload :
    (dev : ReplayDevice) (seq : ℕ) (l : AccountList) (id timestamp : ℕ) (p : EntryData)
    → Works dev
    → IsValid l
    → l.length < 2 ^ 63
    → PayloadFits p
    → InLedger (length (view l)) p
    → (l' : AccountList) × (replay_entry dev seq l (some (entry id timestamp p)) ≡ ok l')
      × Applied (entry id timestamp p) l l'
replay_payload dev seq l id ts (add_account c d f) works v small fits inside =
    replay_add dev seq l id ts c d f works v small fits
replay_payload dev seq l id ts (make_transfer s r a) works v small fits inside =
    replay_transfer dev seq l id ts s r a works v inside
replay_payload dev seq l id ts (update_account i f) works v small fits inside =
    replay_update dev seq l id ts i f v inside

-- On such a system an entry of the log is applied to a valid list of less than 2 ^ 63 accounts.
pub replay_entry_lem :
    (dev : ReplayDevice) (seq : ℕ) (l : AccountList) (e : Entry)
    → Works dev
    → IsValid l
    → l.length < 2 ^ 63
    → EntryFits e
    → InLedger (length (view l)) e.payload
    → (l' : AccountList) × (replay_entry dev seq l (some e) ≡ ok l') × Applied e l l'
replay_entry_lem dev seq l e works v small fits inside =
    replay_payload dev seq l e.id e.timestamp e.payload works v small fits.payload_fits inside
