-- ===== src/Ledger.antt =====
-- What the database promises of its accounts: a list of balances, and what each entry of the log
-- does to it. This is the specification that the account list in memory and the log on disk are
-- both held to; the times of the last updates, which a replay sets anew, are not part of it.
pub mod Refines
pub mod Books
use let_dx.Base.{ℕ, ◌+◌, ◌%◌, ◌^◌, ◌<◌, List, [], ◌∷◌, ◌++◌, length, modify}
use let_dx.Account.{Account, AccountList}
use let_dx.Storage.Wal.{Entry, EntryData, add_account, make_transfer, update_account}

-- An account without the time of its last update.
pub record Balance : Type 0 where
  pub credits : ℕ
  pub debits : ℕ
  pub transactions : ℕ
  pub created_at : ℕ
  pub flags : ℕ

abbrev pub balance_of : Account → Balance
balance_of a = record {
  credits = a.credits;
  debits = a.debits;
  transactions = a.transactions;
  created_at = a.created_at;
  flags = a.flags;
}

abbrev pub map_balances : List Account → List Balance
map_balances [] = []
map_balances (a ∷ cells) = balance_of a ∷ map_balances cells

abbrev pub view : AccountList → List Balance
view l = map_balances l.accounts

-- A transfer as its sender and its recipient see it.
abbrev pub send : ℕ → Balance → Balance
send amount b = record b {
  credits = (b.credits + amount) % 2 ^ 128;
  transactions = (b.transactions + 1) % 2 ^ 64;
}

abbrev pub receive : ℕ → Balance → Balance
receive amount b = record b {
  debits = (b.debits + amount) % 2 ^ 128;
  transactions = (b.transactions + 1) % 2 ^ 64;
}

abbrev pub with_flags : ℕ → Balance → Balance
with_flags flags b = record b { flags = flags }

abbrev pub opening : ℕ → ℕ → ℕ → ℕ → Balance
opening credits debits created_at flags = record {
  credits = credits;
  debits = debits;
  transactions = 0;
  created_at = created_at;
  flags = flags;
}

-- What one entry does.
unfoldable pub apply_payload : ℕ → EntryData → List Balance → List Balance
apply_payload timestamp (add_account credits debits flags) v =
    v ++ (opening credits debits timestamp flags ∷ [])
apply_payload timestamp (make_transfer from_id to_id amount) v =
    modify (modify v from_id (send amount)) to_id (receive amount)
apply_payload timestamp (update_account account_id flags) v = modify v account_id (with_flags flags)

abbrev pub apply_entry : Entry → List Balance → List Balance
apply_entry e v = apply_payload e.timestamp e.payload v

-- What a log stands for, behind a ledger.
unfoldable pub apply_log : List Entry → List Balance → List Balance
apply_log [] v = v
apply_log (e ∷ log) v = apply_log log (apply_entry e v)

-- The ids of an entry name accounts that are there when it is applied.
abbrev pub InLedger : ℕ → EntryData → Type 0
InLedger n (add_account credits debits flags) = Unit
InLedger n (make_transfer from_id to_id amount) = (from_id < n) × (to_id < n)
InLedger n (update_account account_id flags) = account_id < n

abbrev pub IsReplayable : List Entry → List Balance → Type 0
IsReplayable [] v = Unit
IsReplayable (e ∷ log) v = InLedger (length v) e.payload × IsReplayable log (apply_entry e v)
