-- ===== src/Ledger/Books.antt =====
-- The answers that the database promises: its books are the balances and the number of entries, and a
-- request is answered from them alone, in plain arithmetic, without a log, a guard or an array.
pub mod Refusals
use let_dx.Base.{
  ℕ, ◌+◌, ◌^◌, ◌≡◌, ap, ◌∙◌, Option, none, some, Bool, ◌&&◌, ◌||◌, List, length, get_elem?, ltb,
  leb, ◌==◌, if◌then◌else◌, bit_and,
}
use let_dx.Error.{
  Error, account, guard, storage, not_found, zero_balance, same_account, sender_not_found,
  recipient_not_found, account_cannot_send, account_cannot_receive, insufficient_balance,
  transaction_overflow, wal_nonce_mismatch,
}
use let_dx.Result.{Result, ok, err}
use let_dx.Network.Request.{Request}
use let_dx.Network.Response.{Response}
use let_dx.Storage.Wal.{EntryData}
use let_dx.Ledger.{Balance, apply_payload}

pub record Books : Type 0 where
  pub balances : List Balance
  pub entries : ℕ

-- Why a transfer between two accounts is refused: the sender's flag for sending, 1, the
-- recipient's for receiving, 2, a balance that does not cover the amount, unless the flag for debts, 4,
-- is set, and a count of transactions that is full.
unfoldable pub refusal_between : Balance → Balance → ℕ → Option Error
refusal_between sender recipient amount =
    if bit_and sender.flags 1 == 0
    then some (guard account_cannot_send)
    else if bit_and recipient.flags 2 == 0
    then some (guard account_cannot_receive)
    else if bit_and sender.flags 4 == 0 && ltb sender.debits (sender.credits + amount)
    then some (guard insufficient_balance)
    else if leb (2 ^ 64) (sender.transactions + 1) || leb (2 ^ 64) (recipient.transactions + 1)
    then some (guard transaction_overflow)
    else none

unfoldable pub refusal_found : Option Balance → Option Balance → ℕ → Option Error
unfolding refusal_between
refusal_found none recipient amount = some (guard sender_not_found)
refusal_found (some sender) none amount = some (guard recipient_not_found)
refusal_found (some sender) (some recipient) amount = refusal_between sender recipient amount

-- Why a transfer is refused.
unfoldable pub transfer_refusal : List Balance → ℕ → ℕ → ℕ → Option Error
unfolding refusal_found
transfer_refusal v from to amount =
    if amount == 0
    then some (guard zero_balance)
    else if from == to
    then some (guard same_account)
    else refusal_found (get_elem? v from) (get_elem? v to) amount

-- Why a change of flags is refused.
unfoldable pub update_refusal : List Balance → ℕ → Option Error
update_refusal v id = if ltb id (length v) then none else some (account not_found)

-- A change, unless it is refused or does not have the next number.
unfoldable pub enter : Option Error → ℕ → ℕ → EntryData → Response → Books → Result Response × Books
enter (some e) now wal_id change response books = (err e, books)
enter none now wal_id change response books =
    if wal_id == books.entries
    then (
      ok response,
      record { balances = apply_payload now change books.balances; entries = books.entries + 1 },
    )
    else (err (storage wal_nonce_mismatch), books)

unfoldable pub answer_account : Option Balance → Result Response
answer_account none = err (account not_found)
answer_account (some b) = ok (Response.get_account b.credits b.debits b.flags)

-- What a request is answered at a time, and the books behind it.
unfoldable pub serve : ℕ → Request → Books → Result Response × Books
unfolding enter answer_account
serve now Request.magic books = (ok Response.magic, books)
serve now (Request.add_account wal_id credits debits flags) books =
    enter none now wal_id (EntryData.add_account credits debits flags)
      (Response.add_account (length books.balances)) books
serve now (Request.make_transfer wal_id from_id to_id amount) books =
    enter (transfer_refusal books.balances from_id to_id amount) now wal_id
      (EntryData.make_transfer from_id to_id amount) Response.ok books
serve now (Request.get_account account_id) books =
    (answer_account (get_elem? books.balances account_id), books)
serve now Request.count_database books =
    (ok (Response.count_database (length books.balances) books.entries), books)
serve now (Request.update_account wal_id account_id flags) books =
    enter (update_refusal books.balances account_id) now wal_id
      (EntryData.update_account account_id flags) Response.ok books
serve now Request.close books = (ok Response.ok, books)
