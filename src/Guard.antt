-- ===== src/Guard.antt =====
-- LetDB/include/let/guard.h and LetDB/src/guard.c: the checks before a change of the ledger.
-- `let_guard_t` holds one pointer, to the state; the checks are functions on the account list.
pub mod Laws
use let_dx.Base.{
  ℕ, zero, ◌+◌, ◌-◌, ◌%◌, ◌^◌, Option, none, some, Bool, true, false, ◌||◌, ◌&&◌, get_elem?, ltb,
  leb, ◌==◌, if◌then◌else◌, bit_and,
}
use let_dx.Error.{
  Error, account, guard, not_found, zero_balance, same_account, sender_not_found,
  recipient_not_found, account_cannot_send, account_cannot_receive, insufficient_balance,
  transaction_overflow, invalid_state,
}
use let_dx.Result.{Result, ok, err, in_bounds, ◌>>=◌, ◌>>◌}
use let_dx.Account.{Account, AccountList, can_send, can_receive, can_debt}

abbrev pub u64_max : ℕ
u64_max = 2 ^ 64 - 1

abbrev pub u128_max : ℕ
u128_max = 2 ^ 128 - 1

-- let_guard_init; a null pointer is `none`
unfoldable pub guard_init : Option AccountList → Result AccountList
guard_init none = err (guard invalid_state)
guard_init (some l) = ok l

-- `flags & flag` is not 0
unfoldable pub has_flag : ℕ → Account → Bool
has_flag flag a = if bit_and a.flags flag == 0 then false else true

-- the check of the sender's balance, which an account that may have debts is not put to
unfoldable pub guard_balance : Account → ℕ → Result (Unit {0})
guard_balance sender amount =
    if ltb (u128_max - sender.credits) amount
    then err (guard insufficient_balance)
    else if ltb sender.debits ((amount + sender.credits) % 2 ^ 128)
    then err (guard insufficient_balance)
    else ok tt

unfoldable pub guard_transactions : Account → Account → Result (Unit {0})
guard_transactions sender recipient =
    if sender.transactions == u64_max || recipient.transactions == u64_max
    then err (guard transaction_overflow)
    else ok tt

-- the checks behind the two pointers
unfoldable pub guard_accounts : Account → Account → ℕ → Result (Unit {0})
unfolding guard_balance guard_transactions
guard_accounts sender recipient amount =
    if has_flag can_send sender
    then if has_flag can_receive recipient
      then (do
        if has_flag can_debt sender then ok tt else guard_balance sender amount
        guard_transactions sender recipient)
      else err (guard account_cannot_receive)
    else err (guard account_cannot_send)

-- let_guard_make_transfer
unfoldable pub guard_make_transfer : AccountList → ℕ → ℕ → ℕ → Result (Unit {0})
guard_make_transfer l from to amount =
    if amount == 0
    then err (guard zero_balance)
    else if from == to
    then err (guard same_account)
    else if leb l.length from
    then err (guard sender_not_found)
    else if leb l.length to
    then err (guard recipient_not_found)
    else do
      sender ← in_bounds (get_elem? l.accounts from)
      recipient ← in_bounds (get_elem? l.accounts to)
      guard_accounts sender recipient amount

-- let_guard_update_account
unfoldable pub guard_update_account : AccountList → ℕ → Result (Unit {0})
guard_update_account l id = if leb l.length id then err (account not_found) else ok tt
