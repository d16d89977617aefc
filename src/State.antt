-- ===== src/State.antt =====
-- LetDB/include/let/state.h and LetDB/src/state.c: the operations on the ledger in memory.
-- `let_state_t` holds one pointer, to the account list that the whole program shares; its
-- operations are functions on that list. A clock reading `none` is `time(nullptr) == -1`.
pub mod Transfer
pub mod Totals
pub mod Tests
use let_dx.Base.{
  ℕ, ◌+◌, ◌%◌, ◌^◌, Bool, Option, none, some, List, length, modify, ltb, if◌then◌else◌, ◌&&◌,
}
use let_dx.Error.{state, invalid_account_list, invalid_time}
use let_dx.Result.{Result, ok, err, stuck, ◌>>=◌}
use let_dx.Account.{Account, AccountList, account_list_add, account_list_update}

-- let_state_init; a null pointer is `none`
unfoldable pub state_init : Option AccountList → Result AccountList
state_init none = err (state invalid_account_list)
state_init (some l) = ok l

-- let_state_add_account: the id of the new account, and the list
unfoldable pub state_add_account : (ℕ → Bool) → AccountList → Account → Result (ℕ × AccountList)
state_add_account alloc l a = do l' ← account_list_add alloc l a; ok (l.length, l')

-- The six writes through `from_account` and `to_account`, each on the cell as it then is.
abbrev pub add_credits : ℕ → Account → Account
add_credits amount a = record a { credits = (a.credits + amount) % 2 ^ 128 }

abbrev pub add_debits : ℕ → Account → Account
add_debits amount a = record a { debits = (a.debits + amount) % 2 ^ 128 }

abbrev pub count_transaction : Account → Account
count_transaction a = record a { transactions = (a.transactions + 1) % 2 ^ 64 }

abbrev pub touch : ℕ → Account → Account
touch now a = record a { updated_at = now }

unfoldable pub transfer_writes : ℕ → ℕ → ℕ → ℕ → List Account → List Account
transfer_writes now from to amount cells =
    let cells1 = modify cells from (add_credits amount) in
    let cells2 = modify cells1 to (add_debits amount) in
    let cells3 = modify cells2 from count_transaction in
    let cells4 = modify cells3 to count_transaction in
    let cells5 = modify cells4 from (touch now) in modify cells5 to (touch now)

-- let_state_make_transfer, which makes no check of the ids
unfoldable pub state_make_transfer : Option ℕ → AccountList → ℕ → ℕ → ℕ → Result AccountList
state_make_transfer none l from to amount = err (state invalid_time)
state_make_transfer (some now) l from to amount =
    if ltb from (length l.accounts) && ltb to (length l.accounts)
    then ok (record l { accounts = transfer_writes now from to amount l.accounts })
    else stuck

-- let_state_update_account
unfoldable pub state_update_account : AccountList → ℕ → ℕ → Result AccountList
state_update_account l id flags = account_list_update l id flags
