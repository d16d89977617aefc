-- ===== src/Account.antt =====
-- LetDB/include/let/account.h and LetDB/src/account.c: accounts and the growing account list.
-- The array is the list of the accounts stored so far; the unused cells behind them hold nothing
-- that the program reads. `alloc n` says whether `malloc` or `realloc` grants n bytes.
pub mod Laws
use let_dx.Base.{
  ℕ, ◌+◌, ◌*◌, ◌%◌, ◌^◌, ◌≤◌, ◌<◌, ◌≡◌, Bool, Option, none, some, List, [], ◌∷◌, ◌++◌, length,
  get_elem?, modify, All, ltb, leb, if◌then◌else◌,
}
use let_dx.Error.{account, not_found, capacity_overflow, out_of_memory}
use let_dx.Result.{Result, ok, err, stuck, in_bounds}

-- LET_ACCOUNT_CAPACITY_DEFAULT
abbrev pub capacity_default : ℕ
capacity_default = 2 ^ 10

-- LET_ACCOUNT_FLAG_CAN_SEND, LET_ACCOUNT_FLAG_CAN_RECEIVE, LET_ACCOUNT_FLAG_CAN_DEBT
abbrev pub can_send : ℕ
can_send = 1

abbrev pub can_receive : ℕ
can_receive = 2

abbrev pub can_debt : ℕ
can_debt = 4

-- let_account_t; a time is the 64-bit pattern of `let_time_t`.
pub record Account : Type 0 where
  pub credits : ℕ
  pub debits : ℕ
  pub transactions : ℕ
  pub created_at : ℕ
  pub updated_at : ℕ
  pub flags : ℕ

-- sizeof(let_account_t), padded to the alignment of its 128-bit fields
abbrev pub sizeof_account : ℕ
sizeof_account = 64

-- let_account_list_t
pub record AccountList : Type 0 where
  pub accounts : List Account
  pub capacity : ℕ
  pub length : ℕ

-- let_account_new
unfoldable pub account_new : ℕ → ℕ → ℕ → ℕ → Account
account_new credits debits created_at flags = record {
  credits = credits;
  debits = debits;
  transactions = 0;
  created_at = created_at;
  updated_at = created_at;
  flags = flags;
}

-- let_account_list_new; the first argument grants the list itself, the second its array
unfoldable pub account_list_new : Bool → (ℕ → Bool) → Option AccountList
account_list_new header_granted alloc =
    if header_granted
    then if alloc (capacity_default * sizeof_account)
      then some (record { accounts = []; capacity = capacity_default; length = 0 })
      else none
    else none

-- `accounts[i] = a`: in a valid list `i` is the first unused cell, or a used one.
unfoldable pub put_cell : List Account → ℕ → Account → List Account
put_cell cells i a = if ltb i (length cells) then modify cells i (λ _. a) else cells ++ (a ∷ [])

-- `accounts[length++] = a`
unfoldable pub push : AccountList → Account → AccountList
unfolding put_cell
push l a = record l { accounts = put_cell l.accounts l.length a; length = (l.length + 1) % 2 ^ 64 }

-- let_account_list_add; `ckd_mul` reports a product that 64 bits do not hold, and the size that is
-- asked of `realloc` is computed in `size_t`.
abbrev pub grow : AccountList → AccountList
grow l = record l { capacity = l.capacity * 2 }

unfoldable pub account_list_add : (ℕ → Bool) → AccountList → Account → Result AccountList
account_list_add alloc l a =
    if leb l.capacity l.length
    then if leb (2 ^ 64) (l.capacity * 2)
      then err (account capacity_overflow)
      else if alloc (sizeof_account * (l.capacity * 2) % 2 ^ 64)
      then ok (push (grow l) a)
      else err (account out_of_memory)
    else ok (push l a)

-- let_account_list_get
unfoldable pub account_list_get : AccountList → ℕ → Result Account
account_list_get l id =
    if leb l.length id then err (account not_found) else in_bounds (get_elem? l.accounts id)

abbrev pub set_flags : ℕ → Account → Account
set_flags flags a = record a { flags = flags }

-- let_account_list_update, which makes no check of its own
unfoldable pub account_list_update : AccountList → ℕ → ℕ → Result AccountList
account_list_update l id flags =
    if ltb id (length l.accounts)
    then ok (record l { accounts = modify l.accounts id (set_flags flags) })
    else stuck

-- The values of an account fit its fields.
pub record InRange (a : Account) : Type 0 where
  pub credits_fit : a.credits < 2 ^ 128
  pub debits_fit : a.debits < 2 ^ 128
  pub transactions_fit : a.transactions < 2 ^ 64

-- The length counts the stored accounts and does not pass the capacity, a 64-bit number.
pub record IsValid (l : AccountList) : Type 0 where
  pub counted : l.length ≡ length l.accounts
  pub within : l.length ≤ l.capacity
  pub room : 0 < l.capacity
  pub fits : l.capacity < 2 ^ 64
  pub in_range : All InRange l.accounts
