-- ===== src/Guard/Laws.antt =====
-- The guard passes exactly the transfers that its rules allow.
use let_dx.Base.{
  ℕ, ◌+◌, ◌^◌, ◌≤◌, ◌<◌, ◌≡◌, ◌≢◌, ◌⊎◌, ◌↔◌, true, some, get_elem?, arith, get_elem?-lt,
  get_elem?-some_lt, All-get_elem?, sym, ◌∙◌,
}
use let_dx.Result.{ok, stuck}
use let_dx.Account.{Account, AccountList, InRange, IsValid, can_send, can_receive, can_debt}
use let_dx.Guard.{has_flag, guard_balance, guard_transactions, guard_accounts, guard_make_transfer}

-- The rules for a transfer between two stored accounts, in plain arithmetic: flags, a balance that
-- covers the amount unless the sender may have debts, and room in both transaction counts.
pub record MayTransfer (sender recipient : Account) (amount : ℕ) : Type 0 where
  pub sends : has_flag can_send sender ≡ true
  pub receives : has_flag can_receive recipient ≡ true
  pub covered : (has_flag can_debt sender ≡ true) ⊎ (sender.credits + amount ≤ sender.debits)
  pub sender_counts : sender.transactions + 1 < 2 ^ 64
  pub recipient_counts : recipient.transactions + 1 < 2 ^ 64

guard_balance_iff :
    (sender : Account) (amount : ℕ)
    → InRange sender
    → ((guard_balance sender amount ≡ ok tt) ↔ (sender.credits + amount ≤ sender.debits))
unfolding guard_balance
guard_balance_iff sender amount r = ground arith

guard_transactions_iff :
    (sender recipient : Account)
    → InRange sender
    → InRange recipient
    → ((guard_transactions sender recipient ≡ ok tt)
        ↔ ((sender.transactions + 1 < 2 ^ 64) × (recipient.transactions + 1 < 2 ^ 64)))
unfolding guard_transactions
guard_transactions_iff sender recipient r q = ground arith

guard_accounts_sound :
    (sender recipient : Account) (amount : ℕ)
    → InRange sender
    → InRange recipient
    → guard_accounts sender recipient amount ≡ ok tt
    → MayTransfer sender recipient amount
unfolding guard_accounts
guard_accounts_sound sender recipient amount r q h = ground arith

guard_accounts_complete :
    (sender recipient : Account) (amount : ℕ)
    → InRange sender
    → InRange recipient
    → MayTransfer sender recipient amount
    → guard_accounts sender recipient amount ≡ ok tt
unfolding guard_accounts
guard_accounts_complete sender recipient amount r q m = ground arith

-- What the guard demands of a transfer, in plain arithmetic.
pub record IsAllowed (l : AccountList) (from to amount : ℕ) : Type 0 where
  pub positive : 0 < amount
  pub distinct : from ≢ to
  pub sender : Account
  pub recipient : Account
  pub sender_found : get_elem? l.accounts from ≡ some sender
  pub recipient_found : get_elem? l.accounts to ≡ some recipient
  pub may : MayTransfer sender recipient amount

-- Once the ids are known to be stored, the checks that remain are those on the two accounts.
guard_found :
    (l : AccountList) (from to amount : ℕ) (sender recipient : Account)
    → IsValid l
    → 0 < amount
    → from ≢ to
    → get_elem? l.accounts from ≡ some sender
    → get_elem? l.accounts to ≡ some recipient
    → guard_make_transfer l from to amount ≡ guard_accounts sender recipient amount
unfolding guard_make_transfer
guard_found l from to amount sender recipient v positive distinct e k =
    ground (arith, get_elem?-some_lt l.accounts from e, get_elem?-some_lt l.accounts to k)

guard_tests :
    (l : AccountList) (from to amount : ℕ)
    → guard_make_transfer l from to amount ≡ ok tt
    → (0 < amount) × (from ≢ to) × (from < l.length) × (to < l.length)
unfolding guard_make_transfer
guard_tests l from to amount h = ground arith

-- In a valid list the guard passes exactly the transfers of a positive amount between two
-- different stored accounts whose flags allow it, whose transaction counts can still grow, and
-- where the sender may have debts or its debits cover its credits and the amount together.
pub guard_make_transfer_iff :
    (l : AccountList) (from to amount : ℕ)
    → IsValid l
    → (guard_make_transfer l from to amount ≡ ok tt) ↔ IsAllowed l from to amount
guard_make_transfer_iff l from to amount v = (
  λ h.
      let (positive, distinct, below, below') = guard_tests l from to amount h in
      let (s, e) = get_elem?-lt l.accounts from (omega arith) in
      let (r, k) = get_elem?-lt l.accounts to (omega arith) in
      record {
        positive = positive;
        distinct = distinct;
        sender = s;
        recipient = r;
        sender_found = e;
        recipient_found = k;
        may =
            guard_accounts_sound s r amount (All-get_elem? InRange l.accounts from v.in_range e)
              (All-get_elem? InRange l.accounts to v.in_range k)
              (sym (guard_found l from to amount s r v positive distinct e k) ∙ h);
      },
  λ a.
      guard_found l from to amount a.sender a.recipient v a.positive a.distinct a.sender_found
        a.recipient_found
      ∙ guard_accounts_complete a.sender a.recipient amount
          (All-get_elem? InRange l.accounts from v.in_range a.sender_found)
          (All-get_elem? InRange l.accounts to v.in_range a.recipient_found) a.may,
)

guard_accounts-ne-stuck :
    (sender recipient : Account) (amount : ℕ) → guard_accounts sender recipient amount ≢ stuck
unfolding guard_accounts
guard_accounts-ne-stuck sender recipient amount h = ground arith

-- In a valid list the guard reads no account outside the array, whatever the ids of the transfer.
pub guard_make_transfer-ne-stuck :
    (l : AccountList) (from to amount : ℕ)
    → IsValid l
    → guard_make_transfer l from to amount ≢ stuck
unfolding guard_make_transfer
guard_make_transfer-ne-stuck l from to amount v h =
    grind (arith, get_elem?-lt l.accounts from, get_elem?-lt l.accounts to, guard_accounts-ne-stuck)
