-- ===== src/State/Tests.antt =====
-- A ledger of two accounts, and the operations on it.
use let_dx.Base.{
  ◌≡◌, ◌↔◌, ◌%◌, ◌^◌, ◌+◌, ◌-◌, ◌<◌, ◌≤◌, ℕ, false, some, [], ◌∷◌, arith, get_elem?, refl,
}
use let_dx.Error.{guard, zero_balance}
use let_dx.Result.{ok, err}
use let_dx.Account.{Account, AccountList, IsValid, can_debt}
use let_dx.Guard.{guard_make_transfer, guard_balance, guard_transactions, guard_accounts, has_flag}
use let_dx.Guard.Laws.{IsAllowed, guard_make_transfer_iff}
use let_dx.State.{state_make_transfer, transfer_writes}
use let_dx.State.Transfer.{
  IsTransferred, state_make_transfer_lem, transfer_solvent, transfer_wraps_debits,
}
use let_dx.State.Totals.{total, credits_of, debits_of, state_make_transfer_conserves}

abbrev account_with : ℕ → Account
account_with debits = record {
  credits = 0;
  debits = debits;
  transactions = 0;
  created_at = 5;
  updated_at = 5;
  flags = 3;
}

abbrev pub two_accounts : AccountList
two_accounts = record {
  accounts = account_with 100 ∷ account_with 7 ∷ [];
  capacity = 1024;
  length = 2;
}

pub two_accounts-IsValid : IsValid two_accounts
two_accounts-IsValid = record {
  counted = refl;
  within = omega arith;
  room = omega arith;
  fits = omega arith;
  in_range = (
    record { credits_fit = omega arith; debits_fit = omega arith; transactions_fit = omega arith },
    (
      record {
        credits_fit = omega arith;
        debits_fit = omega arith;
        transactions_fit = omega arith;
      },
      tt,
    ),
  );
}

-- The second account has almost all the debits that fit.
abbrev rich_accounts : AccountList
rich_accounts = record {
  accounts = account_with 100 ∷ account_with (2 ^ 128 - 1) ∷ [];
  capacity = 1024;
  length = 2;
}

rich_accounts-IsValid : IsValid rich_accounts
rich_accounts-IsValid = record {
  counted = refl;
  within = omega arith;
  room = omega arith;
  fits = omega arith;
  in_range = (
    record { credits_fit = omega arith; debits_fit = omega arith; transactions_fit = omega arith },
    (
      record {
        credits_fit = omega arith;
        debits_fit = omega arith;
        transactions_fit = omega arith;
      },
      tt,
    ),
  );
}

pub guard_passes : guard_make_transfer two_accounts 0 1 40 ≡ ok tt
unfolding guard_make_transfer guard_accounts guard_balance guard_transactions has_flag
guard_passes = refl

guard_passes_rich : guard_make_transfer rich_accounts 0 1 40 ≡ ok tt
unfolding guard_make_transfer guard_accounts guard_balance guard_transactions has_flag
guard_passes_rich = refl

guard_refuses_zero : guard_make_transfer two_accounts 0 1 0 ≡ err (guard zero_balance)
unfolding guard_make_transfer
guard_refuses_zero = refl

abbrev after : AccountList → AccountList
after l = record l { accounts = transfer_writes 9 0 1 40 l.accounts }

moves : state_make_transfer (some 9) two_accounts 0 1 40 ≡ ok (after two_accounts)
unfolding state_make_transfer
moves = refl

moves_rich : state_make_transfer (some 9) rich_accounts 0 1 40 ≡ ok (after rich_accounts)
unfolding state_make_transfer
moves_rich = refl

no_debt : has_flag can_debt (account_with 100) ≡ false
unfolding has_flag
no_debt = refl

guard_make_transfer_iff_example :
    (guard_make_transfer two_accounts 0 1 40 ≡ ok tt) ↔ IsAllowed two_accounts 0 1 40
guard_make_transfer_iff_example = guard_make_transfer_iff two_accounts 0 1 40 two_accounts-IsValid

state_make_transfer_lem_example :
    (l' : AccountList) × (state_make_transfer (some 9) two_accounts 0 1 40 ≡ ok l')
    × IsTransferred 9 0 1 40 two_accounts l'
state_make_transfer_lem_example =
    state_make_transfer_lem 9 two_accounts 0 1 40 two_accounts-IsValid guard_passes

transfer_solvent_example :
    (sender' : Account) × (get_elem? (after two_accounts).accounts 0 ≡ some sender')
    × (sender'.credits ≡ 0 + 40)
    × (sender'.credits ≤ sender'.debits)
transfer_solvent_example =
    transfer_solvent 9 two_accounts 0 1 40 (after two_accounts) two_accounts-IsValid guard_passes
      moves refl no_debt

transfer_wraps_debits_example :
    (recipient' : Account) × (get_elem? (after rich_accounts).accounts 1 ≡ some recipient')
    × (recipient'.debits < 2 ^ 128 - 1)
transfer_wraps_debits_example =
    transfer_wraps_debits 9 rich_accounts 0 1 40 (after rich_accounts) rich_accounts-IsValid
      (omega arith) guard_passes_rich moves_rich refl (omega arith)

state_make_transfer_conserves_example :
    (total credits_of (after two_accounts).accounts % 2 ^ 128
      ≡ (total credits_of two_accounts.accounts + 40) % 2 ^ 128)
    × (total debits_of (after two_accounts).accounts % 2 ^ 128
        ≡ (total debits_of two_accounts.accounts + 40) % 2 ^ 128)
state_make_transfer_conserves_example =
    state_make_transfer_conserves 9 two_accounts 0 1 40 (after two_accounts) moves
