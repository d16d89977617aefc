-- ===== src/Ledger/Books/Refusals.antt =====
-- The guard of LetDB/src/guard.c refuses what the books refuse, with the same error.
use let_dx.Base.{
  ℕ, zero, suc, ◌≡◌, refl, Option, none, some, List, [], ◌∷◌, get_elem?, arith, get_elem?-some_lt,
  get_elem?-cases, All-get_elem?, ◌≤◌, ◌<◌, ◌⊎◌, inl, inr, leb, if◌then◌else◌,
}
use mathlib.Core.Option
use let_dx.Error.{Error, guard, sender_not_found, recipient_not_found}
use let_dx.Result.{Result, ok, err, in_bounds, ◌>>=◌}
use let_dx.Account.{Account, AccountList, InRange, IsValid}
use let_dx.Guard.{
  has_flag, guard_balance, guard_transactions, guard_accounts, guard_make_transfer,
  guard_update_account,
}
use let_dx.Ledger.{balance_of, map_balances, view}
use let_dx.Ledger.Refines.{length-map_balances}
use let_dx.Ledger.Books.{refusal_between, refusal_found, transfer_refusal, update_refusal}

-- A refusal as the guard reports it.
abbrev pub verdict : Option Error → Result (Unit {0})
verdict none = ok tt
verdict (some e) = err e

pub get_elem?-map_balances :
    (cells : List Account) (i : ℕ)
    → get_elem? (map_balances cells) i ≡ Option.map balance_of (get_elem? cells i)
get_elem?-map_balances [] i = refl
get_elem?-map_balances (a ∷ cells) zero = refl
get_elem?-map_balances (a ∷ cells) (suc i) = get_elem?-map_balances cells i

guard_accounts-verdict :
    (sender recipient : Account) (amount : ℕ)
    → InRange sender
    → InRange recipient
    → guard_accounts sender recipient amount
      ≡ verdict (refusal_between (balance_of sender) (balance_of recipient) amount)
unfolding guard_accounts guard_balance guard_transactions has_flag refusal_between
guard_accounts-verdict sender recipient amount r q = ground arith

-- A cell is past the end, or it holds an account whose values fit.
pub cell-cases :
    (l : AccountList) (i : ℕ)
    → IsValid l
    → (l.length ≤ i) × (get_elem? l.accounts i ≡ none)
      ⊎ (a : Account) × (i < l.length) × (get_elem? l.accounts i ≡ some a) × InRange a
cell-cases l i v = elim (get_elem?-cases l.accounts i) [
  | inl (out, missing) ↦ inl (omega (arith, v.counted), missing)
  | inr (a, found) ↦ inr (
    a,
    omega (arith, v.counted, get_elem?-some_lt l.accounts i found),
    found,
    All-get_elem? InRange l.accounts i v.in_range found,
  )
]

found-verdict :
    (l : AccountList) (from to amount : ℕ)
    → IsValid l
    → (if leb l.length from
        then err (guard sender_not_found)
        else if leb l.length to
        then err (guard recipient_not_found)
        else (do
          sender ← in_bounds (get_elem? l.accounts from)
          recipient ← in_bounds (get_elem? l.accounts to)
          guard_accounts sender recipient amount))
      ≡ verdict (refusal_found (get_elem? (view l) from) (get_elem? (view l) to) amount)
unfolding refusal_found
found-verdict l from to amount v =
    let sender_view = get_elem?-map_balances l.accounts from in
    let recipient_view = get_elem?-map_balances l.accounts to in
    elim (cell-cases l from v) [
      | inl (out, missing) ↦ rw (sender_view, recipient_view, missing) (ground arith)
      | inr (s, inside, found, s_fits) ↦ elim (cell-cases l to v) [
        | inl (out, missing) ↦ rw (sender_view, recipient_view, missing, found) (ground arith)
        | inr (r, r_inside, r_found, r_fits) ↦
            rw (sender_view, recipient_view, found, r_found)
              (ground (arith, guard_accounts-verdict s r amount s_fits r_fits))
      ]
    ]

-- The guard passes a transfer, or refuses it with the very error, as the books do.
pub guard_make_transfer-verdict :
    (l : AccountList) (from to amount : ℕ)
    → IsValid l
    → guard_make_transfer l from to amount ≡ verdict (transfer_refusal (view l) from to amount)
unfolding guard_make_transfer transfer_refusal
guard_make_transfer-verdict l from to amount v = ground (arith, found-verdict l from to amount v)

pub guard_update_account-verdict :
    (l : AccountList) (id : ℕ)
    → IsValid l
    → guard_update_account l id ≡ verdict (update_refusal (view l) id)
unfolding guard_update_account update_refusal
guard_update_account-verdict l id v = ground (arith, v.counted, length-map_balances l.accounts)
