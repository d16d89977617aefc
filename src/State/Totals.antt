-- ===== src/State/Totals.antt =====
-- A transfer moves value: what the credits of all accounts gain, the debits gain too.
use let_dx.Base.{
  ℕ, zero, suc, ◌+◌, ◌%◌, ◌^◌, ◌<◌, ◌≡◌, refl, ap, ◌∙◌, some, List, [], ◌∷◌, length, modify, arith,
  length-modify,
}
use let_dx.Result.{ok}
use let_dx.Account.{Account, AccountList}
use let_dx.State.{
  add_credits, add_debits, count_transaction, touch, transfer_writes, state_make_transfer,
}

-- The sum of a field over all stored accounts.
unfoldable pub total : (Account → ℕ) → List Account → ℕ
total f [] = 0
total f (a ∷ cells) = f a + total f cells

abbrev pub credits_of : Account → ℕ
credits_of a = a.credits

abbrev pub debits_of : Account → ℕ
debits_of a = a.debits

-- A write that keeps the field keeps the sum.
total-modify_same :
    (f : Account → ℕ) (cells : List Account) (i : ℕ) (g : Account → Account)
    → ((a : Account) → f (g a) ≡ f a)
    → total f (modify cells i g) ≡ total f cells
unfolding total
total-modify_same f [] i g keep = refl
total-modify_same f (a ∷ cells) zero g keep = omega (arith, keep a)
total-modify_same f (a ∷ cells) (suc i) g keep = omega (arith, total-modify_same f cells i g keep)

-- A write that adds `amount` to the field in 128 bits adds it to the sum, modulo 2 ^ 128.
total-modify_add :
    (amount : ℕ) (f : Account → ℕ) (cells : List Account) (i : ℕ) (g : Account → Account)
    → ((a : Account) → f (g a) ≡ (f a + amount) % 2 ^ 128)
    → i < length cells
    → total f (modify cells i g) % 2 ^ 128 ≡ (total f cells + amount) % 2 ^ 128
unfolding total
total-modify_add amount f [] i g adds h = elim h [ ]
total-modify_add amount f (a ∷ cells) zero g adds h = omega (arith, adds a)
total-modify_add amount f (a ∷ cells) (suc i) g adds h =
    omega (arith, total-modify_add amount f cells i g adds (omega arith))

module _ (now from to amount : ℕ) (cells : List Account) where
  abbrev cells1 : List Account
  cells1 = modify cells from (add_credits amount)

  abbrev cells2 : List Account
  cells2 = modify cells1 to (add_debits amount)

  abbrev cells3 : List Account
  cells3 = modify cells2 from count_transaction

  abbrev cells4 : List Account
  cells4 = modify cells3 to count_transaction

  abbrev cells5 : List Account
  cells5 = modify cells4 from (touch now)

  -- The writes of the counts and the times keep a field that they leave alone.
  total-bookkeeping :
      (f : Account → ℕ)
      → ((a : Account) → f (count_transaction a) ≡ f a)
      → ((a : Account) → f (touch now a) ≡ f a)
      → total f (transfer_writes now from to amount cells) ≡ total f cells2
  unfolding transfer_writes
  total-bookkeeping f counts touches =
      total-modify_same f cells5 to (touch now) touches
      ∙ total-modify_same f cells4 from (touch now) touches
      ∙ total-modify_same f cells3 to count_transaction counts
      ∙ total-modify_same f cells2 from count_transaction counts

  total-transfer_credits :
      from < length cells
      → total credits_of (transfer_writes now from to amount cells) % 2 ^ 128
        ≡ (total credits_of cells + amount) % 2 ^ 128
  total-transfer_credits h =
      ap (λ (t : ℕ). t % 2 ^ 128)
        (total-bookkeeping credits_of (λ a. refl) (λ a. refl)
          ∙ total-modify_same credits_of cells1 to (add_debits amount) (λ a. refl))
      ∙ total-modify_add amount credits_of cells from (add_credits amount) (λ a. refl) h

  total-transfer_debits :
      to < length cells
      → total debits_of (transfer_writes now from to amount cells) % 2 ^ 128
        ≡ (total debits_of cells + amount) % 2 ^ 128
  total-transfer_debits h =
      ap (λ (t : ℕ). t % 2 ^ 128) (total-bookkeeping debits_of (λ a. refl) (λ a. refl))
      ∙ total-modify_add amount debits_of cells1 to (add_debits amount) (λ a. refl)
          (omega (arith, length-modify cells from (add_credits amount)))
      ∙ ap (λ (t : ℕ). (t + amount) % 2 ^ 128)
          (total-modify_same debits_of cells from (add_credits amount) (λ a. refl))

-- A transfer that is carried out, whatever its ids, adds the amount to the sum of all credits and
-- to the sum of all debits, modulo 2 ^ 128: the difference of the two sums never changes.
pub state_make_transfer_conserves :
    (now : ℕ) (l : AccountList) (from to amount : ℕ) (l' : AccountList)
    → state_make_transfer (some now) l from to amount ≡ ok l'
    → (total credits_of l'.accounts % 2 ^ 128 ≡ (total credits_of l.accounts + amount) % 2 ^ 128)
      × (total debits_of l'.accounts % 2 ^ 128 ≡ (total debits_of l.accounts + amount) % 2 ^ 128)
unfolding state_make_transfer
state_make_transfer_conserves now l from to amount l' h =
    let e : l' ≡ record l { accounts = transfer_writes now from to amount l.accounts } =
      ground arith in
    let below : from < length l.accounts = ground arith in
    let below' : to < length l.accounts = ground arith in
    rw e (
      total-transfer_credits now from to amount l.accounts below,
      total-transfer_debits now from to amount l.accounts below',
    )
