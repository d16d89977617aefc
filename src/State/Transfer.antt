-- ===== src/State/Transfer.antt =====
-- What a transfer does to the stored accounts.
use mathlib.Core.Option
use let_dx.Base.{
  ℕ, ◌+◌, ◌^◌, ◌≤◌, ◌<◌, ◌≡◌, ◌≢◌, refl, sym, ap, ◌∙◌, false, Option, none, some, List, length,
  get_elem?, get_elem?-modify, get_elem?-some_lt, ==_refl, ne→==_false, arith, All, length-modify,
  All-get_elem?, subst,
}
use let_dx.Result.{ok}
use let_dx.Account.{Account, AccountList, InRange, IsValid, can_debt}
use let_dx.Account.Laws.{All-modify}
use let_dx.Guard.{has_flag, guard_make_transfer}
use let_dx.Guard.Laws.{IsAllowed, guard_make_transfer_iff}
use let_dx.State.{
  add_credits, add_debits, count_transaction, touch, transfer_writes, state_make_transfer,
}

-- The sender and the recipient after a transfer.
abbrev pub sent : ℕ → ℕ → Account → Account
sent now amount a = touch now (count_transaction (add_credits amount a))

abbrev pub received : ℕ → ℕ → Account → Account
received now amount a = touch now (count_transaction (add_debits amount a))

module _ (now from to amount : ℕ) (cells : List Account) where
  get_elem?-transfer_from :
      from ≢ to
      → get_elem? (transfer_writes now from to amount cells) from
        ≡ Option.map (sent now amount) (get_elem? cells from)
  unfolding transfer_writes
  get_elem?-transfer_from h =
      simp (get_elem?-modify, ==_refl, ne→==_false to from (λ e. h (sym e))) (ground arith)

  get_elem?-transfer_to :
      from ≢ to
      → get_elem? (transfer_writes now from to amount cells) to
        ≡ Option.map (received now amount) (get_elem? cells to)
  unfolding transfer_writes
  get_elem?-transfer_to h = simp (get_elem?-modify, ==_refl, ne→==_false from to h) (ground arith)

  get_elem?-transfer_ne :
      (id : ℕ)
      → from ≢ id
      → to ≢ id
      → get_elem? (transfer_writes now from to amount cells) id ≡ get_elem? cells id
  unfolding transfer_writes
  get_elem?-transfer_ne id h k = simp (get_elem?-modify, ne→==_false from id h, ne→==_false to id k)

  pub length-transfer_writes : length (transfer_writes now from to amount cells) ≡ length cells
  unfolding transfer_writes
  length-transfer_writes = simp length-modify

  transfer_writes-InRange :
      All InRange cells → All InRange (transfer_writes now from to amount cells)
  unfolding transfer_writes
  transfer_writes-InRange h = All-modify _ to (touch now) touch-InRange (
      All-modify _ from (touch now) touch-InRange (
        All-modify _ to count_transaction count-InRange (
          All-modify _ from count_transaction count-InRange (
            All-modify _ to (add_debits amount) debits-InRange
              (All-modify cells from (add_credits amount) credits-InRange h)))))
    where
      touch-InRange : (a : Account) → InRange a → InRange (touch now a)
      touch-InRange a r = omega arith

      count-InRange : (a : Account) → InRange a → InRange (count_transaction a)
      count-InRange a r = omega arith

      debits-InRange : (a : Account) → InRange a → InRange (add_debits amount a)
      debits-InRange a r = omega arith

      credits-InRange : (a : Account) → InRange a → InRange (add_credits amount a)
      credits-InRange a r = omega arith

-- A transfer never touches the length or the capacity, and keeps the list valid.
pub state_make_transfer-IsValid :
    (clock : Option ℕ) (l : AccountList) (from to amount : ℕ) (l' : AccountList)
    → IsValid l
    → state_make_transfer clock l from to amount ≡ ok l'
    → IsValid l' × (l'.length ≡ l.length)
unfolding state_make_transfer
state_make_transfer-IsValid none l from to amount l' v h = cc
state_make_transfer-IsValid (some now) l from to amount l' v h =
    let e : l' ≡ record l { accounts = transfer_writes now from to amount l.accounts } =
      ground arith in
    rw e (
      record {
        counted = omega (arith, length-transfer_writes now from to amount l.accounts);
        within = v.within;
        room = v.room;
        fits = v.fits;
        in_range = transfer_writes-InRange now from to amount l.accounts v.in_range;
      },
      refl,
    )

-- How the two accounts of a transfer stand after it, and that no other account changes.
pub record IsTransferred (now from to amount : ℕ) (l l' : AccountList) : Type 0 where
  pub sender : Account
  pub recipient : Account
  pub sender_before : get_elem? l.accounts from ≡ some sender
  pub recipient_before : get_elem? l.accounts to ≡ some recipient
  pub sender_after : get_elem? l'.accounts from ≡ some (sent now amount sender)
  pub recipient_after : get_elem? l'.accounts to ≡ some (received now amount recipient)
  pub others : (id : ℕ) → from ≢ id → to ≢ id → get_elem? l'.accounts id ≡ get_elem? l.accounts id

-- The transfer of a list that meets the guard's rules.
allowed_transfer :
    (now : ℕ) (l : AccountList) (from to amount : ℕ)
    → IsValid l
    → IsAllowed l from to amount
    → (l' : AccountList) × (state_make_transfer (some now) l from to amount ≡ ok l')
      × IsTransferred now from to amount l l'
unfolding state_make_transfer
allowed_transfer now l from to amount v a =
    let cells : List Account = transfer_writes now from to amount l.accounts in
    (
      record l { accounts = cells },
      ground (
        arith,
        get_elem?-some_lt l.accounts from a.sender_found,
        get_elem?-some_lt l.accounts to a.recipient_found,
      ),
      record {
        sender = a.sender;
        recipient = a.recipient;
        sender_before = a.sender_found;
        recipient_before = a.recipient_found;
        sender_after =
            get_elem?-transfer_from now from to amount l.accounts a.distinct
            ∙ ap (Option.map (sent now amount)) a.sender_found;
        recipient_after =
            get_elem?-transfer_to now from to amount l.accounts a.distinct
            ∙ ap (Option.map (received now amount)) a.recipient_found;
        others = get_elem?-transfer_ne now from to amount l.accounts;
      },
    )

-- In a valid list, a transfer that the guard passes is carried out whenever the clock can be read:
-- the sender's credits and the recipient's debits grow by the amount (modulo 2 ^ 128), both
-- transaction counts by one (modulo 2 ^ 64) and both update times are the reading; no other account
-- changes.
pub state_make_transfer_lem :
    (now : ℕ) (l : AccountList) (from to amount : ℕ)
    → IsValid l
    → guard_make_transfer l from to amount ≡ ok tt
    → (l' : AccountList) × (state_make_transfer (some now) l from to amount ≡ ok l')
      × IsTransferred now from to amount l l'
state_make_transfer_lem now l from to amount v g =
    allowed_transfer now l from to amount v ((guard_make_transfer_iff l from to amount v).0 g)

-- In a valid list, a sender without the flag for debts, whose transfer the guard passes, has after
-- it credits that grew by the amount without wrapping, and that do not exceed its debits.
pub transfer_solvent :
    (now : ℕ) (l : AccountList) (from to amount : ℕ) (l' : AccountList) {sender : Account}
    → IsValid l
    → guard_make_transfer l from to amount ≡ ok tt
    → state_make_transfer (some now) l from to amount ≡ ok l'
    → get_elem? l.accounts from ≡ some sender
    → has_flag can_debt sender ≡ false
    → (sender' : Account) × (get_elem? l'.accounts from ≡ some sender')
      × (sender'.credits ≡ sender.credits + amount)
      × (sender'.credits ≤ sender'.debits)
transfer_solvent now l from to amount l' {sender} v g h e no_debt =
    let a = (guard_make_transfer_iff l from to amount v).0 g in
    let (l2, h2, t) = allowed_transfer now l from to amount v a in
    let same_list : l2 ≡ l' = ground (arith, h, h2) in
    let same : a.sender ≡ sender = ground (arith, e, a.sender_found) in
    let same2 : t.sender ≡ sender = ground (arith, e, t.sender_before) in
    let r = All-get_elem? InRange l.accounts from v.in_range e in
    let covered : sender.credits + amount ≤ sender.debits = ground (arith, a.may.covered, same) in
    (
      sent now amount sender,
      subst (λ m. get_elem? m.accounts from ≡ some (sent now amount sender)) same_list
          (subst (λ s. get_elem? l2.accounts from ≡ some (sent now amount s)) same2 t.sender_after),
      omega arith,
      omega arith,
    )

-- The balance of a recipient is not checked: where, in a valid list, its debits and an amount of at
-- most 128 bits together pass 128 bits, a transfer that the guard passes and that is carried out
-- leaves the recipient with fewer debits than before.
pub transfer_wraps_debits :
    (now : ℕ) (l : AccountList) (from to amount : ℕ) (l' : AccountList) {recipient : Account}
    → IsValid l
    → amount < 2 ^ 128
    → guard_make_transfer l from to amount ≡ ok tt
    → state_make_transfer (some now) l from to amount ≡ ok l'
    → get_elem? l.accounts to ≡ some recipient
    → 2 ^ 128 ≤ recipient.debits + amount
    → (recipient' : Account) × (get_elem? l'.accounts to ≡ some recipient')
      × (recipient'.debits < recipient.debits)
transfer_wraps_debits now l from to amount l' {recipient} v fits g h e over =
    let (l2, h2, t) = state_make_transfer_lem now l from to amount v g in
    let same_list : l2 ≡ l' = ground (arith, h, h2) in
    let same : t.recipient ≡ recipient = ground (arith, e, t.recipient_before) in
    let r = All-get_elem? InRange l.accounts to v.in_range e in
    (
      received now amount recipient,
      subst (λ m. get_elem? m.accounts to ≡ some (received now amount recipient)) same_list
          (subst (λ s. get_elem? l2.accounts to ≡ some (received now amount s)) same
            t.recipient_after),
      omega arith,
    )
