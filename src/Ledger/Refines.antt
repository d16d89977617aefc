-- ===== src/Ledger/Refines.antt =====
-- The operations on the account list are those of the ledger, seen through `view`.
use let_dx.Base.{
  ℕ, zero, suc, ◌^◌, ◌<◌, ◌≡◌, refl, ap, sym, ◌∙◌, List, [], ◌∷◌, ◌++◌, length, length-modify,
  modify, arith, Bool, Option, none, some,
}
use let_dx.Result.{ok, >>=-eq-ok}
use let_dx.Account.{
  Account, AccountList, IsValid, account_new, account_list_add, account_list_update, set_flags,
}
use let_dx.Account.Laws.{account_list_add_appends, account_list_add-IsValid, All-modify}
use let_dx.Storage.Wal.{add_account, make_transfer, update_account}
use let_dx.State.{
  add_credits, add_debits, count_transaction, touch, transfer_writes, state_add_account,
  state_make_transfer, state_update_account,
}
use let_dx.Ledger.{
  Balance, balance_of, map_balances, view, send, receive, with_flags, apply_payload,
}

-- Writes that commute, one by one, commute on the list.
modify-modify {ℓ} :
    {A : Type ℓ} (xs : List A) (i j : ℕ) (f g : A → A)
    → ((a : A) → f (g a) ≡ g (f a))
    → modify (modify xs i f) j g ≡ modify (modify xs j g) i f
modify-modify [] i j f g h = refl
modify-modify (x ∷ xs) zero zero f g h = ap (λ t. t ∷ xs) (sym (h x))
modify-modify (x ∷ xs) zero (suc j) f g h = refl
modify-modify (x ∷ xs) (suc i) zero f g h = refl
modify-modify (x ∷ xs) (suc i) (suc j) f g h = ap (λ t. x ∷ t) (modify-modify xs i j f g h)

-- Two writes to one account are one.
modify-fuse {ℓ} :
    {A : Type ℓ} (xs : List A) (i : ℕ) (f g : A → A)
    → modify (modify xs i f) i g ≡ modify xs i (λ a. g (f a))
modify-fuse [] i f g = refl
modify-fuse (x ∷ xs) zero f g = refl
modify-fuse (x ∷ xs) (suc i) f g = ap (λ t. x ∷ t) (modify-fuse xs i f g)

-- A write, seen through the balances.
map_balances-modify :
    (cells : List Account) (i : ℕ) (f : Account → Account) (g : Balance → Balance)
    → ((a : Account) → balance_of (f a) ≡ g (balance_of a))
    → map_balances (modify cells i f) ≡ modify (map_balances cells) i g
map_balances-modify [] i f g h = refl
map_balances-modify (a ∷ cells) zero f g h = ap (λ t. t ∷ map_balances cells) (h a)
map_balances-modify (a ∷ cells) (suc i) f g h =
    ap (λ t. balance_of a ∷ t) (map_balances-modify cells i f g h)

map_balances-append :
    (cells more : List Account)
    → map_balances (cells ++ more) ≡ map_balances cells ++ map_balances more
map_balances-append [] more = refl
map_balances-append (a ∷ cells) more = ap (λ t. balance_of a ∷ t) (map_balances-append cells more)

pub length-map_balances : (cells : List Account) → length (map_balances cells) ≡ length cells
length-map_balances [] = refl
length-map_balances (a ∷ cells) = ap suc (length-map_balances cells)

module _ (now from to amount : ℕ) (cells : List Account) where
  abbrev sender_write : Account → Account
  sender_write a = touch now (count_transaction (add_credits amount a))

  abbrev recipient_write : Account → Account
  recipient_write a = touch now (count_transaction (add_debits amount a))

  abbrev credited : List Account
  credited = modify cells from (add_credits amount)

  abbrev counted : List Account
  counted = modify cells from (λ a. count_transaction (add_credits amount a))

  -- The six writes in their order are two: the sender's, and the recipient's.
  transfer_writes-two :
      transfer_writes now from to amount cells
      ≡ modify (modify cells from sender_write) to recipient_write
  unfolding transfer_writes
  transfer_writes-two =
      let debited : Account → Account = λ a. count_transaction (add_debits amount a) in
      ap (λ t. modify (modify (modify t to count_transaction) from (touch now)) to (touch now))
        (modify-modify credited to from (add_debits amount) count_transaction (λ a. refl)
          ∙ ap (λ t. modify t to (add_debits amount))
              (modify-fuse cells from (add_credits amount) count_transaction))
      ∙ ap (λ t. modify (modify t from (touch now)) to (touch now))
          (modify-fuse counted to (add_debits amount) count_transaction)
      ∙ ap (λ t. modify t to (touch now))
          (modify-modify counted to from debited (touch now) (λ a. refl)
            ∙ ap (λ t. modify t to debited)
                (modify-fuse cells from (λ a. count_transaction (add_credits amount a))
                  (touch now)))
      ∙ modify-fuse (modify cells from sender_write) to debited (touch now)

  pub map_balances-transfer :
      map_balances (transfer_writes now from to amount cells)
      ≡ modify (modify (map_balances cells) from (send amount)) to (receive amount)
  map_balances-transfer =
      ap map_balances transfer_writes-two
      ∙ map_balances-modify (modify cells from sender_write) to recipient_write (receive amount)
          (λ a. refl)
      ∙ ap (λ v. modify v to (receive amount))
          (map_balances-modify cells from sender_write (send amount) (λ a. refl))

-- In a valid list, an operation that succeeds does to the balances what its entry does in the
-- ledger, and keeps the list valid.
pub state_add_account-view :
    (alloc : ℕ → Bool) (l : AccountList) (id : ℕ) (l' : AccountList)
    (credits debits timestamp flags : ℕ)
    → IsValid l
    → (credits < 2 ^ 128) × (debits < 2 ^ 128)
    → state_add_account alloc l (account_new credits debits timestamp flags) ≡ ok (id, l')
    → (view l' ≡ apply_payload timestamp (add_account credits debits flags) (view l))
      × IsValid l'
      × (id ≡ l.length)
unfolding state_add_account account_new apply_payload
state_add_account-view alloc l id l' credits debits timestamp flags v fits h =
    let a = account_new credits debits timestamp flags in
    let (l1, e, same) = >>=-eq-ok (account_list_add alloc l a) (λ m. ok (l.length, m)) h in
    let same_list : l1 ≡ l' = cc same in
    let added : account_list_add alloc l a ≡ ok l' = e ∙ ap ok same_list in
    (
      ap map_balances (account_list_add_appends alloc l a l' v added).0
          ∙ map_balances-append l.accounts (a ∷ []),
      account_list_add-IsValid alloc l a l' v (omega arith) added,
      sym (cc same),
    )

pub state_make_transfer-view :
    (clock : Option ℕ) (l : AccountList) (from to amount : ℕ) (l' : AccountList) (timestamp : ℕ)
    → state_make_transfer clock l from to amount ≡ ok l'
    → view l' ≡ apply_payload timestamp (make_transfer from to amount) (view l)
unfolding state_make_transfer apply_payload
state_make_transfer-view none l from to amount l' timestamp h = cc
state_make_transfer-view (some now) l from to amount l' timestamp h =
    let e : l' ≡ record l { accounts = transfer_writes now from to amount l.accounts } =
      ground arith in
    rw e (map_balances-transfer now from to amount l.accounts)

pub state_update_account-view :
    (l : AccountList) (id flags : ℕ) (l' : AccountList) (timestamp : ℕ)
    → IsValid l
    → state_update_account l id flags ≡ ok l'
    → (view l' ≡ apply_payload timestamp (update_account id flags) (view l)) × IsValid l'
unfolding state_update_account account_list_update apply_payload
state_update_account-view l id flags l' timestamp v h =
    let e : l' ≡ record l { accounts = modify l.accounts id (set_flags flags) } = ground arith in
    rw e (
      map_balances-modify l.accounts id (set_flags flags) (with_flags flags) (λ a. refl),
      record {
        counted = omega (arith, length-modify l.accounts id (set_flags flags));
        within = v.within;
        room = v.room;
        fits = v.fits;
        in_range = All-modify l.accounts id (set_flags flags) (λ a r. omega arith) v.in_range;
      },
    )
