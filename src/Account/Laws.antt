-- ===== src/Account/Laws.antt =====
-- The account list: every operation keeps it valid, and what a lookup returns afterwards.
use let_dx.Base.{
  ℕ, zero, suc, ◌+◌, ◌*◌, ◌%◌, ◌^◌, ◌≤◌, ◌<◌, ◌≡◌, ◌⊎◌, inl, inr, Bool, some, false, Bool-cases,
  get_elem?-lt, ap, sym, ◌∙◌, List, [], ◌∷◌, ◌++◌, length, get_elem?, modify, All, All-append, leb,
  arith, length-append, get_elem?-append_left, get_elem?-append_length,
}
use let_dx.Error.{Error, account, out_of_memory, capacity_overflow}
use let_dx.Result.{ok, err, in_bounds}
use let_dx.Account.{
  Account, AccountList, grow, sizeof_account, account_list_new, put_cell, push, account_list_add,
  account_list_get, InRange, IsValid,
}

pub put_cell-length :
    (cells : List Account) (a : Account) → put_cell cells (length cells) a ≡ cells ++ (a ∷ [])
unfolding put_cell
put_cell-length cells a = ground arith

pub All-modify :
    (cells : List Account) (i : ℕ) (f : Account → Account)
    → ((a : Account) → InRange a → InRange (f a))
    → All InRange cells
    → All InRange (modify cells i f)
All-modify [] i f keep h = h
All-modify (a ∷ cells) zero f keep (ha, h) = (keep a ha, h)
All-modify (a ∷ cells) (suc i) f keep (ha, h) = (ha, All-modify cells i f keep h)

pub account_list_new-IsValid :
    (granted : Bool) (alloc : ℕ → Bool) (l : AccountList)
    → account_list_new granted alloc ≡ some l
    → IsValid l
unfolding account_list_new
account_list_new-IsValid granted alloc l h = ground arith

push-IsValid :
    (l : AccountList) (a : Account)
    → IsValid l
    → l.length < l.capacity
    → InRange a
    → IsValid (push l a)
unfolding push
push-IsValid l a v h r =
    let cells : put_cell l.accounts l.length a ≡ l.accounts ++ (a ∷ []) =
      rw v.counted (put_cell-length l.accounts a) in
    record {
      counted = rw cells (omega (arith, length-append l.accounts (a ∷ [])));
      within = omega arith;
      room = v.room;
      fits = v.fits;
      in_range = rw cells (All-append InRange l.accounts (a ∷ []) v.in_range (r, tt));
    }

-- A list in use doubles when it is full, and otherwise keeps its array.
account_list_add-cases :
    (alloc : ℕ → Bool) (l : AccountList) (a : Account) (l' : AccountList)
    → account_list_add alloc l a ≡ ok l'
    → (l.length < l.capacity) × (l' ≡ push l a)
      ⊎ (l.capacity ≤ l.length) × (l.capacity * 2 < 2 ^ 64) × (l' ≡ push (grow l) a)
unfolding account_list_add
account_list_add-cases alloc l a l' h = ground arith

grow-IsValid : (l : AccountList) → IsValid l → l.capacity * 2 < 2 ^ 64 → IsValid (grow l)
grow-IsValid l v h = record {
  counted = v.counted;
  within = omega arith;
  room = omega arith;
  fits = h;
  in_range = v.in_range;
}

pub account_list_add-IsValid :
    (alloc : ℕ → Bool) (l : AccountList) (a : Account) (l' : AccountList)
    → IsValid l
    → InRange a
    → account_list_add alloc l a ≡ ok l'
    → IsValid l'
account_list_add-IsValid alloc l a l' v r h = elim (account_list_add-cases alloc l a l' h) [
  | inl (free, e) ↦ rw e (push-IsValid l a v free r)
  | inr (full, fits, e) ↦ rw e (push-IsValid (grow l) a (grow-IsValid l v fits) (omega arith) r)
]

pub push_appends :
    (l : AccountList) (a : Account)
    → IsValid l
    → l.length < l.capacity
    → (((push l a).accounts ≡ l.accounts ++ (a ∷ [])) × ((push l a).length ≡ l.length + 1))
unfolding push
push_appends l a v h = (rw v.counted (put_cell-length l.accounts a), omega arith)

-- What adding does to the stored accounts.
pub account_list_add_appends :
    (alloc : ℕ → Bool) (l : AccountList) (a : Account) (l' : AccountList)
    → IsValid l
    → account_list_add alloc l a ≡ ok l'
    → (l'.accounts ≡ l.accounts ++ (a ∷ [])) × (l'.length ≡ l.length + 1)
account_list_add_appends alloc l a l' v h = elim (account_list_add-cases alloc l a l' h) [
  | inl (free, e) ↦ rw e (push_appends l a v free)
  | inr (full, fits, e) ↦ rw e (push_appends (grow l) a (grow-IsValid l v fits) (omega arith))
]

pub lookup_below :
    (l : AccountList) (id : ℕ)
    → id < l.length
    → account_list_get l id ≡ in_bounds (get_elem? l.accounts id)
unfolding account_list_get
lookup_below l id h = ground arith

-- Looking up never reads outside the array of a valid list.
pub account_list_get_total :
    (l : AccountList) (id : ℕ)
    → IsValid l
    → id < l.length
    → (a : Account) × (account_list_get l id ≡ ok a) × (get_elem? l.accounts id ≡ some a)
account_list_get_total l id v h =
    let (a, e) = get_elem?-lt l.accounts id (omega arith) in
    (a, lookup_below l id h ∙ ap in_bounds e, e)

lookup_appended :
    (l l' : AccountList) (a : Account)
    → IsValid l
    → l'.accounts ≡ l.accounts ++ (a ∷ [])
    → l'.length ≡ l.length + 1
    → (account_list_get l' l.length ≡ ok a)
      × ((id : ℕ) → id < l.length → account_list_get l' id ≡ account_list_get l id)
lookup_appended l l' a v cells grown =
    let at_end : get_elem? l'.accounts l.length ≡ some a =
      rw (cells, v.counted) (get_elem?-append_length l.accounts [] a) in
    let below : (id : ℕ) → id < l.length → get_elem? l'.accounts id ≡ get_elem? l.accounts id =
      λ id h. rw cells (get_elem?-append_left l.accounts (a ∷ []) id (omega arith)) in
    (
      lookup_below l' l.length (omega arith) ∙ ap in_bounds at_end,
      λ id h.
          lookup_below l' id (omega arith) ∙ ap in_bounds (below id h) ∙ sym (lookup_below l id h),
    )

-- Why adding to a valid list can fail.
abbrev pub AddFails : (ℕ → Bool) → AccountList → Error → Type 0
AddFails alloc l e =
    (l.length ≡ l.capacity)
    × ((e ≡ account capacity_overflow) × (2 ^ 63 ≤ l.capacity)
        ⊎ (e ≡ account out_of_memory)
          × (alloc (sizeof_account * (l.capacity * 2) % 2 ^ 64) ≡ false))

pub account_list_add-total :
    (alloc : ℕ → Bool) (l : AccountList) (a : Account)
    → IsValid l
    → ((l' : AccountList) × (account_list_add alloc l a ≡ ok l'))
      ⊎ ((e : Error) × (account_list_add alloc l a ≡ err e) × AddFails alloc l e)
unfolding account_list_add
account_list_add-total alloc l a v = elim (Bool-cases (leb l.capacity l.length)) [
  | inr free ↦ inl (push l a, rw free)
  | inl full ↦ elim (Bool-cases (leb (2 ^ 64) (l.capacity * 2))) [
    | inl over ↦ inr (account capacity_overflow, rw (full, over), ground arith)
    | inr fits ↦ elim (Bool-cases (alloc (sizeof_account * (l.capacity * 2) % 2 ^ 64))) [
      | inl granted ↦ inl (push (grow l) a, rw (full, fits, granted))
      | inr refused ↦ inr (account out_of_memory, rw (full, fits, refused), ground arith)
    ]
  ]
]

-- In a valid list, adding an account either succeeds, and then a lookup of the old length returns
-- that account and a lookup of any smaller id returns what it returned before; or it fails, and
-- then the list is full and either the doubled capacity overflows or the memory is refused.
pub account_list_get-add :
    (alloc : ℕ → Bool) (l : AccountList) (a : Account)
    → IsValid l
    → ((l' : AccountList) × (account_list_add alloc l a ≡ ok l')
        × (account_list_get l' l.length ≡ ok a)
        × ((id : ℕ) → id < l.length → account_list_get l' id ≡ account_list_get l id))
      ⊎ ((e : Error) × (account_list_add alloc l a ≡ err e) × AddFails alloc l e)
account_list_get-add alloc l a v = elim (account_list_add-total alloc l a v) [
  | inl (l', h) ↦
      let (cells, grown) = account_list_add_appends alloc l a l' v h in
      let (at_end, below) = lookup_appended l l' a v cells grown in inl (l', h, at_end, below)
  | inr failed ↦ inr failed
]
