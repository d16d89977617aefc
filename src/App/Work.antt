-- ===== src/App/Work.antt =====
-- What `let_request` does to the account list, behind the write of the entry.
use let_dx.Base.{
  ℕ, ◌+◌, ◌^◌, ◌≤◌, ◌<◌, ◌≡◌, inl, inr, refl, Bool, Option, none, some, List, [], ◌∷◌, length,
  length-append, length-modify, arith, lt→ltb, modify, ◌≢◌, true, ◌*◌, ◌%◌,
}
use let_dx.Error.{state, account, invalid_time, out_of_memory}
use let_dx.Error.Report.{error_report}
use let_dx.Result.{ok, ◌>>=◌}
use let_dx.Account.{
  sizeof_account, AccountList, IsValid, account_new, account_list_update, set_flags,
}
use let_dx.Account.Laws.{account_list_add-total}
use let_dx.Guard.{guard_make_transfer}
use let_dx.Network.Response.{Response}
use let_dx.State.{state_add_account, state_make_transfer, state_update_account}
use let_dx.State.Transfer.{state_make_transfer-IsValid, state_make_transfer_lem}
use let_dx.Storage.Wal.{Entry, EntryData, entry_new}
use let_dx.Ledger.{
  opening, send, receive, with_flags, Balance, apply_log, apply_entry, apply_payload,
}
use let_dx.Ledger.Refines.{
  state_add_account-view, state_make_transfer-view, state_update_account-view,
}
use let_dx.App.Durable.{Carried, done, dies}

-- An entry adds at most one account.
length-apply_payload :
    (now : ℕ) (p : EntryData) (v : List Balance) → length (apply_payload now p v) ≤ length v + 1
unfolding apply_payload
length-apply_payload now (EntryData.add_account c d f) v =
    omega (arith, length-append v (opening c d now f ∷ []))
length-apply_payload now (EntryData.make_transfer s r a) v =
    omega (arith, length-modify v s (send a), length-modify (modify v s (send a)) r (receive a))
length-apply_payload now (EntryData.update_account i f) v =
    omega (arith, length-modify v i (with_flags f))

pub length-apply_log :
    (log : List Entry) (v : List Balance) → length (apply_log log v) ≤ length v + length log
unfolding apply_log
length-apply_log [] v = omega arith
length-apply_log (e ∷ log) v =
    omega
      (arith, length-apply_log log (apply_entry e v), length-apply_payload e.timestamp e.payload v)

pub add_account-Carried :
    (works : Type 0) (alloc : ℕ → Bool) (l : AccountList) (wal_id now credits debits flags : ℕ)
    → (works → (size : ℕ) → alloc size ≡ true)
    → IsValid l
    → l.length < 2 ^ 63
    → (credits < 2 ^ 128) × (debits < 2 ^ 128)
    → Carried
        (entry_new wal_id now (EntryData.add_account credits debits flags))
        l
        (Response.add_account l.length)
        works
        (do
          (account_id, l') ← state_add_account alloc l (account_new credits debits now flags)
          ok (l', Response.add_account account_id))
unfolding entry_new state_add_account
add_account-Carried works alloc l wal_id now credits debits flags memory v small fits =
    let a = account_new credits debits now flags in
    elim (account_list_add-total alloc l a v) [
      | inl (l', added) ↦
          let (seen, valid, same) =
            state_add_account-view alloc l l.length l' credits debits now flags v fits
              (rw (state_add_account, added) refl) in
          done l' (rw added refl) valid seen
      | inr (x, h, (full, inl (over, big))) ↦ absurd (omega arith)
      | inr (x, h, (full, inr (no_memory, refused))) ↦
          dies (account out_of_memory) (unfold error_report in refl) (rw (h, no_memory) refl)
            (λ all. cc (memory all (sizeof_account * (l.capacity * 2) % 2 ^ 64), refused))
    ]

pub make_transfer-Carried :
    (works : Type 0) (clock : Option ℕ) (l : AccountList) (wal_id now from to amount : ℕ)
    → (works → clock ≢ none)
    → IsValid l
    → guard_make_transfer l from to amount ≡ ok tt
    → Carried
        (entry_new wal_id now (EntryData.make_transfer from to amount))
        l
        Response.ok
        works
        (do l' ← state_make_transfer clock l from to amount; ok (l', Response.ok))
unfolding entry_new
make_transfer-Carried works none l wal_id now from to amount read v allowed =
    dies (state invalid_time) (unfold error_report in refl) (unfold state_make_transfer in refl)
      (λ all. read all refl)
make_transfer-Carried works (some t) l wal_id now from to amount read v allowed =
    let (l', moved, how) = state_make_transfer_lem t l from to amount v allowed in
    let (valid, same) = state_make_transfer-IsValid (some t) l from to amount l' v moved in
    done l' (rw moved refl) valid (state_make_transfer-view (some t) l from to amount l' now moved)

pub update_account-Carried :
    (works : Type 0) (l : AccountList) (wal_id now id flags : ℕ)
    → IsValid l
    → id < length l.accounts
    → Carried
        (entry_new wal_id now (EntryData.update_account id flags))
        l
        Response.ok
        works
        (do l' ← state_update_account l id flags; ok (l', Response.ok))
unfolding entry_new
update_account-Carried works l wal_id now id flags v inside =
    let (l', moved) : (l' : AccountList) × (state_update_account l id flags ≡ ok l') =
      unfold state_update_account account_list_update in
      (
        record l { accounts = modify l.accounts id (set_flags flags) },
        rw (lt→ltb id (length l.accounts) inside) refl,
      ) in
    let (seen, valid) = state_update_account-view l id flags l' now v moved in
    done l' (rw moved refl) valid seen
