-- ===== src/App/Handling.antt =====
-- `let_request`, case by case.
use let_dx.Base.{
  ℕ, ◌^◌, ◌<◌, ◌≡◌, ◌⊎◌, inl, inr, refl, ap, Option, none, some, List, [], length,
  get_elem?-some_lt, arith, ◌≢◌, ◌≤◌, true, sym, ◌∙◌,
}
use let_dx.Error.{Error, state, account, invalid_time, not_found}
use let_dx.Error.Report.{reject, error_report}
use let_dx.Result.{ok, err, in_bounds, Result-cases}
use let_dx.Account.{Account, AccountList, account_list_get}
use let_dx.Account.Laws.{lookup_below}
use let_dx.Guard.{
  guard_make_transfer, guard_accounts, guard_balance, guard_transactions, guard_update_account,
}
use let_dx.Guard.Laws.{guard_make_transfer_iff, guard_make_transfer-ne-stuck}
use let_dx.Network.Request.{Request, RequestFits}
use let_dx.Network.Response.{Response}
use let_dx.Storage.Wal.{Entry, EntryData, EntryFits, PayloadFits, entry_new}
use let_dx.Ledger.{view, InLedger}
use let_dx.Storage.Wal.Write.{WriteWorks}
use let_dx.Ledger.Books.{enter, serve, answer_account, transfer_refusal, update_refusal}
use let_dx.Ledger.Books.Refusals.{
  verdict, cell-cases, get_elem?-map_balances, guard_make_transfer-verdict,
  guard_update_account-verdict,
}
use let_dx.Ledger.Refines.{length-map_balances}
use let_dx.App.{
  Let, RequestDevice, request_add_account, request_make_transfer, request_update_account,
  request_get_account, request_run, request_timed, let_request,
}
use let_dx.App.Durable.{books, IsDurable, Handled, answered, rejected, died, entry_of, logs}
use let_dx.App.Work.{
  length-apply_log, add_account-Carried, make_transfer-Carried, update_account-Carried,
}

guard_accounts-rejects :
    (sender recipient : Account) (amount : ℕ) (x : Error)
    → guard_accounts sender recipient amount ≡ err x
    → (error_report x).action ≡ reject
unfolding guard_accounts guard_balance guard_transactions error_report
guard_accounts-rejects sender recipient amount x h = ground arith

guard_make_transfer-rejects :
    (l : AccountList) (from to amount : ℕ) (x : Error)
    → guard_make_transfer l from to amount ≡ err x
    → (error_report x).action ≡ reject
unfolding guard_make_transfer error_report
guard_make_transfer-rejects l from to amount x h = grind (arith, guard_accounts-rejects)

guard_update_account-cases :
    (l : AccountList) (id : ℕ)
    → (guard_update_account l id ≡ ok tt) × (id < l.length)
      ⊎ (guard_update_account l id ≡ err (account not_found))
unfolding guard_update_account
guard_update_account-cases l id = ground arith

account_list_get-missing :
    (l : AccountList) (id : ℕ) → l.length ≤ id → account_list_get l id ≡ err (account not_found)
unfolding account_list_get
account_list_get-missing l id h = ground arith

fits_new :
    (wal_id now : ℕ) (p : EntryData)
    → wal_id < 2 ^ 64
    → now < 2 ^ 64
    → PayloadFits p
    → EntryFits (entry_new wal_id now p)
unfolding entry_new
fits_new wal_id now p hw hn hp = record { id_fits = hw; timestamp_fits = hn; payload_fits = hp }

abbrev pub TimeFits : Option ℕ → Type 0
TimeFits none = Unit
TimeFits (some now) = now < 2 ^ 64

-- The reading of a clock, and 0 where there is none.
abbrev pub reading : Option ℕ → ℕ
reading none = 0
reading (some now) = now

-- The system fails nowhere while a request is handled.
pub record IsReliable (dev : RequestDevice) : Type 0 where
  pub clock : dev.time_now ≢ none
  pub transfer_clock : dev.state_time ≢ none
  pub memory : (size : ℕ) → dev.alloc size ≡ true
  pub write : WriteWorks dev.write

module _ (dev : RequestDevice) (db : Let) (log : List Entry) (now : ℕ) (h : IsDurable log db)
    (small : length log < 2 ^ 63) (time : now < 2 ^ 64) where
  accounts_lt : db.account_list.length < 2 ^ 63
  accounts_lt = omega (
    arith,
    h.valid.counted,
    length-map_balances db.account_list.accounts,
    ap length h.same_view,
    length-apply_log log [],
  )

  ids : db.account_list.length ≡ length (view db.account_list)
  ids = omega (arith, h.valid.counted, length-map_balances db.account_list.accounts)

  handles_add_account :
      (wal_id credits debits flags : ℕ)
      → RequestFits (Request.add_account wal_id credits debits flags)
      → Handled log db now
          (Request.add_account wal_id credits debits flags)
          (IsReliable dev)
          (request_add_account dev db now wal_id credits debits flags)
  unfolding request_add_account entry_new entry_of serve
  handles_add_account wal_id c d f (fw, fc, fd, ff) =
      logs log db now (Request.add_account wal_id c d f)
        (entry_new wal_id now (EntryData.add_account c d f))
        (Response.add_account db.account_list.length) (IsReliable dev) h small refl
        (fits_new wal_id now (EntryData.add_account c d f) fw time (fc, fd, ff)) tt
        (ap
          (λ (n : ℕ).
            enter none now wal_id (EntryData.add_account c d f) (Response.add_account n) (books db))
          (sym ids))
        dev.write _ (λ all. all.write)
        (add_account-Carried (IsReliable dev) dev.alloc db.account_list wal_id now c d f
          (λ all. all.memory) h.valid accounts_lt (fc, fd))

  refused_lem :
      (refusal : Option Error) (x : Error) (at wal_id : ℕ) (change : EntryData)
      (response : Response)
      → verdict refusal ≡ err x
      → enter refusal at wal_id change response (books db) ≡ (err x, books db)
  unfolding enter
  refused_lem none x at wal_id change response e = cc
  refused_lem (some y) x at wal_id change response e = cc (e)

  allowed_lem :
      (refusal : Option Error) (at wal_id : ℕ) (change : EntryData) (response : Response)
      → verdict refusal ≡ ok tt
      → enter refusal at wal_id change response (books db)
        ≡ enter none at wal_id change response (books db)
  allowed_lem none at wal_id change response e = refl
  allowed_lem (some y) at wal_id change response e = cc

  transfer_inside :
      (from to amount : ℕ)
      → guard_make_transfer db.account_list from to amount ≡ ok tt
      → InLedger (length (view db.account_list)) (EntryData.make_transfer from to amount)
  transfer_inside from to amount allowed =
      let a = (guard_make_transfer_iff db.account_list from to amount h.valid).0 allowed in
      (
        omega (
          arith,
          ids,
          h.valid.counted,
          get_elem?-some_lt db.account_list.accounts from a.sender_found,
        ),
        omega (
          arith,
          ids,
          h.valid.counted,
          get_elem?-some_lt db.account_list.accounts to a.recipient_found,
        ),
      )

  handles_make_transfer :
      (wal_id from to amount : ℕ)
      → RequestFits (Request.make_transfer wal_id from to amount)
      → Handled log db now
          (Request.make_transfer wal_id from to amount)
          (IsReliable dev)
          (request_make_transfer dev db now wal_id from to amount)
  unfolding request_make_transfer entry_new entry_of serve
  handles_make_transfer wal_id s r a (fw, fs, fr, fa) =
      elim (Result-cases (guard_make_transfer db.account_list s r a)) [
        | inr broken ↦ absurd (guard_make_transfer-ne-stuck db.account_list s r a h.valid broken)
        | inl (inr (x, refused)) ↦
            rw (request_make_transfer, refused)
              (rejected x (guard_make_transfer-rejects db.account_list s r a x refused) refl (
                refused_lem (transfer_refusal (view db.account_list) s r a) x now wal_id
                  (EntryData.make_transfer s r a) Response.ok
                  (sym (guard_make_transfer-verdict db.account_list s r a h.valid) ∙ refused)))
        | inl (inl (u, allowed)) ↦
            rw (request_make_transfer, allowed)
              (logs log db now (Request.make_transfer wal_id s r a)
                (entry_new wal_id now (EntryData.make_transfer s r a)) Response.ok (IsReliable dev)
                h small refl
                (fits_new wal_id now (EntryData.make_transfer s r a) fw time (fs, fr, fa))
                (transfer_inside s r a allowed)
                (allowed_lem (transfer_refusal (view db.account_list) s r a) now wal_id
                  (EntryData.make_transfer s r a) Response.ok
                  (sym (guard_make_transfer-verdict db.account_list s r a h.valid) ∙ allowed))
                dev.write _ (λ all. all.write)
                (make_transfer-Carried (IsReliable dev) dev.state_time db.account_list wal_id now s
                  r a (λ all. all.transfer_clock) h.valid allowed))
      ]

  handles_update_account :
      (wal_id id flags : ℕ)
      → RequestFits (Request.update_account wal_id id flags)
      → Handled log db now
          (Request.update_account wal_id id flags)
          (IsReliable dev)
          (request_update_account dev db now wal_id id flags)
  unfolding request_update_account entry_new entry_of serve
  handles_update_account wal_id i f (fw, fi, ff) =
      elim (guard_update_account-cases db.account_list i) [
        | inr refused ↦
            rw (request_update_account, refused)
              (rejected (account not_found) (unfold error_report in refl) refl (
                refused_lem (update_refusal (view db.account_list) i) (account not_found) now wal_id
                  (EntryData.update_account i f) Response.ok
                  (sym (guard_update_account-verdict db.account_list i h.valid) ∙ refused)))
        | inl (allowed, inside) ↦
            rw (request_update_account, allowed)
              (logs log db now (Request.update_account wal_id i f)
                (entry_new wal_id now (EntryData.update_account i f)) Response.ok (IsReliable dev) h
                small refl (fits_new wal_id now (EntryData.update_account i f) fw time (fi, ff))
                (omega (arith, ids))
                (allowed_lem (update_refusal (view db.account_list) i) now wal_id
                  (EntryData.update_account i f) Response.ok
                  (sym (guard_update_account-verdict db.account_list i h.valid) ∙ allowed))
                dev.write _ (λ all. all.write)
                (update_account-Carried (IsReliable dev) db.account_list wal_id now i f h.valid
                  (omega (arith, h.valid.counted))))
      ]

  handles_get_account :
      (id : ℕ)
      → Handled log db now (Request.get_account id) (IsReliable dev) (request_get_account db id, db)
  unfolding request_get_account entry_of serve answer_account
  handles_get_account id =
      let seen = get_elem?-map_balances db.account_list.accounts id in
      elim (cell-cases db.account_list id h.valid) [
        | inl (out, missing) ↦
            let absent = account_list_get-missing db.account_list id out in
            rw absent (
              rejected (account not_found) (unfold error_report in refl) refl
                (rw (seen, missing) refl))
        | inr (a, inside, found, fits) ↦
            let present = lookup_below db.account_list id inside ∙ ap in_bounds found in
            rw present (
              answered (Response.get_account a.credits a.debits a.flags) refl refl
                (rw (seen, found) refl))
      ]

  handles :
      (request : Request)
      → RequestFits request
      → Handled log db now request (IsReliable dev) (request_run dev db now request)
  unfolding request_run entry_of serve
  handles Request.magic fits = answered Response.magic refl refl refl
  handles (Request.add_account w c d f) fits = handles_add_account w c d f fits
  handles (Request.make_transfer w s r a) fits = handles_make_transfer w s r a fits
  handles (Request.get_account i) fits = handles_get_account i
  handles Request.count_database fits = answered _ refl refl (
      ap (λ (n : ℕ). (ok (Response.count_database n db.storage_wal.transactions), books db))
        (sym ids))
  handles (Request.update_account w i f) fits = handles_update_account w i f fits
  handles Request.close fits = answered Response.ok refl refl refl

timed :
    (dev : RequestDevice) (db : Let) (log : List Entry) (request : Request) (time : Option ℕ)
    → time ≡ dev.time_now
    → IsDurable log db
    → length log < 2 ^ 63
    → TimeFits time
    → RequestFits request
    → Handled log db (reading time) request (IsReliable dev) (request_timed dev db request time)
unfolding request_timed
timed dev db log request none same h small time fits =
    died (state invalid_time) db.storage_wal (unfold error_report in refl) refl
      (λ all. all.clock (sym same))
timed dev db log request (some now) same h small time fits =
    handles dev db log now h small time request fits

-- While the file is a log of less than 2 ^ 63 entries and the account list is what the log stands
-- for, a request whose values and whose time fit their fields has one of four outcomes: a query is
-- answered and nothing changes; the request is rejected and nothing changes; its entry, with the
-- position in the log as its id, is appended to the log, and the account list is what the longer log
-- stands for; or the error is fatal, the account list has not changed, and some call of the system has
-- failed. In the first three, the answer and the new books are those that `serve` gives for the
-- books.
pub let_request_outcome :
    (dev : RequestDevice) (db : Let) (log : List Entry) (request : Request)
    → IsDurable log db
    → length log < 2 ^ 63
    → TimeFits dev.time_now
    → RequestFits request
    → Handled log db (reading dev.time_now) request (IsReliable dev) (let_request dev db request)
let_request_outcome dev db log request h small time fits =
    timed dev db log request dev.time_now refl h small time fits
