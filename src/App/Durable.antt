-- ===== src/App/Durable.antt =====
-- What a request leaves in memory and in the log.
use let_dx.Base.{
  ℕ, ◌^◌, ◌<◌, ◌≡◌, refl, sym, ap, ◌∙◌, subst, Option, none, some, List, [], ◌∷◌, ◌++◌, length,
  length-append, arith, All, All-append, ◌+◌, ◌%◌, ◌≢◌, ◌==◌, ==_iff, ne→==_false, Bool-cases, inl,
  inr,
}
use let_dx.Error.{Error, storage, wal_nonce_mismatch}
use let_dx.Error.Report.{reject, fatal, error_report}
use let_dx.Result.{Result, ok, err}
use let_dx.Account.{AccountList, IsValid}
use let_dx.Network.Request.{Request}
use let_dx.Network.Response.{Response}
use let_dx.Storage.Wal.{Entry, EntryData, EntryFits, entry_new, safe_bytes}
use let_dx.Storage.Wal.File.{Wal}
use let_dx.Storage.Wal.Write.{
  AtEnd, WriteDevice, wal_write, wal_write_outcome, Written, refused, stored, failed, appended,
  WriteWorks, wal_write-works,
}
use let_dx.Storage.Wal.Log.{log_file}
use let_dx.Storage.Wal.Crash.{log_file-append}
use let_dx.Ledger.{Balance, view, apply_log, apply_entry, InLedger, IsReplayable}
use let_dx.Ledger.Books.{Books, enter, serve}
use let_dx.App.{Let, after_write}

-- The file is the log, and the account list is what the log stands for.
pub record IsDurable (log : List Entry) (db : Let) : Type 0 where
  pub valid : IsValid db.account_list
  pub file : db.storage_wal.bytes ≡ log_file log
  pub at_end : AtEnd db.storage_wal
  pub counted : db.storage_wal.transactions ≡ length log
  pub fits : All EntryFits log
  pub replayable : IsReplayable log []
  pub same_view : view db.account_list ≡ apply_log log []

-- The entry that a request asks for.
unfoldable pub entry_of : ℕ → Request → Option Entry
entry_of now (Request.add_account wal_id c d f) =
    some (entry_new wal_id now (EntryData.add_account c d f))
entry_of now (Request.make_transfer wal_id s r a) =
    some (entry_new wal_id now (EntryData.make_transfer s r a))
entry_of now (Request.update_account wal_id i f) =
    some (entry_new wal_id now (EntryData.update_account i f))
entry_of now _ = none

-- The books that a database keeps.
abbrev pub books : Let → Books
books db = record { balances = view db.account_list; entries = db.storage_wal.transactions }

-- What handling a request can come to, where `works` says that the system fails nowhere.
pub data Handled (log : List Entry) (db : Let) (now : ℕ) (request : Request) (works : Type 0)
    (r : Result Response × Let) : Type 0 where
  -- a query, or a request that is refused: nothing changes, and the books say the same
  answered :
      (response : Response)
      → entry_of now request ≡ none
      → r ≡ (ok response, db)
      → serve now request (books db) ≡ (ok response, books db)
      → Handled log db now request works r
  rejected :
      (x : Error)
      → (error_report x).action ≡ reject
      → r ≡ (err x, db)
      → serve now request (books db) ≡ (err x, books db)
      → Handled log db now request works r
  -- the entry of the request is in the log and in the account list; its id is its position
  logged :
      (response : Response) (e : Entry) (db' : Let)
      → entry_of now request ≡ some e
      → e.id ≡ length log
      → r ≡ (ok response, db')
      → IsDurable (log ++ (e ∷ [])) db'
      → serve now request (books db) ≡ (ok response, books db')
      → Handled log db now request works r
  -- the program ends, which it does not where the system works
  died :
      (x : Error) (w : Wal)
      → (error_report x).action ≡ fatal
      → r ≡ (err x, record db { storage_wal = w })
      → ¬ works
      → Handled log db now request works r

apply_log-append :
    (log : List Entry) (e : Entry) (v : List Balance)
    → apply_log (log ++ (e ∷ [])) v ≡ apply_entry e (apply_log log v)
unfolding apply_log
apply_log-append [] e v = refl
apply_log-append (x ∷ log) e v = apply_log-append log e (apply_entry x v)

IsReplayable-append :
    (log : List Entry) (e : Entry) (v : List Balance)
    → IsReplayable log v
    → InLedger (length (apply_log log v)) e.payload
    → IsReplayable (log ++ (e ∷ [])) v
unfolding apply_log
IsReplayable-append [] e v h k = (k, tt)
IsReplayable-append (x ∷ log) e v (hx, h) k = (hx, IsReplayable-append log e (apply_entry x v) h k)

-- The work in memory that belongs to an entry: it does what the entry stands for, or the program
-- ends.
pub data Carried (e : Entry) (l : AccountList) (response : Response) (works : Type 0)
    (work : Result (AccountList × Response)) : Type 0 where
  done :
      (l' : AccountList)
      → work ≡ ok (l', response)
      → IsValid l'
      → view l' ≡ apply_entry e (view l)
      → Carried e l response works work
  dies :
      (x : Error)
      → (error_report x).action ≡ fatal
      → work ≡ err x
      → ¬ works
      → Carried e l response works work

-- A log that is extended by the entry of a request.
extends :
    (log : List Entry) (db : Let) (e : Entry) (l' : AccountList)
    → IsDurable log db
    → length log < 2 ^ 63
    → EntryFits e
    → InLedger (length (view db.account_list)) e.payload
    → IsValid l'
    → view l' ≡ apply_entry e (view db.account_list)
    → IsDurable
        (log ++ (e ∷ []))
        (record { account_list = l'; storage_wal = appended db.storage_wal e })
extends log db e l' h small fits inside v seen = record {
  valid = v;
  file = ap (λ t. t ++ safe_bytes e) h.file ∙ log_file-append log e;
  at_end = omega (arith, length-append db.storage_wal.bytes (safe_bytes e), h.at_end);
  counted = omega (arith, length-append log (e ∷ []), h.counted);
  fits = All-append EntryFits log (e ∷ []) h.fits (fits, tt);
  replayable =
      IsReplayable-append log e [] h.replayable
        (subst (λ v. InLedger (length v) e.payload) h.same_view inside);
  same_view = seen ∙ ap (apply_entry e) h.same_view ∙ sym (apply_log-append log e []);
}

module _ (log : List Entry) (db : Let) (now : ℕ) (request : Request) (e : Entry)
    (response : Response) (works : Type 0) (h : IsDurable log db) (small : length log < 2 ^ 63)
    (asked : entry_of now request ≡ some e) (fits : EntryFits e)
    (inside : InLedger (length (view db.account_list)) e.payload)
    (spec : serve now request (books db)
      ≡ enter none e.timestamp e.id e.payload response (books db)) where
  entered :
      (l' : AccountList)
      → e.id ≡ db.storage_wal.transactions
      → view l' ≡ apply_entry e (view db.account_list)
      → enter none e.timestamp e.id e.payload response (books db) ≡ (
        ok response,
        books (record { account_list = l'; storage_wal = appended db.storage_wal e }),
      )
  unfolding enter
  entered l' next seen =
      let counts : (db.storage_wal.transactions + 1) % 2 ^ 64 ≡ db.storage_wal.transactions + 1 =
        omega (arith, h.counted) in
      rw ((==_iff e.id db.storage_wal.transactions).1 next) (rw (seen, counts) refl)

  other_number :
      e.id ≢ db.storage_wal.transactions
      → enter none e.timestamp e.id e.payload response (books db)
        ≡ (err (storage wal_nonce_mismatch), books db)
  unfolding enter
  other_number other = rw (ne→==_false e.id db.storage_wal.transactions other) refl

  written :
      (work : Result (AccountList × Response)) (r : Result (Unit {0}) × Wal)
      → Carried e db.account_list response works work
      → ((x : Error) → (error_report x).action ≡ fatal → r.0 ≡ err x → ¬ works)
      → Written db.storage_wal e r
      → Handled log db now request works (after_write db.account_list work r)
  unfolding after_write
  written work r k broken (refused other same) = rw same (
      rejected (storage wal_nonce_mismatch) (unfold error_report in refl) refl
        (spec ∙ other_number other))
  written work r k broken (failed n x act same) =
      rw same (died x _ act refl (broken x act (ap (λ r. r.0) same)))
  written work r (done l' worked v seen) broken (stored next same) =
      rw (same, worked)
        (logged response e _ asked (next ∙ h.counted) refl
          (extends log db e l' h small fits inside v seen) (spec ∙ entered l' next seen))
  written work r (dies x act worked fails) broken (stored next same) =
      rw (same, worked) (died x _ act refl fails)

  unfatal :
      (dev : WriteDevice)
      → WriteWorks dev
      → (x : Error) → (error_report x).action ≡ fatal
      → ¬ ((wal_write dev db.storage_wal e).0 ≡ err x)
  unfatal dev write x act =
      let mismatch : (error_report (storage wal_nonce_mismatch)).action ≡ reject =
        unfold error_report in refl in
      rw (wal_write-works dev db.storage_wal e h.at_end write)
        (elim (Bool-cases (e.id == db.storage_wal.transactions)) [
          | inl next ↦ rw next (λ same. cc)
          | inr other ↦ rw other (λ same. cc (act, mismatch, same))
        ])

  pub logs :
      (dev : WriteDevice) (work : Result (AccountList × Response))
      → (works → WriteWorks dev)
      → Carried e db.account_list response works work
      → Handled log db now request works
          (after_write db.account_list work (wal_write dev db.storage_wal e))
  logs dev work write k =
      written work (wal_write dev db.storage_wal e) k
        (λ x act same all. unfatal dev (write all) x act same)
        (wal_write_outcome dev db.storage_wal e h.at_end)
