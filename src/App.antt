-- ===== src/App.antt =====
-- LetDB/src/let.c: how a request is answered from the account list and the log. `let_t` is a record
-- of the parts that a request reaches: the state and the guard share the account list, and the log
-- brings the file behind its descriptor.
pub mod Durable
pub mod Work
pub mod Handling
pub mod Restart
pub mod Refines
pub mod Once
pub mod Machine
pub mod Start
pub mod Tests
use let_dx.Base.{ℕ, Bool, Option, none, some, List}
use let_dx.Error.{state, invalid_time}
use let_dx.Result.{Result, ok, err, stuck, ◌>>=◌}
use let_dx.Account.{Account, AccountList, account_new, account_list_get}
use let_dx.State.{state_add_account, state_make_transfer, state_update_account}
use let_dx.Guard.{guard_make_transfer, guard_update_account}
use let_dx.Network.Request.{Request}
use let_dx.Network.Response.{Response}
use let_dx.Storage.Wal.{Entry, EntryData, entry_new}
use let_dx.Storage.Wal.File.{Wal}
use let_dx.Storage.Wal.Write.{WriteDevice, wal_write}

-- let_t, without the sockets and the flags of its loops
pub record Let : Type 0 where
  pub account_list : AccountList
  pub storage_wal : Wal

-- What the system answers during a request: `time(nullptr)` at its start, the write to the log,
-- memory for the account list, and `time(nullptr)` in `let_state_make_transfer`.
pub record RequestDevice : Type 0 where
  pub time_now : Option ℕ
  pub write : WriteDevice
  pub alloc : ℕ → Bool
  pub state_time : Option ℕ

-- the part of a case behind the write to the log: `work` is the change in memory and the response
unfoldable pub after_write :
    AccountList → Result (AccountList × Response) → Result (Unit {0}) × Wal → Result Response × Let
after_write l work (err e, w) = (err e, record { account_list = l; storage_wal = w })
after_write l work (stuck, w) = (stuck, record { account_list = l; storage_wal = w })
after_write l (ok (l', response)) (ok u, w) =
    (ok response, record { account_list = l'; storage_wal = w })
after_write l (err e) (ok u, w) = (err e, record { account_list = l; storage_wal = w })
after_write l stuck (ok u, w) = (stuck, record { account_list = l; storage_wal = w })

-- LET_NETWORK_REQUEST_TYPE_ADD_ACCOUNT
unfoldable pub request_add_account : RequestDevice → Let → ℕ → ℕ → ℕ → ℕ → ℕ → Result Response × Let
request_add_account dev db now wal_id credits debits flags =
    after_write db.account_list
      (do
        (account_id, l') ←
            state_add_account dev.alloc db.account_list (account_new credits debits now flags)
        ok (l', Response.add_account account_id))
      (wal_write dev.write db.storage_wal
        (entry_new wal_id now (EntryData.add_account credits debits flags)))

-- LET_NETWORK_REQUEST_TYPE_MAKE_TRANSFER
unfoldable pub request_make_transfer :
    RequestDevice → Let → ℕ → ℕ → ℕ → ℕ → ℕ → Result Response × Let
request_make_transfer dev db now wal_id from_id to_id amount =
    elim (guard_make_transfer db.account_list from_id to_id amount) [
      | err e ↦ (err e, db)
      | stuck ↦ (stuck, db)
      | ok u ↦
          after_write db.account_list
            (do
              l' ← state_make_transfer dev.state_time db.account_list from_id to_id amount
              ok (l', Response.ok))
            (wal_write dev.write db.storage_wal
              (entry_new wal_id now (EntryData.make_transfer from_id to_id amount)))
    ]

-- LET_NETWORK_REQUEST_TYPE_UPDATE_ACCOUNT
unfoldable pub request_update_account : RequestDevice → Let → ℕ → ℕ → ℕ → ℕ → Result Response × Let
request_update_account dev db now wal_id account_id flags =
    elim (guard_update_account db.account_list account_id) [
      | err e ↦ (err e, db)
      | stuck ↦ (stuck, db)
      | ok u ↦
          after_write db.account_list
            (do l' ← state_update_account db.account_list account_id flags; ok (l', Response.ok))
            (wal_write dev.write db.storage_wal
              (entry_new wal_id now (EntryData.update_account account_id flags)))
    ]

-- LET_NETWORK_REQUEST_TYPE_GET_ACCOUNT
unfoldable pub request_get_account : Let → ℕ → Result Response
request_get_account db account_id = do
  a ← account_list_get db.account_list account_id
  ok (Response.get_account a.credits a.debits a.flags)

-- the `switch` on the type of the request
unfoldable pub request_run : RequestDevice → Let → ℕ → Request → Result Response × Let
unfolding request_add_account request_make_transfer request_update_account request_get_account
request_run dev db now Request.magic = (ok Response.magic, db)
request_run dev db now (Request.add_account wal_id credits debits flags) =
    request_add_account dev db now wal_id credits debits flags
request_run dev db now (Request.make_transfer wal_id from_id to_id amount) =
    request_make_transfer dev db now wal_id from_id to_id amount
request_run dev db now (Request.get_account account_id) = (request_get_account db account_id, db)
request_run dev db now Request.count_database =
    (ok (Response.count_database db.account_list.length db.storage_wal.transactions), db)
request_run dev db now (Request.update_account wal_id account_id flags) =
    request_update_account dev db now wal_id account_id flags
request_run dev db now Request.close = (ok Response.ok, db)

-- the check of the reading of the clock
unfoldable pub request_timed : RequestDevice → Let → Request → Option ℕ → Result Response × Let
unfolding request_run
request_timed dev db request none = (err (state invalid_time), db)
request_timed dev db request (some now) = request_run dev db now request

-- let_request
abbrev pub let_request : RequestDevice → Let → Request → Result Response × Let
let_request dev db request = request_timed dev db request dev.time_now
