-- ===== src/App/Tests.antt =====
-- A database of two accounts with its log, a request, and a restart.
use let_dx.Base.{ℕ, ◌≡◌, ◌≢◌, true, some, arith, refl}
use let_dx.Base.Bytes.{le_bytes}
use let_dx.Error.{Error}
use let_dx.Result.{ok, err}
use let_dx.Account.{AccountList}
use let_dx.Network.Request.{Request}
use let_dx.Storage.Crc.{crc32c}
use let_dx.Storage.Wal.{EntryData, entry_new, entry_type, payload_bytes, entry_bytes, safe_bytes}
use let_dx.Storage.Wal.File.{Wal, sys_write}
use let_dx.Storage.Wal.Log.{header_bytes, log_bytes}
use let_dx.Storage.Wal.Write.{wal_write, wal_written, wal_sync}
use let_dx.Storage.Wal.Replay.{wal_replay}
use let_dx.Error.Report.{error_report, fatal}
use let_dx.Network.Response.{Response}
use let_dx.Guard.{guard_make_transfer, guard_accounts, guard_balance, guard_transactions, has_flag}
use let_dx.State.{state_make_transfer}
use let_dx.Storage.Tests.{
  log, file, first_entry-EntryFits, second_entry-EntryFits, replay_device, replay_device-Works,
  empty_list, new_list,
}
use let_dx.State.Tests.{two_accounts, two_accounts-IsValid}
use let_dx.Ledger.{view, apply_log, apply_payload}
use let_dx.Network.Server.{Sending, sent}
use let_dx.App.{
  request_timed, request_run, request_make_transfer, after_write, Let, RequestDevice, let_request,
}
use let_dx.App.Once.{let_request-once}
use let_dx.App.Durable.{books, entry_of, IsDurable, Handled}
use let_dx.App.Handling.{IsReliable, let_request_outcome}
use let_dx.Ledger.Books.{serve}
use let_dx.App.Refines.{Agrees, let_request-Agrees}
use let_dx.App.Restart.{nothing, wal_replay-IsDurable}

abbrev pub database : Let
database = record { account_list = two_accounts; storage_wal = file }

pub database-IsDurable : IsDurable log database
unfolding apply_log apply_payload
database-IsDurable = record {
  valid = two_accounts-IsValid;
  file = refl;
  at_end = refl;
  counted = refl;
  fits = (first_entry-EntryFits, (second_entry-EntryFits, tt));
  replayable = (tt, (tt, tt));
  same_view = refl;
}

abbrev pub device : RequestDevice
device = record {
  time_now = some 9;
  write = record { writes = some 54; syncs = true };
  alloc = λ size. true;
  state_time = some 9;
}

pub device-IsReliable : IsReliable device
device-IsReliable = record {
  clock = λ e. cc (e);
  transfer_clock = λ e. cc (e);
  memory = λ size. refl;
  write = record { takes = 54; writes = refl; enough = omega arith; syncs = refl };
}

abbrev pub transfer : Request
transfer = Request.make_transfer 2 0 1 40

let_request_outcome_example :
    Handled log database 9 transfer (IsReliable device) (let_request device database transfer)
let_request_outcome_example =
    let_request_outcome device database log transfer database-IsDurable (omega arith) (omega arith)
      (omega arith, omega arith, omega arith, omega arith)

wal_replay-IsDurable_example :
    (w' : Wal) × (l' : AccountList) × (wal_replay replay_device true file empty_list ≡ ok (w', l'))
    × (view l' ≡ view two_accounts)
    × IsDurable log (record { account_list = l'; storage_wal = w' })
wal_replay-IsDurable_example =
    wal_replay-IsDurable replay_device true true (λ size. true) log database empty_list
      replay_device-Works database-IsDurable (omega arith) new_list

-- The transfer is answered.
pub answers : (let_request device database transfer).0 ≡ ok Response.ok
unfolding request_timed request_run request_make_transfer after_write guard_make_transfer
    guard_accounts guard_balance guard_transactions has_flag state_make_transfer wal_write
    wal_written wal_sync sys_write entry_new safe_bytes entry_bytes entry_type payload_bytes
    le_bytes crc32c header_bytes log_bytes
answers = refl

survives :
    (x : Error) → (let_request device database transfer).0 ≡ err x → (error_report x).action ≢ fatal
survives x h = cc (answers, h)

-- A socket that takes all that it is given.
abbrev pub willing : ℕ → Sending
willing n = sent 128

let_request-once_example :
    (let_request device (let_request device database transfer).1 transfer).1.account_list
    ≡ (let_request device database transfer).1.account_list
let_request-once_example =
    let_request-once log database device device transfer
      (entry_new 2 9 (EntryData.make_transfer 0 1 40)) Response.ok 0
      (let_request device database transfer).1 database-IsDurable (omega arith) (omega arith)
      (omega arith) (omega arith, omega arith, omega arith, omega arith) (unfold entry_of in refl)
      answers nothing

let_request-Agrees_example :
    Agrees log (serve 9 transfer (books database)) (let_request device database transfer)
let_request-Agrees_example =
    let_request-Agrees device database log transfer device-IsReliable database-IsDurable
      (omega arith) (omega arith) (omega arith, omega arith, omega arith, omega arith)
