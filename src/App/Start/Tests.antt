-- ===== src/App/Start/Tests.antt =====
-- A process that starts on a log with a damaged tail, serves a client, and is ended by a signal.
use let_dx.Base.{ℕ, ◌+◌, ◌≡◌, ◌≢◌, refl, inl, inr, true, false, some, List, [], ◌∷◌, ◌++◌, arith}
use let_dx.Error.{Error, error_exists, storage, wal_open_failed}
use let_dx.Error.Report.{error_report, fatal}
use let_dx.Result.{ok}
use let_dx.Storage.Wal.Log.{log_file}
use let_dx.Storage.Wal.Open.{exists_already}
use let_dx.Storage.Tests.{
  log, replay_device, replay_device-Works, tail, tail-Damaged, first_entry-EntryFits,
  second_entry-EntryFits,
}
use let_dx.Ledger.{view}
use let_dx.Network.Server.{Receipt, client_read, read_loop}
use let_dx.Network.Server.Sockets.{
  Acceptance, server_empty, server_accept, network_close, sys_close,
}
use let_dx.Cli.{Cli, Choice, cli_empty, cli_parse, apply_choice}
use let_dx.App.Tests.{database, database-IsDurable, device, willing}
use let_dx.App.Machine.{
  Runtime, StepDevice, awaiting, finished, handle, let_run, advance, step, on_accept, on_error,
  on_request,
}
use let_dx.App.Machine.Steps.{Sound}
use let_dx.App.Machine.Sound.{let_run-Sound}
use let_dx.App.Machine.Shutdown.{IsSilent, let_run-shutdown}
use let_dx.App.Start.{
  Exit, on_started, on_run, stopped, server_zero, let_cleanup, InitDevice, ready, exited, let_init,
}
use let_dx.App.Start.Recovery.{
  InitWorks, Holds, damaged, IsStorable, Ready, let_init-Recovers, server_socket,
}
use let_dx.App.Start.Restarting.{let_run-restarts}

-- A client comes, on the descriptor 4, and leaves.
abbrev pub comes : StepDevice
comes = record {
  signal = false;
  accept = Acceptance.accepted 4;
  recv = λ i. Receipt.closed;
  request = device;
  send = willing;
}

abbrev signalled : StepDevice
signalled = record comes { signal = true }

abbrev serving_database : Runtime
serving_database = record {
  at = awaiting;
  accepting = true;
  executing = false;
  error = Error.none;
  database = database;
  server = record { handle = some 3; port = 55543 };
  client = server_empty;
  taken = [];
  sockets = server_socket 3 ∷ [];
}

serving_database-Sound : Sound (server_socket 3 ∷ []) log 0 serving_database
serving_database-Sound = record {
  balanced = (refl, refl);
  kept = inl ([], omega arith, database-IsDurable);
}

let_run-Sound_example :
    Sound
      (server_socket 3 ∷ [])
      log
      (0 + 2)
      (let_run cli_empty (comes ∷ comes ∷ []) serving_database)
let_run-Sound_example =
    let_run-Sound (server_socket 3 ∷ []) log 0 cli_empty (comes ∷ comes ∷ []) serving_database
      (omega arith, (omega arith, tt)) (omega arith) serving_database-Sound

pub silent : IsSilent comes
silent byte h = cc h

let_run-shutdown_example :
    (let_run cli_empty
      (comes ∷ comes ∷ comes ∷ comes ∷ comes ∷ comes ∷ [])
      (record serving_database { accepting = false })).at
    ≡ finished
let_run-shutdown_example =
    let_run-shutdown cli_empty (comes ∷ comes ∷ comes ∷ comes ∷ comes ∷ comes ∷ [])
      (record serving_database { accepting = false }) refl (λ e. cc e)
      (silent, (silent, (silent, (silent, (silent, (silent, tt)))))) (omega arith)

-- `--truncate-on-fail`
abbrev pub truncating : Cli
truncating = record cli_empty { truncate_on_fail = true }

abbrev pub init_device : InitDevice
init_device = record {
  granted = true;
  alloc = λ size. true;
  opening = record {
    creates = exists_already;
    opens = true;
    magic = some 8;
    version = some 2;
    seeks = true;
  };
  replay = replay_device;
  listen = record { socket = some 3; binds = λ port. true; listens = λ backlog. true };
}

pub init_device-InitWorks : InitWorks truncating init_device 3
init_device-InitWorks = record {
  granted = refl;
  alloc = λ size. refl;
  opening = record {
    opens = refl;
    magic = (8, refl, omega arith);
    version = (2, refl, omega arith);
    seeks = refl;
  };
  replay = replay_device-Works;
  socket = refl;
  binds = refl;
  listens = refl;
}

pub log-IsStorable : IsStorable log
log-IsStorable = record {
  fits = (first_entry-EntryFits, (second_entry-EntryFits, tt));
  replayable = (tt, (tt, tt));
  small = omega arith;
}

-- The log of two entries, and 20 bytes of a third.
abbrev pub cut_files : List ℕ → List ℕ
cut_files path = log_file log ++ tail

pub cut_files-Holds : Holds true init_device.opening (log_file log ++ tail) log
cut_files-Holds = damaged tail refl refl refl tail-Damaged

let_init-Recovers_example :
    (r : Runtime) × (let_init truncating init_device cut_files [] ≡ ready r) × Ready log 3 [] r
let_init-Recovers_example =
    let_init-Recovers truncating init_device cut_files [] 3 log init_device-InitWorks
      cut_files-Holds log-IsStorable

no_error : (error_report (let_run cli_empty (comes ∷ []) serving_database).error).action ≢ fatal
unfolding let_run advance step error_report
no_error h = cc h

let_run-restarts_example :
    (r' : Runtime) × (let_init truncating init_device
        (λ path.
          (let_run cli_empty (comes ∷ []) serving_database).database.storage_wal.bytes ++ tail)
        []
      ≡ ready r')
    × (view r'.database.account_list
        ≡ view (let_run cli_empty (comes ∷ []) serving_database).database.account_list)
let_run-restarts_example =
    let_run-restarts (server_socket 3 ∷ []) log 0 cli_empty (comes ∷ []) serving_database truncating
      init_device
      (λ path. (let_run cli_empty (comes ∷ []) serving_database).database.storage_wal.bytes ++ tail)
      [] 3 tail serving_database-Sound (omega arith, tt) (omega arith) no_error
      init_device-InitWorks refl refl (inr (refl, tail-Damaged))

pub parsed : cli_parse cli_empty (Choice.truncate_on_fail ∷ []) ≡ ok truncating
unfolding cli_parse apply_choice
parsed = refl

-- A signal that interrupts accept(2) ends the process with a failure,
abbrev interrupted_accept : StepDevice
interrupted_accept = record signalled { accept = Acceptance.interrupted }

abbrev exit_of : Runtime → Exit
exit_of r = on_run r r.at

idle_shutdown :
    exit_of (let_run cli_empty (comes ∷ interrupted_accept ∷ []) serving_database) ≡ exited false []
unfolding let_run advance step on_accept server_accept on_run let_cleanup network_close sys_close
    error_exists
idle_shutdown = refl

-- and one that interrupts recv(2), and clears the flags before the next step, with success.
abbrev interrupted_recv : StepDevice
interrupted_recv = record comes { recv = λ i. Receipt.interrupted }

serving_shutdown :
    exit_of (
      let_run cli_empty
        (comes ∷ comes ∷ comes ∷ interrupted_recv ∷ signalled ∷ comes ∷ comes ∷ [])
        serving_database)
    ≡ exited true []
unfolding let_run advance step on_accept on_request on_error handle client_read read_loop
    server_accept on_run let_cleanup network_close sys_close error_exists error_report
serving_shutdown = refl

-- Where let_init stops early, let_cleanup closes the descriptor 0, whatever it is.
closes_zero :
    on_started cli_empty [] (stopped (storage wal_open_failed) server_zero (server_socket 0 ∷ []))
    ≡ exited false []
unfolding on_started network_close sys_close
closes_zero = refl
