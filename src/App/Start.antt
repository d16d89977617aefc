-- ===== src/App/Start.antt =====
-- let_init and let_cleanup of LetDB/src/let.c, and apply_process of LetDB/src/main.c, which calls them
-- and let_run: from the command line to the exit status.
pub mod Recovery
pub mod Restarting
pub mod Exiting
pub mod Tests
use let_dx.Base.{ℕ, Bool, true, false, not, Option, none, some, List, [], if◌then◌else◌}
use let_dx.Error
use let_dx.Error.{Error, account, out_of_memory, error_exists}
use let_dx.Result.{Result, ok, err, stuck, ◌>>=◌}
use let_dx.Account.{AccountList, account_list_new}
use let_dx.State.{state_init}
use let_dx.Guard.{guard_init}
use let_dx.Storage.Wal.File.{Wal, wal_empty, wal_close}
use let_dx.Storage.Wal.Open.{OpenDevice, wal_init}
use let_dx.Storage.Wal.Replay.{ReplayDevice, wal_replay}
use let_dx.Network.Server.Sockets.{
  Server, Socket, ListenDevice, server_empty, server_init, network_close,
}
use let_dx.Cli.{Cli, Choice, cli_empty, cli_parse}
use let_dx.App.{Let}
use let_dx.App.Machine
use let_dx.App.Machine.{Location, Runtime, StepDevice, awaiting, finished, let_run}

-- What the system answers during let_init.
pub record InitDevice : Type 0 where
  pub granted : Bool
  pub alloc : ℕ → Bool
  pub opening : OpenDevice
  pub replay : ReplayDevice
  pub listen : ListenDevice

-- What let_init leaves: `let.error` and the server's handle, or the runtime that let_run begins with;
-- with the open sockets.
pub data Started : Type 0 where
  stopped : Error → Server → List Socket → Started
  ready : Runtime → Started
  broken : Started

-- the server of `let`, which is zeroed: its handle is the descriptor 0
abbrev pub server_zero : Server
server_zero = record { handle = some 0; port = 0 }

-- the part behind let_network_server_init
unfoldable pub on_listen : Let → Result (Unit {0}) × Server × List Socket → Started
on_listen db (ok u, server, sockets) = ready (record {
  at = awaiting;
  accepting = true;
  executing = false;
  error = Error.none;
  database = db;
  server = server;
  client = server_empty;
  taken = [];
  sockets = sockets;
})
on_listen db (err e, server, sockets) = stopped e server sockets
on_listen db (stuck, server, sockets) = broken

-- the part behind let_storage_wal_replay
unfoldable pub on_replay : Cli → InitDevice → List Socket → Result (Wal × AccountList) → Started
unfolding on_listen
on_replay cli dev sockets (ok (w, l)) =
    on_listen (record { account_list = l; storage_wal = w })
      (server_init dev.listen cli.port cli.backlog sockets)
on_replay cli dev sockets (err e) = stopped e server_zero sockets
on_replay cli dev sockets stuck = broken

-- the part behind let_storage_wal_init
unfoldable pub on_wal :
    Cli → InitDevice → List Socket → AccountList → Result (Unit {0}) × Wal → Started
unfolding on_replay
on_wal cli dev sockets l (ok u, w) =
    on_replay cli dev sockets (wal_replay dev.replay cli.truncate_on_fail w l)
on_wal cli dev sockets l (err e, w) = stopped e server_zero sockets
on_wal cli dev sockets l (stuck, w) = broken

-- the part behind let_guard_init; `file` is what the file holds that `cli.storage_file` names
unfoldable pub on_guard : Cli → InitDevice → List ℕ → List Socket → Result AccountList → Started
unfolding on_wal
on_guard cli dev file sockets (ok l) =
    on_wal cli dev sockets l (wal_init dev.opening true true (record wal_empty { bytes = file }))
on_guard cli dev file sockets (err e) = stopped e server_zero sockets
on_guard cli dev file sockets stuck = broken

-- the part behind let_account_list_new
unfoldable pub on_list : Cli → InitDevice → List ℕ → List Socket → Option AccountList → Started
unfolding on_guard
on_list cli dev file sockets none = stopped (account out_of_memory) server_zero sockets
on_list cli dev file sockets (some l) =
    on_guard cli dev file sockets (state_init (some l) >>= λ state. guard_init (some state))

-- let_init; `files` gives what is behind a path
unfoldable pub let_init : Cli → InitDevice → (List ℕ → List ℕ) → List Socket → Started
unfolding on_list
let_init cli dev files sockets =
    on_list cli dev (files cli.storage_file) sockets (account_list_new dev.granted dev.alloc)

-- let_cleanup, without the memory that it frees
unfoldable pub let_cleanup : Runtime → Runtime
let_cleanup r =
    let closed = network_close r.server r.sockets in
    record r {
      server = closed.0;
      sockets = closed.1;
      database = record {
        account_list = r.database.account_list;
        storage_wal = wal_close r.database.storage_wal;
      };
    }

-- What apply_process comes to: its answer and the sockets that are left open, or let_run still runs.
pub data Exit : Type 0 where
  exited : Bool → List Socket → Exit
  running : Runtime → Exit
  broken : Exit

-- the part behind let_run
unfoldable pub on_run : Runtime → Location → Exit
unfolding let_cleanup
on_run r finished = exited (not (error_exists r.error)) (let_cleanup r).sockets
on_run r Machine.broken = broken
on_run r _ = running r

-- the part behind let_init
unfoldable pub on_started : Cli → List StepDevice → Started → Exit
unfolding on_run
on_started cli devs (stopped e server sockets) = exited false (network_close server sockets).1
on_started cli devs (ready r) = let last = let_run cli devs r in on_run last last.at
on_started cli devs broken = broken

-- the part behind let_cli_parse
unfoldable pub on_parse :
    InitDevice → (List ℕ → List ℕ) → List StepDevice → List Socket → Result Cli → Exit
unfolding let_init on_started
on_parse dev files devs sockets (err e) = exited false sockets
on_parse dev files devs sockets stuck = broken
on_parse dev files devs sockets (ok cli) =
    let started = on_started cli devs (let_init cli dev files sockets) in
    if cli.help then exited true sockets else if cli.version then exited true sockets else started

-- apply_process
unfoldable pub apply_process :
    InitDevice → (List ℕ → List ℕ) → List StepDevice → List Socket → List Choice → Exit
unfolding on_parse
apply_process dev files devs sockets choices =
    on_parse dev files devs sockets (cli_parse cli_empty choices)
