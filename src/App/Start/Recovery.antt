-- ===== src/App/Start/Recovery.antt =====
-- let_init of LetDB/src/let.c takes up a log: a new one, one that was written whole, or one whose end
-- is damaged.
use let_dx.Base.{
  ℕ, ◌^◌, ◌≤◌, ◌≡◌, refl, sym, ap, ◌∙◌, subst, inl, Bool, true, false, some, ◌*◌, List, [], ◌∷◌,
  ◌++◌, append-nil, append_assoc, length, All, arith,
}
use let_dx.Error
use let_dx.Result.{ok}
use let_dx.Account.{AccountList, IsValid, account_list_new, capacity_default, sizeof_account}
use let_dx.Account.Laws.{account_list_new-IsValid}
use let_dx.State.{state_init}
use let_dx.Guard.{guard_init}
use let_dx.Storage.Wal.{Entry, EntryFits}
use let_dx.Storage.Wal.File.{Wal, wal_empty}
use let_dx.Storage.Wal.Log.{log_file, log_bytes, header_bytes}
use let_dx.Storage.Wal.Open.{OpenDevice, created, exists_already, wal_init}
use let_dx.Storage.Wal.Opening.{Opens, wal_init-existing, wal_init-created}
use let_dx.Storage.Wal.Replay.{ReplayDevice, wal_replay}
use let_dx.Storage.Wal.Replay.Apply.{Works}
use let_dx.Storage.Wal.Replay.Ends.{Damaged}
use let_dx.Storage.Wal.Replay.Recovery.{IsLog, Recovered, wal_replay_whole, wal_replay_truncates}
use let_dx.Ledger.{view, apply_log, IsReplayable}
use let_dx.Network.Server.Sockets.{Socket, server_empty, on_socket, listen_on}
use let_dx.Cli.{Cli}
use let_dx.App.Restart.{fresh}
use let_dx.App.Durable.{IsDurable}
use let_dx.App.Machine.{Runtime, awaiting}
use let_dx.App.Machine.Steps.{Sound}
use let_dx.App.Start.{InitDevice, ready, on_listen, on_replay, on_wal, on_guard, on_list, let_init}

-- Nothing fails during let_init: memory is granted, the files and the socket `fd` are opened, and the
-- port and the backlog are taken.
pub record InitWorks (cli : Cli) (dev : InitDevice) (fd : ℕ) : Type 0 where
  pub granted : dev.granted ≡ true
  pub alloc : (size : ℕ) → dev.alloc size ≡ true
  pub opening : Opens dev.opening
  pub replay : Works dev.replay
  pub socket : dev.listen.socket ≡ some fd
  pub binds : dev.listen.binds cli.port ≡ true
  pub listens : dev.listen.listens cli.backlog ≡ true

-- What the path holds: nothing yet, a log, or a log with a damaged tail that may be cut off.
pub data Holds (truncate : Bool) (opening : OpenDevice) (file : List ℕ) (log : List Entry)
    : Type 0 where
  new : opening.creates ≡ created → log ≡ [] → Holds truncate opening file log
  whole : opening.creates ≡ exists_already → file ≡ log_file log → Holds truncate opening file log
  damaged :
      (tail : List ℕ)
      → opening.creates ≡ exists_already
      → truncate ≡ true
      → file ≡ log_file log ++ tail
      → Damaged tail
      → Holds truncate opening file log

-- A log that fits and can be applied to no accounts.
pub record IsStorable (log : List Entry) : Type 0 where
  pub fits : All EntryFits log
  pub replayable : IsReplayable log []
  pub small : length log ≤ 2 ^ 63

-- The log is opened and replayed.
replays :
    (truncate : Bool) (opening : OpenDevice) (replay : ReplayDevice) (file : List ℕ)
    (log : List Entry) (l : AccountList)
    → Opens opening
    → Works replay
    → Holds truncate opening file log
    → IsLog log l
    → IsValid l
    → (w1 : Wal) × (w2 : Wal) × (l2 : AccountList) × (wal_init opening true true
          (record wal_empty { bytes = file })
        ≡ (ok tt, w1))
      × (wal_replay replay truncate w1 l ≡ ok (w2, l2))
      × Recovered log l w2 l2
unfolding log_bytes
replays truncate opening replay file log l opens works (new creates none_yet) is_log v =
    let start : Wal = record wal_empty { bytes = file } in
    let w1 : Wal = record start {
      opened = true;
      bytes = header_bytes;
      offset = length header_bytes;
    } in
    let empty : header_bytes ≡ log_file log = rw none_yet (sym (append-nil header_bytes)) in
    let (w2, l2, done, found) = wal_replay_whole replay truncate log w1 l works v is_log empty in
    (w1, w2, l2, wal_init-created opening start opens creates, done, found)
replays truncate opening replay file log l opens works (whole there is_file) is_log v =
    let start : Wal = record wal_empty { bytes = file } in
    let w1 : Wal = record start { opened = true; offset = length file } in
    let (w2, l2, done, found) = wal_replay_whole replay truncate log w1 l works v is_log is_file in
    (w1, w2, l2, wal_init-existing opening start (log_bytes log) opens there is_file, done, found)
replays truncate opening replay file log l opens works (damaged tail there cut is_file torn) is_log
      v =
    let start : Wal = record wal_empty { bytes = file } in
    let w1 : Wal = record start { opened = true; offset = length file } in
    let (w2, l2, done, found) =
      wal_replay_truncates replay log tail w1 l works v is_log is_file torn in
    (
      w1,
      w2,
      l2,
      wal_init-existing opening start (log_bytes log ++ tail) opens there
          (is_file ∙ append_assoc header_bytes (log_bytes log) tail),
      subst (λ b. wal_replay replay b w1 l ≡ ok (w2, l2)) (sym cut) done,
      found,
    )

-- The socket that listens.
abbrev pub server_socket : ℕ → Socket
server_socket fd = record { descriptor = fd; read_timeout = 0; write_timeout = 0 }

-- What let_run begins with.
abbrev runtime : Cli → ℕ → List Socket → Wal → AccountList → Runtime
runtime cli fd sockets w l = record {
  at = awaiting;
  accepting = true;
  executing = false;
  error = Error.none;
  database = record { account_list = l; storage_wal = w };
  server = record { handle = some fd; port = cli.port };
  client = server_empty;
  taken = [];
  sockets = server_socket fd ∷ sockets;
}

let_init-runtime :
    (cli : Cli) (dev : InitDevice) (files : List ℕ → List ℕ) (sockets : List Socket) (fd : ℕ)
    (l l2 : AccountList) (w1 w2 : Wal)
    → InitWorks cli dev fd
    → account_list_new dev.granted dev.alloc ≡ some l
    → wal_init dev.opening true true (record wal_empty { bytes = files cli.storage_file })
      ≡ (ok tt, w1)
    → wal_replay dev.replay cli.truncate_on_fail w1 l ≡ ok (w2, l2)
    → let_init cli dev files sockets ≡ ready (runtime cli fd sockets w2 l2)
unfolding let_init on_list on_guard on_wal on_replay on_listen state_init guard_init on_socket
    listen_on
let_init-runtime cli dev files sockets fd l l2 w1 w2 works list opened replayed =
    rw list (rw opened (rw replayed (rw works.socket (rw (works.binds, works.listens) refl))))

-- The runtime stands for the log.
pub record Ready (log : List Entry) (fd : ℕ) (sockets : List Socket) (r : Runtime) : Type 0 where
  pub accepting : r.accepting ≡ true
  pub listening : r.server.handle ≡ some fd
  pub sound : Sound (server_socket fd ∷ sockets) log 0 r
  pub same_view : view r.database.account_list ≡ apply_log log []

runtime-Ready :
    (cli : Cli) (fd : ℕ) (sockets : List Socket) (log : List Entry) (w : Wal) (l l2 : AccountList)
    → IsStorable log
    → view l ≡ []
    → Recovered log l w l2
    → Ready log fd sockets (runtime cli fd sockets w l2)
runtime-Ready cli fd sockets log w l l2 storable empty found =
    let seen = found.same_view ∙ ap (apply_log log) empty in
    let durable : IsDurable log (record { account_list = l2; storage_wal = w }) = record {
      valid = found.valid;
      file = found.file;
      at_end = found.at_end;
      counted = found.counted;
      fits = storable.fits;
      replayable = storable.replayable;
      same_view = seen;
    } in
    record {
      accepting = refl;
      listening = refl;
      sound = record {
        balanced = (refl, refl);
        kept = inl (
          [],
          omega arith,
          subst (λ l. IsDurable l (record { account_list = l2; storage_wal = w }))
              (sym (append-nil log)) durable,
        );
      };
      same_view = seen;
    }

granted_list :
    (granted : Bool) (alloc : ℕ → Bool)
    → granted ≡ true
    → ((size : ℕ) → alloc size ≡ true)
    → (l : AccountList) × (account_list_new granted alloc ≡ some l)
unfolding account_list_new
granted_list granted alloc h all = rw h (
    rw (all (capacity_default * sizeof_account))
      ((record { accounts = []; capacity = capacity_default; length = 0 }, refl)))

-- Where nothing fails during let_init, and the file that `storage_file` names is new, or holds a log
-- whose entries fit their fields and can be applied in their order, whole or, with `truncate_on_fail`,
-- with a damaged tail: let_init succeeds, the server listens on its only new socket and accepts
-- clients, the accounts have the balances that the log gives, and the database is that of the log.
pub let_init-Recovers :
    (cli : Cli) (dev : InitDevice) (files : List ℕ → List ℕ) (sockets : List Socket) (fd : ℕ)
    (log : List Entry)
    → InitWorks cli dev fd
    → Holds cli.truncate_on_fail dev.opening (files cli.storage_file) log
    → IsStorable log
    → (r : Runtime) × (let_init cli dev files sockets ≡ ready r) × Ready log fd sockets r
let_init-Recovers cli dev files sockets fd log works holds storable =
    let (l, new_list) = granted_list dev.granted dev.alloc works.granted works.alloc in
    let (empty, none_stored) = fresh dev.granted dev.alloc l new_list in
    let is_log : IsLog log l = record {
      fits = storable.fits;
      replayable = subst (IsReplayable log) (sym empty) storable.replayable;
      storable = omega (arith, storable.small);
    } in
    let (w1, w2, l2, opened, replayed, found) =
      replays cli.truncate_on_fail dev.opening dev.replay (files cli.storage_file) log l
        works.opening works.replay holds is_log
        (account_list_new-IsValid dev.granted dev.alloc l new_list) in
    (
      runtime cli fd sockets w2 l2,
      let_init-runtime cli dev files sockets fd l l2 w1 w2 works new_list opened replayed,
      runtime-Ready cli fd sockets log w2 l l2 storable empty found,
    )
