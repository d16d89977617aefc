-- ===== src/App/Start/Exiting.antt =====
-- apply_process of LetDB/src/main.c, from its start to its exit.
use let_dx.Base.{
  ℕ, ◌+◌, ◌^◌, ◌<◌, ◌≤◌, ◌≡◌, ◌≢◌, refl, ap, ◌∙◌, subst, Bool, true, false, not, some, List, ◌∷◌,
  ◌++◌, length, All, arith, if◌then◌else◌,
}
use let_dx.Error.{error_exists}
use let_dx.Result.{ok}
use let_dx.Network.Server.Sockets.{Server, Socket, sys_close, network_close}
use let_dx.Network.Server.Sockets.Closing.{sys_close-head}
use let_dx.Storage.Wal.{Entry}
use let_dx.Cli.{Cli, Choice, cli_empty, cli_parse}
use let_dx.App.Handling.{TimeFits}
use let_dx.App.Machine
use let_dx.App.Machine.{
  Location, Runtime, StepDevice, awaiting, listening, accepted, serving, closing, finished,
  responding, let_close, on_accept, on_error, on_request, on_write, serve_request, step, advance,
  let_run,
}
use let_dx.App.Machine.Unchanged.{let_run-server, let_run-append}
use let_dx.App.Machine.Steps.{Balanced, Sound}
use let_dx.App.Machine.Sound.{let_run-Sound}
use let_dx.App.Machine.Shutdown.{IsSilent, let_run-shutdown}
use let_dx.App.Start.{
  InitDevice, ready, Exit, exited, let_cleanup, on_run, on_started, on_parse, apply_process,
}
use let_dx.App.Start.Recovery.{
  InitWorks, Holds, IsStorable, Ready, server_socket, let_init-Recovers,
}

-- A signal that arrives before a step is the handler's run before it.
let_run-signal :
    (cli : Cli) (dev : StepDevice) (devs : List StepDevice) (r : Runtime)
    → dev.signal ≡ true
    → let_run cli (dev ∷ devs) r ≡ let_run cli (dev ∷ devs) (let_close r)
unfolding let_run advance
let_run-signal cli dev devs r arrives = rw arrives refl

-- A sound run is not broken.
unbroken :
    (home : List Socket) (at : Location) (client : Server) (sockets : List Socket)
    → Balanced home at client sockets
    → at ≢ Machine.broken
unbroken home at client sockets h e = subst (λ at. Balanced home at client sockets) e h

-- Behind the signal, and six silent steps, let_run is at its end.
let_run-signalled :
    (home : List Socket) (log : List Entry) (n : ℕ) (cli : Cli) (dev : StepDevice)
    (devs : List StepDevice) (r : Runtime)
    → Sound home log n r
    → dev.signal ≡ true
    → All IsSilent (dev ∷ devs)
    → 6 ≤ length (dev ∷ devs)
    → (let_run cli (dev ∷ devs) r).at ≡ finished
let_run-signalled home log n cli dev devs r sound arrives silent enough =
    ap (λ r. r.at) (let_run-signal cli dev devs r arrives)
    ∙ let_run-shutdown cli (dev ∷ devs) (let_close r) refl
        (unbroken home r.at r.client r.sockets sound.balanced) silent enough

-- At its end, let_cleanup closes the server's socket, the last that is open.
on_run-exited :
    (fd : ℕ) (sockets : List Socket) (log : List Entry) (n : ℕ) (r : Runtime)
    → Sound (server_socket fd ∷ sockets) log n r
    → r.server.handle ≡ some fd
    → r.at ≡ finished
    → on_run r r.at ≡ exited (not (error_exists r.error)) sockets
unfolding on_run let_cleanup network_close
on_run-exited fd sockets log n r sound handle ends =
    let balanced =
      subst (λ at. Balanced (server_socket fd ∷ sockets) at r.client r.sockets) ends
        sound.balanced in
    rw ends (
      rw handle (
        ap (exited (not (error_exists r.error)))
          (ap (sys_close fd) balanced.1 ∙ sys_close-head (server_socket fd) sockets)))

-- From a ready runtime to the exit.
ready-exits :
    (cli : Cli) (before : List StepDevice) (dev : StepDevice) (after : List StepDevice) (fd : ℕ)
    (sockets : List Socket) (log : List Entry) (r : Runtime)
    → Ready log fd sockets r
    → All (λ dev. TimeFits dev.request.time_now) before
    → All (λ dev. TimeFits dev.request.time_now) (dev ∷ after)
    → length log + (length before + length (dev ∷ after)) < 2 ^ 63
    → dev.signal ≡ true
    → All IsSilent (dev ∷ after)
    → 6 ≤ length (dev ∷ after)
    → (b : Bool) × (on_started cli (before ++ (dev ∷ after)) (ready r) ≡ exited b sockets)
unfolding on_started
ready-exits cli before dev after fd sockets log r start times later room arrives silent enough =
    let home = server_socket fd ∷ sockets in
    let r1 = let_run cli before r in
    let r2 = let_run cli (dev ∷ after) r1 in
    let n = 0 + length before in
    let sound1 = let_run-Sound home log 0 cli before r times (omega arith) start.sound in
    let sound2 = let_run-Sound home log n cli (dev ∷ after) r1 later (omega arith) sound1 in
    let ends = let_run-signalled home log n cli dev after r1 sound1 arrives silent enough in
    let handle : r2.server.handle ≡ some fd =
      ap (λ s. s.handle) (let_run-server cli (dev ∷ after) r1 ∙ let_run-server cli before r)
      ∙ start.listening in
    (
      not (error_exists r2.error),
      ap (λ (r : Runtime). on_run r r.at) (let_run-append cli before (dev ∷ after) r)
          ∙ on_run-exited fd sockets log _ r2 sound2 handle ends,
    )

neither :
    (help version : Bool) (x y : Exit)
    → help ≡ false
    → version ≡ false
    → (if help then x else if version then x else y) ≡ y
neither help version x y no_help no_version = rw (no_help, no_version) refl

-- Where the options are parsed and ask neither for help nor for the version, nothing fails during
-- let_init, and the file holds a log as let_init takes it up: whatever the system answers to let_run,
-- once a signal has arrived and six steps follow at which the client's socket delivers no byte,
-- apply_process exits, and every socket that it opened is closed.
pub apply_process-exits :
    (dev : InitDevice) (files : List ℕ → List ℕ) (before : List StepDevice) (at_signal : StepDevice)
    (after : List StepDevice) (sockets : List Socket) (choices : List Choice) (cli : Cli) (fd : ℕ)
    (log : List Entry)
    → cli_parse cli_empty choices ≡ ok cli
    → cli.help ≡ false
    → cli.version ≡ false
    → InitWorks cli dev fd
    → Holds cli.truncate_on_fail dev.opening (files cli.storage_file) log
    → IsStorable log
    → All (λ dev. TimeFits dev.request.time_now) before
    → All (λ dev. TimeFits dev.request.time_now) (at_signal ∷ after)
    → length log + (length before + length (at_signal ∷ after)) < 2 ^ 63
    → at_signal.signal ≡ true
    → All IsSilent (at_signal ∷ after)
    → 6 ≤ length (at_signal ∷ after)
    → (b : Bool) × (apply_process dev files (before ++ (at_signal ∷ after)) sockets choices
        ≡ exited b sockets)
unfolding apply_process on_parse
apply_process-exits dev files before at_signal after sockets choices cli fd log parsed no_help
      no_version works holds storable times later room arrives silent enough =
    let (r, started, is_ready) =
      let_init-Recovers cli dev files sockets fd log works holds storable in
    let (b, exits) =
      ready-exits cli before at_signal after fd sockets log r is_ready times later room arrives
        silent enough in
    (
      b,
      ap (on_parse dev files (before ++ (at_signal ∷ after)) sockets) parsed
          ∙ neither cli.help cli.version _ _ no_help no_version
          ∙ ap (on_started cli (before ++ (at_signal ∷ after))) started
          ∙ exits,
    )
