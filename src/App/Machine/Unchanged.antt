-- ===== src/App/Machine/Unchanged.antt =====
-- What no step of let_run touches: the server; and runs one behind the other.
use let_dx.Base.{ℕ, ◌≡◌, refl, ◌∙◌, Bool, List, [], ◌∷◌, ◌++◌, elim_if}
use let_dx.Error.{Error}
use let_dx.Error.Report.{Action, error_report}
use let_dx.Result.{Result, ok, err, stuck}
use let_dx.Network.Response.{Response}
use let_dx.Network.Server.Sockets.{Server, Socket}
use let_dx.Cli.{Cli}
use let_dx.App.{Let}
use let_dx.App.Machine
use let_dx.App.Machine.{
  Location, Runtime, StepDevice, awaiting, listening, accepted, serving, closing, finished,
  responding, let_close, on_accept, on_error, on_request, on_write, serve_request, step, advance,
  let_run,
}

-- No step touches the server.
on_accept-server :
    (r : Runtime) (x : Result (Unit {0}) × Server × List Socket) → (on_accept r x).server ≡ r.server
unfolding on_accept
on_accept-server r (ok u, client, sockets) = refl
on_accept-server r (err e, client, sockets) = refl
on_accept-server r (stuck, client, sockets) = refl

on_error-server :
    (is_last : Bool) (r : Runtime) (e : Error) (act : Action)
    → (on_error is_last r e act).server ≡ r.server
unfolding on_error
on_error-server is_last r e Action.none = refl
on_error-server is_last r e Action.reject = refl
on_error-server is_last r e Action.ignore = refl
on_error-server is_last r e Action.close = refl
on_error-server is_last r e Action.fatal = refl

on_request-server :
    (is_last : Bool) (r : Runtime) (x : Result Response × Let)
    → (on_request is_last r x).server ≡ r.server
unfolding on_request
on_request-server is_last r (ok response, db) = refl
on_request-server is_last r (err e, db) =
    on_error-server is_last (record r { database = db }) e (error_report e).action
on_request-server is_last r (stuck, db) = refl

on_write-server :
    (is_last : Bool) (r : Runtime) (x : Result (Unit {0}) × List ℕ)
    → (on_write is_last r x).server ≡ r.server
unfolding on_write
on_write-server is_last r (ok u, taken) = refl
on_write-server is_last r (err e, taken) = refl
on_write-server is_last r (stuck, taken) = refl

step-server :
    (cli : Cli) (dev : StepDevice) (r : Runtime) (at : Location)
    → (step cli dev r at).server ≡ r.server
unfolding step
step-server cli dev r awaiting = refl
step-server cli dev r listening = on_accept-server r _
step-server cli dev r accepted = refl
step-server cli dev r serving =
    elim_if (λ (r' : Runtime). r'.server ≡ r.server) r.executing _ _ (λ e. on_request-server _ r _)
      (λ e. refl)
step-server cli dev r (responding is_last response) = on_write-server is_last r _
step-server cli dev r closing = refl
step-server cli dev r finished = refl
step-server cli dev r Machine.broken = refl

advance-server :
    (cli : Cli) (dev : StepDevice) (r : Runtime) → (advance cli dev r).server ≡ r.server
unfolding advance
advance-server cli dev r =
    elim_if (λ (r' : Runtime). r'.server ≡ r.server) dev.signal _ _
      (λ e. step-server cli dev (let_close r) r.at) (λ e. step-server cli dev r r.at)

pub let_run-server :
    (cli : Cli) (devs : List StepDevice) (r : Runtime) → (let_run cli devs r).server ≡ r.server
unfolding let_run
let_run-server cli [] r = refl
let_run-server cli (dev ∷ devs) r =
    let_run-server cli devs (advance cli dev r) ∙ advance-server cli dev r

pub let_run-append :
    (cli : Cli) (devs more : List StepDevice) (r : Runtime)
    → let_run cli (devs ++ more) r ≡ let_run cli more (let_run cli devs r)
unfolding let_run
let_run-append cli [] more r = refl
let_run-append cli (dev ∷ devs) more r = let_run-append cli devs more (advance cli dev r)
