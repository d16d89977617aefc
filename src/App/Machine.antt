-- ===== src/App/Machine.antt =====
-- let_run and let_close of LetDB/src/let.c as a machine: the program stands at one of the places
-- between which a signal matters, and a step takes it to the next. The answers of the system are
-- given step by step.
pub mod Steps
pub mod Sound
pub mod Distance
pub mod Shutdown
pub mod Unchanged
pub mod Serving
pub mod Session
pub mod Tests
use let_dx.Base.{ℕ, Bool, true, false, List, [], ◌∷◌, ◌++◌, if◌then◌else◌}
use let_dx.Error
use let_dx.Error.{Error}
use let_dx.Error.Report.{Action, error_report}
use let_dx.Result.{Result, ok, err, stuck}
use let_dx.Network.Request.{Request}
use let_dx.Network.Response.{Response, response_empty}
use let_dx.Network.Server.{Receipt, Sending, client_read, client_write}
use let_dx.Network.Server.Sockets.{Server, Socket, Acceptance, server_accept, network_close}
use let_dx.Cli.{Cli}
use let_dx.App.{Let, RequestDevice, let_request}

-- Where the program stands: before the test of `accepting`; before accept(2); behind it; before the
-- test of `executing`; before the write of a response, which may be the one to CLOSE; before
-- `let_network_close`; behind the loop. `broken` stands for an access outside an array, or a loop
-- that ran out of fuel.
pub data Location : Type 0 where
  awaiting listening accepted serving closing finished broken : Location
  responding : Bool → Response → Location

-- let_t, with the place in let_run, what the client's socket has taken since it was accepted, and the
-- open sockets of the process
pub record Runtime : Type 0 where
  pub at : Location
  pub accepting : Bool
  pub executing : Bool
  pub error : Error
  pub database : Let
  pub server : Server
  pub client : Server
  pub taken : List ℕ
  pub sockets : List Socket

-- What the system answers at a step: whether a signal arrives before it, and the calls of the step.
pub record StepDevice : Type 0 where
  pub signal : Bool
  pub accept : Acceptance
  pub recv : ℕ → Receipt
  pub request : RequestDevice
  pub send : ℕ → Sending

-- let_close, the handler of SIGTERM and SIGINT
abbrev pub let_close : Runtime → Runtime
let_close r = record r { accepting = false; executing = false }

-- the test of `accepting`
abbrev pub step_awaiting : Runtime → Runtime
step_awaiting r = record r { at = if r.accepting then listening else finished }

-- the part behind let_network_server_accept
unfoldable pub on_accept : Runtime → Result (Unit {0}) × Server × List Socket → Runtime
on_accept r (ok u, client, sockets) = record r {
  at = accepted;
  error = Error.none;
  client = client;
  taken = [];
  sockets = sockets;
}
on_accept r (err e, client, sockets) = record r {
  at = finished;
  error = e;
  client = client;
  sockets = sockets;
}
on_accept r (stuck, client, sockets) = record r { at = broken }

abbrev pub step_listening : Cli → StepDevice → Runtime → Runtime
step_listening cli dev r =
    on_accept r (server_accept dev.accept cli.read_timeout cli.write_timeout r.client r.sockets)

-- the `switch` on the action of the error of the request
unfoldable pub on_error : Bool → Runtime → Error → Action → Runtime
on_error close r e Action.none = record r { at = responding close response_empty; error = e }
on_error close r e Action.reject = record r {
  at = responding close (Response.error e);
  error = Error.none;
}
on_error close r e Action.ignore = record r { at = serving; error = Error.none; executing = false }
on_error close r e Action.close = record r { at = serving; error = e; executing = false }
on_error close r e Action.fatal = record r {
  at = serving;
  error = e;
  executing = false;
  accepting = false;
}

-- the part behind let_request
unfoldable pub on_request : Bool → Runtime → Result Response × Let → Runtime
unfolding on_error
on_request close r (ok response, db) = record r {
  at = responding close response;
  error = Error.none;
  database = db;
}
on_request close r (err e, db) =
    on_error close (record r { database = db }) e (error_report e).action
on_request close r (stuck, db) = record r { at = broken }

-- the request that was read, if there is one, is handled
unfoldable pub handle : RequestDevice → Let → Result Request → Result Response × Let
handle dev db (ok request) = let_request dev db request
handle dev db (err e) = (err e, db)
handle dev db stuck = (stuck, db)

-- the request asks for the end of the connection
abbrev pub is_close : Result Request → Bool
is_close (ok Request.close) = true
is_close _ = false

abbrev pub serve_request : StepDevice → Runtime → Result Request → Runtime
serve_request dev r request =
    on_request (is_close request) r (handle dev.request r.database request)

-- the test of `executing`, and the request behind it
abbrev pub step_serving : StepDevice → Runtime → Runtime
step_serving dev r =
    if r.executing then serve_request dev r (client_read dev.recv) else record r { at = closing }

-- `accepting` and `executing` behind a failed write of the response, from the value of `accepting`
unfoldable pub write_failed : Bool → Action → Bool × Bool
write_failed accepting Action.fatal = (false, true)
write_failed accepting Action.close = (accepting, false)
write_failed accepting _ = (accepting, true)

-- the part behind let_network_client_write
unfoldable pub on_write : Bool → Runtime → Result (Unit {0}) × List ℕ → Runtime
unfolding write_failed
on_write close r (ok u, taken) = record r {
  at = serving;
  error = Error.none;
  executing = if close then false else r.executing;
  taken = r.taken ++ taken;
}
on_write close r (err e, taken) =
    let flags = write_failed r.accepting (error_report e).action in
    record r {
      at = serving;
      error = e;
      accepting = flags.0;
      executing = flags.1;
      taken = r.taken ++ taken;
    }
on_write close r (stuck, taken) = record r { at = broken }

abbrev pub step_responding : StepDevice → Runtime → Bool → Response → Runtime
step_responding dev r close response = on_write close r (client_write dev.send response)

-- the part behind the inner loop
abbrev pub step_closing : Runtime → Runtime
step_closing r =
    let closed = network_close r.client r.sockets in
    record r { at = awaiting; client = closed.0; sockets = closed.1 }

-- the step from a place
unfoldable pub step : Cli → StepDevice → Runtime → Location → Runtime
unfolding on_accept on_request on_write
step cli dev r awaiting = step_awaiting r
step cli dev r listening = step_listening cli dev r
step cli dev r accepted = record r { at = serving; executing = true }
step cli dev r serving = step_serving dev r
step cli dev r (responding close response) = step_responding dev r close response
step cli dev r closing = step_closing r
step cli dev r finished = r
step cli dev r broken = r

-- a step, behind the signal that may arrive before it
unfoldable pub advance : Cli → StepDevice → Runtime → Runtime
unfolding step
advance cli dev r = if dev.signal then step cli dev (let_close r) r.at else step cli dev r r.at

-- let_run, for the steps that the answers are given for
unfoldable pub let_run : Cli → List StepDevice → Runtime → Runtime
unfolding advance
let_run cli [] r = r
let_run cli (dev ∷ devs) r = let_run cli devs (advance cli dev r)
