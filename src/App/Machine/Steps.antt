-- ===== src/App/Machine/Steps.antt =====
-- What one step of let_run does to the database and to the sockets.
use let_dx.Base.{
  ℕ, suc, ◌+◌, ◌^◌, ◌<◌, ◌≡◌, ◌≢◌, refl, ap, ◌⊎◌, inl, inr, Bool, false, List, ◌∷◌, length, arith,
  some, none,
}
use let_dx.Error.{Error}
use let_dx.Error.Report.{Action, fatal, error_report}
use let_dx.Result.{Result, ok, err, stuck}
use let_dx.Network.Request.{Request}
use let_dx.Network.Response.{Response}
use let_dx.Network.Server.Answers.{Read, request, failed}
use let_dx.Network.Server.Write.{Sent, whole, stopped}
use let_dx.Network.Server.Sockets.{Server, Socket, Acceptance, server_accept, network_close}
use let_dx.Network.Server.Sockets.Closing.{sys_close-head}
use let_dx.Cli.{Cli}
use let_dx.Storage.Wal.{Entry}
use let_dx.App.{Let, let_request}
use let_dx.App.Handling.{TimeFits}
use let_dx.App.Restart.{Extended, Comes, lives, dies, let_request-Comes}
use let_dx.App.Machine.{
  handle, is_close, Location, Runtime, StepDevice, on_error, on_request, serve_request, on_write,
  on_accept, awaiting, listening, serving, closing, finished, broken,
}

-- The client's socket is open from its acceptance to its close, and no other socket of the process
-- is opened or closed.
pub record Held (home : List Socket) (client : Server) (sockets : List Socket) : Type 0 where
  pub socket : Socket
  pub handle : client.handle ≡ some socket.descriptor
  pub opened : sockets ≡ socket ∷ home

abbrev pub Balanced : List Socket → Location → Server → List Socket → Type 0
Balanced home awaiting client sockets = (client.handle ≡ none) × (sockets ≡ home)
Balanced home listening client sockets = (client.handle ≡ none) × (sockets ≡ home)
Balanced home finished client sockets = (client.handle ≡ none) × (sockets ≡ home)
Balanced home broken client sockets = ⊥
Balanced home _ client sockets = Held home client sockets

-- Behind a fatal error of a request: no client is accepted and no request is read any more.
abbrev pub IsLeaving : Location → Type 0
IsLeaving serving = Unit
IsLeaving closing = Unit
IsLeaving awaiting = Unit
IsLeaving finished = Unit
IsLeaving _ = ⊥

pub record Dead (r : Runtime) : Type 0 where
  pub leaving : IsLeaving r.at
  pub fatal_error : (error_report r.error).action ≡ fatal
  pub accepting : r.accepting ≡ false
  pub executing : r.executing ≡ false

-- The database is that of the log behind at most `n` requests, or the program ends.
abbrev pub Kept : List Entry → ℕ → Runtime → Type 0
Kept log n r = Extended log n r.database ⊎ Dead r

pub record Sound (home : List Socket) (log : List Entry) (n : ℕ) (r : Runtime) : Type 0 where
  pub balanced : Balanced home r.at r.client r.sockets
  pub kept : Kept log n r

-- A log may be longer.
pub Extended-more :
    (log : List Entry) (n : ℕ) (db : Let) → Extended log n db → Extended log (suc n) db
Extended-more log n db (more, short, h) = (more, omega arith, h)

pub Kept-more : (log : List Entry) (n : ℕ) (r : Runtime) → Kept log n r → Kept log (suc n) r
Kept-more log n r (inl h) = inl (Extended-more log n r.database h)
Kept-more log n r (inr dead) = inr dead

module _ (home : List Socket) (log : List Entry) where
  -- An error of a request, where the database is kept.
  on_error-Sound :
      (close : Bool) (n : ℕ) (r : Runtime) (e : Error) (act : Action)
      → Held home r.client r.sockets
      → Extended log n r.database
      → Sound home log n (on_error close r e act)
  unfolding on_error
  on_error-Sound close n r e Action.none held h = record { balanced = held; kept = inl h }
  on_error-Sound close n r e Action.reject held h = record { balanced = held; kept = inl h }
  on_error-Sound close n r e Action.ignore held h = record { balanced = held; kept = inl h }
  on_error-Sound close n r e Action.close held h = record { balanced = held; kept = inl h }
  on_error-Sound close n r e Action.fatal held h = record { balanced = held; kept = inl h }

  on_answer-Sound :
      (close : Bool) (n : ℕ) (r : Runtime) (m : Result Response) (db : Let)
      → m ≢ stuck
      → Held home r.client r.sockets
      → Extended log n db
      → Sound home log n (on_request close r (m, db))
  unfolding on_request
  on_answer-Sound close n r (ok response) db answers held h = record {
    balanced = held;
    kept = inl h;
  }
  on_answer-Sound close n r (err e) db answers held h =
      on_error-Sound close n (record r { database = db }) e (error_report e).action held h
  on_answer-Sound close n r stuck db answers held h = absurd (answers refl)

  -- A fatal error of a request ends the service.
  on_fatal-Sound :
      (close : Bool) (n : ℕ) (r : Runtime) (e : Error) (db : Let)
      → (error_report e).action ≡ fatal
      → Held home r.client r.sockets
      → Sound home log n (on_request close r (err e, db))
  unfolding on_request on_error
  on_fatal-Sound close n r e db act held = rw act (record {
    balanced = held;
    kept = inr (record { leaving = tt; fatal_error = act; accepting = refl; executing = refl });
  })

  on_request-Sound :
      (close : Bool) (n : ℕ) (r : Runtime) (x : Result Response × Let)
      → Comes log n x
      → Held home r.client r.sockets
      → Sound home log n (on_request close r x)
  on_request-Sound close n r x (lives m db same answers h) held =
      rw same (on_answer-Sound close n r m db answers held h)
  on_request-Sound close n r x (dies e db same act) held =
      rw same (on_fatal-Sound close n r e db act held)

  -- A request is read and handled.
  pub serve_request-Sound :
      (n : ℕ) (dev : StepDevice) (r : Runtime) (m : Result Request)
      → Read m
      → length log + n < 2 ^ 63
      → TimeFits dev.request.time_now
      → Held home r.client r.sockets
      → Extended log n r.database
      → Sound home log (suc n) (serve_request dev r m)
  unfolding handle
  serve_request-Sound n dev r m (request q same fits) room time held h = rw same (
      on_request-Sound (is_close (ok q)) (suc n) r (let_request dev.request r.database q)
        (let_request-Comes log n r.database dev.request q h room time fits) held)
  serve_request-Sound n dev r m (failed e same) room time held h = rw same (
      on_answer-Sound false (suc n) r (err e) r.database (λ b. cc) held
        (Extended-more log n r.database h))

  -- A response is written.
  pub on_write-Sound :
      (close : Bool) (n : ℕ) (r : Runtime) (text : List ℕ) (x : Result (Unit {0}) × List ℕ)
      → Sent text x
      → Held home r.client r.sockets
      → Extended log n r.database
      → Sound home log n (on_write close r x)
  unfolding on_write
  on_write-Sound close n r text x (whole same) held h =
      rw same (record { balanced = held; kept = inl h })
  on_write-Sound close n r text x (stopped k e act same) held h =
      rw same (record { balanced = held; kept = inl h })

  -- A connection is accepted, or not.
  pub on_accept-Sound :
      (n : ℕ) (cli : Cli) (r : Runtime) (answer : Acceptance)
      → r.client.handle ≡ none
      → r.sockets ≡ home
      → Extended log n r.database
      → Sound home log n
          (on_accept r (server_accept answer cli.read_timeout cli.write_timeout r.client r.sockets))
  unfolding on_accept server_accept
  on_accept-Sound n cli r (Acceptance.accepted fd) nobody same h =
      let new : Socket = record {
        descriptor = fd;
        read_timeout = cli.read_timeout;
        write_timeout = cli.write_timeout;
      } in
      record {
        balanced = record { socket = new; handle = refl; opened = ap (λ t. new ∷ t) same };
        kept = inl h;
      }
  on_accept-Sound n cli r Acceptance.interrupted nobody same h = record {
    balanced = (nobody, same);
    kept = inl h;
  }
  on_accept-Sound n cli r Acceptance.failed nobody same h = record {
    balanced = (nobody, same);
    kept = inl h;
  }

  -- The client's socket is closed.
  pub network_close-Held :
      (client : Server) (sockets : List Socket)
      → Held home client sockets
      → ((network_close client sockets).0.handle ≡ none) × ((network_close client sockets).1 ≡ home)
  unfolding network_close
  network_close-Held client sockets held =
      rw (held.handle) (refl, rw held.opened (sys_close-head held.socket home))
