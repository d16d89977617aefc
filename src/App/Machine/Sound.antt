-- ===== src/App/Machine/Sound.antt =====
-- Every run of let_run keeps the database that of the log, and the sockets in order.
use let_dx.Base.{
  ℕ, suc, ◌+◌, ◌^◌, ◌<◌, refl, sym, subst, inl, inr, Bool, true, false, List, [], ◌∷◌, length,
  arith, if◌then◌else◌, All, elim_if,
}
use let_dx.Storage.Wal.{Entry}
use let_dx.Network.Response.{Response}
use let_dx.Network.Response.Encoder.Reply.{response_text}
use let_dx.Network.Server.{client_read, client_write}
use let_dx.Network.Server.Answers.{client_read-Read}
use let_dx.Network.Server.Write.{client_write_outcome}
use let_dx.Network.Server.Sockets.{Server, Socket}
use let_dx.Cli.{Cli}
use let_dx.App.Handling.{TimeFits}
use let_dx.App.Machine.{
  Location, Runtime, StepDevice, awaiting, listening, accepted, serving, closing, finished, broken,
  responding, let_close, step_awaiting, step_listening, step_serving, step_closing, step, advance,
  let_run, step_responding,
}
use let_dx.App.Machine.Steps.{
  Held, Balanced, IsLeaving, Extended-more, Kept, Sound, Kept-more, serve_request-Sound,
  on_write-Sound, on_accept-Sound, network_close-Held,
}

tested :
    (home : List Socket) (b : Bool) (client : Server) (sockets : List Socket)
    → Balanced home awaiting client sockets
    → Balanced home (if b then listening else finished) client sockets
tested home true client sockets h = h
tested home false client sockets h = h

-- The flags, cleared by a signal.
let_close-Sound :
    (home : List Socket) (log : List Entry) (n : ℕ) (r : Runtime)
    → Sound home log n r
    → Sound home log n (let_close r)
let_close-Sound home log n r h = record {
  balanced = h.balanced;
  kept = elim h.kept [
    | inl durable ↦ inl durable
    | inr dead ↦ inr (record {
      leaving = dead.leaving;
      fatal_error = dead.fatal_error;
      accepting = refl;
      executing = refl;
    })
  ];
}

module _ (home : List Socket) (log : List Entry) (n : ℕ) (cli : Cli) (dev : StepDevice)
    (room : length log + n < 2 ^ 63) (time : TimeFits dev.request.time_now) where
  awaiting-Kept :
      (r : Runtime) → Kept log n (record r { at = awaiting }) → Kept log n (step_awaiting r)
  awaiting-Kept r (inl durable) = inl durable
  awaiting-Kept r (inr dead) = inr (record {
    leaving = subst (λ b. IsLeaving (if b then listening else finished)) (sym dead.accepting) tt;
    fatal_error = dead.fatal_error;
    accepting = dead.accepting;
    executing = dead.executing;
  })

  awaiting-Sound :
      (r : Runtime)
      → Balanced home awaiting r.client r.sockets
      → Kept log n (record r { at = awaiting })
      → Sound home log (suc n) (step_awaiting r)
  awaiting-Sound r balanced kept = record {
    balanced = tested home r.accepting r.client r.sockets balanced;
    kept = Kept-more log n (step_awaiting r) (awaiting-Kept r kept);
  }

  serving-Sound :
      (r : Runtime)
      → Held home r.client r.sockets
      → Kept log n (record r { at = serving })
      → Sound home log (suc n) (step_serving dev r)
  serving-Sound r held (inl durable) =
      elim_if (Sound home log (suc n)) r.executing _ _
        (λ e.
          serve_request-Sound home log n dev r (client_read dev.recv) (client_read-Read dev.recv)
            room time held durable)
        (λ e. record { balanced = held; kept = Kept-more log n _ (inl durable) })
  serving-Sound r held (inr dead) =
      elim_if (Sound home log (suc n)) r.executing _ _ (λ e. cc (e, dead.executing))
        (λ e. record {
          balanced = held;
          kept = inr (record {
            leaving = tt;
            fatal_error = dead.fatal_error;
            accepting = dead.accepting;
            executing = dead.executing;
          });
        })

  listening-Sound :
      (r : Runtime)
      → Balanced home listening r.client r.sockets
      → Kept log n (record r { at = listening })
      → Sound home log (suc n) (step_listening cli dev r)
  listening-Sound r (nobody, same) (inl durable) =
      on_accept-Sound home log (suc n) cli r dev.accept nobody same
        (Extended-more log n r.database durable)
  listening-Sound r balanced (inr dead) = absurd dead.leaving

  responding-Sound :
      (r : Runtime) (close : Bool) (response : Response)
      → Held home r.client r.sockets
      → Kept log n (record r { at = responding close response })
      → Sound home log (suc n) (step_responding dev r close response)
  responding-Sound r close response held (inl durable) =
      on_write-Sound home log close (suc n) r (response_text response)
        (client_write dev.send response) (client_write_outcome dev.send response) held
        (Extended-more log n r.database durable)
  responding-Sound r close response held (inr dead) = absurd dead.leaving

  closing-Kept :
      (r : Runtime) → Kept log n (record r { at = closing }) → Kept log n (step_closing r)
  closing-Kept r (inl durable) = inl durable
  closing-Kept r (inr dead) = inr (record {
    leaving = tt;
    fatal_error = dead.fatal_error;
    accepting = dead.accepting;
    executing = dead.executing;
  })

  closing-Sound :
      (r : Runtime)
      → Held home r.client r.sockets
      → Kept log n (record r { at = closing })
      → Sound home log (suc n) (step_closing r)
  closing-Sound r held kept = record {
    balanced = network_close-Held home log r.client r.sockets held;
    kept = Kept-more log n (step_closing r) (closing-Kept r kept);
  }

  accepted-Sound :
      (r : Runtime)
      → Held home r.client r.sockets
      → Kept log n (record r { at = accepted })
      → Sound home log (suc n) (record r { at = serving; executing = true })
  accepted-Sound r held (inl durable) = record {
    balanced = held;
    kept = Kept-more log n _ (inl durable);
  }
  accepted-Sound r held (inr dead) = absurd dead.leaving

  step-Sound :
      (r : Runtime) (at : Location)
      → Sound home log n (record r { at = at })
      → Sound home log (suc n) (step cli dev (record r { at = at }) at)
  unfolding step
  step-Sound r awaiting h = awaiting-Sound r h.balanced h.kept
  step-Sound r listening h = listening-Sound r h.balanced h.kept
  step-Sound r accepted h = accepted-Sound r h.balanced h.kept
  step-Sound r serving h = serving-Sound r h.balanced h.kept
  step-Sound r (responding close response) h = responding-Sound r close response h.balanced h.kept
  step-Sound r closing h = closing-Sound r h.balanced h.kept
  step-Sound r finished h = record {
    balanced = h.balanced;
    kept = Kept-more log n (record r { at = finished }) h.kept;
  }
  step-Sound r broken h = absurd h.balanced

  advance-Sound : (r : Runtime) → Sound home log n r → Sound home log (suc n) (advance cli dev r)
  unfolding advance
  advance-Sound r h =
      elim_if (Sound home log (suc n)) dev.signal _ _
        (λ e. step-Sound (let_close r) r.at (let_close-Sound home log n r h))
        (λ e. step-Sound r r.at h)

-- From a runtime that is sound behind n requests, every run of let_run on clocks of 64 bits, while the
-- log stays below 2 ^ 63 entries and with signals at any steps, keeps in order what it works on: it
-- never reads outside an array or runs out of fuel; the file is the log with at most one entry more
-- for each step, and the account list what the log stands for, or else a fatal error has cleared both
-- flags and no client is accepted and no request is read any more; and the sockets of the process are
-- those it began with and, from its acceptance to its close, the client's.
pub let_run-Sound :
    (home : List Socket) (log : List Entry) (n : ℕ) (cli : Cli) (devs : List StepDevice)
    (r : Runtime)
    → All (λ dev. TimeFits dev.request.time_now) devs
    → length log + (n + length devs) < 2 ^ 63
    → Sound home log n r
    → Sound home log (n + length devs) (let_run cli devs r)
unfolding let_run
let_run-Sound home log n cli [] r times room h = subst (λ k. Sound home log k r) (omega arith) h
let_run-Sound home log n cli (dev ∷ devs) r (time, times) room h =
    subst (λ k. Sound home log k (let_run cli devs (advance cli dev r))) (omega arith)
      (let_run-Sound home log (suc n) cli devs (advance cli dev r) times (omega arith)
        (advance-Sound home log n cli dev (omega arith) time r h))
