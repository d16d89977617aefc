-- ===== src/App/Machine/Shutdown.antt =====
-- A signal ends let_run of LetDB/src/let.c within a few steps, once the client sends nothing more.
use let_dx.Base.{
  ℕ, ◌-◌, ◌≤◌, ◌≡◌, ◌≢◌, refl, sym, subst, Bool, false, List, [], ◌∷◌, length, arith, if◌then◌else◌,
  All, elim_if,
}
use let_dx.Error.{
  Error, network, client_closed, server_read_timeout, server_closed, server_read_failed,
}
use let_dx.Error.Report.{Action, error_report}
use let_dx.Result.{Result, err}
use let_dx.Network.Request.{Request}
use let_dx.Network.Response.Encoder.Reply.{response_text}
use let_dx.Network.Server.{
  Receipt, received, closed, timed_out, interrupted, broken, read_loop, client_read, client_write,
}
use let_dx.Network.Server.Write.{Sent, whole, stopped, client_write_outcome}
use let_dx.Network.Server.Sockets.{Acceptance, server_accept}
use let_dx.Cli.{Cli}
use let_dx.App.Machine.Distance.{left, left-false, left-serving, at_end, begins_near}
use let_dx.App.Machine
use let_dx.App.Machine.{
  handle, write_failed, Location, Runtime, StepDevice, awaiting, listening, accepted, serving,
  closing, finished, responding, let_close, on_accept, on_error, on_request, on_write,
  serve_request, step_awaiting, step_listening, step_serving, step_responding, step, advance,
  let_run,
}

-- The socket delivers no byte: it is closed, or it fails, as it does behind a read timeout.
abbrev pub IsSilent : StepDevice → Type 0
IsSilent dev = (byte : ℕ) → dev.recv 0 ≢ received byte

-- An error behind which the connection is closed.
data Closes (m : Result Request) : Type 0 where
  ignored : (e : Error) → m ≡ err e → (error_report e).action ≡ Action.ignore → Closes m
  closed_by : (e : Error) → m ≡ err e → (error_report e).action ≡ Action.close → Closes m

silent_receipt :
    (recv : ℕ → Receipt) (answer : Receipt)
    → recv 0 ≡ answer
    → ((byte : ℕ) → recv 0 ≢ received byte)
    → Closes (client_read recv)
unfolding client_read read_loop error_report
silent_receipt recv (received byte) same silent = absurd (silent byte same)
silent_receipt recv closed same silent = ignored (network client_closed) (rw same refl) refl
silent_receipt recv timed_out same silent =
    closed_by (network server_read_timeout) (rw same refl) refl
silent_receipt recv interrupted same silent = ignored (network server_closed) (rw same refl) refl
silent_receipt recv broken same silent = closed_by (network server_read_failed) (rw same refl) refl

-- No client is accepted any more, and the end is near.
record Quiet (k : ℕ) (r : Runtime) : Type 0 where
  accepting : r.accepting ≡ false
  near : left r.at r.executing ≤ k

-- A signal brings the end no further away.
let_close-Quiet : (k : ℕ) (r : Runtime) → Quiet k r → Quiet k (let_close r)
let_close-Quiet k r h = record {
  accepting = refl;
  near = omega (arith, left-false r.at r.executing, h.near);
}

module _ (k : ℕ) (small : k ≤ 6) (cli : Cli) (dev : StepDevice) where
  -- The end of the loop over connections.
  awaiting-Quiet : (r : Runtime) → r.accepting ≡ false → Quiet (k - 1) (step_awaiting r)
  unfolding left
  awaiting-Quiet r stopped_accepting = record {
    accepting = stopped_accepting;
    near =
        subst (λ b. left (if b then listening else finished) r.executing ≤ k - 1)
          (sym stopped_accepting) (omega arith);
  }

  on_accept-Quiet :
      (r : Runtime) (answer : Acceptance)
      → r.accepting ≡ false
      → 6 ≤ k
      → Quiet
          (k - 1)
          (on_accept r (server_accept answer cli.read_timeout cli.write_timeout r.client r.sockets))
  unfolding on_accept server_accept left
  on_accept-Quiet r (Acceptance.accepted fd) h far = record { accepting = h; near = omega arith }
  on_accept-Quiet r Acceptance.interrupted h far = record { accepting = h; near = omega arith }
  on_accept-Quiet r Acceptance.failed h far = record { accepting = h; near = omega arith }

  -- Nothing is read.
  serve_request-Quiet :
      (r : Runtime) (m : Result Request)
      → Closes m
      → r.accepting ≡ false
      → 4 ≤ k
      → Quiet (k - 1) (serve_request dev r m)
  unfolding handle on_request on_error left
  serve_request-Quiet r m (ignored e same act) h far =
      rw same (rw act (record { accepting = h; near = omega arith }))
  serve_request-Quiet r m (closed_by e same act) h far =
      rw same (rw act (record { accepting = h; near = omega arith }))

  serving-Quiet :
      (r : Runtime)
      → r.accepting ≡ false
      → IsSilent dev
      → left serving r.executing ≤ k
      → Quiet (k - 1) (step_serving dev r)
  unfolding left
  serving-Quiet r h silent far =
      elim_if (Quiet (k - 1)) r.executing _ _
        (λ e.
          serve_request-Quiet r (client_read dev.recv)
            (silent_receipt dev.recv (dev.recv 0) refl silent) h
            (subst (λ b. left serving b ≤ k) e far))
        (λ e. record { accepting = h; near = omega (arith, subst (λ b. left serving b ≤ k) e far) })

  write_failed-accepting :
      (accepting : Bool) (act : Action) → accepting ≡ false → (write_failed accepting act).0 ≡ false
  unfolding write_failed
  write_failed-accepting accepting Action.none h = h
  write_failed-accepting accepting Action.reject h = h
  write_failed-accepting accepting Action.ignore h = h
  write_failed-accepting accepting Action.close h = h
  write_failed-accepting accepting Action.fatal h = refl

  -- A response is written, or not.
  on_write-Quiet :
      (is_last : Bool) (r : Runtime) (text : List ℕ) (x : Result (Unit {0}) × List ℕ)
      → Sent text x
      → r.accepting ≡ false
      → 5 ≤ k
      → Quiet (k - 1) (on_write is_last r x)
  unfolding on_write
  on_write-Quiet is_last r text x (whole same) h far = rw same (record {
    accepting = h;
    near = omega (arith, left-serving (if is_last then false else r.executing));
  })
  on_write-Quiet is_last r text x (stopped n e act same) h far = rw same (record {
    accepting = write_failed-accepting r.accepting (error_report e).action h;
    near = omega (arith, left-serving (write_failed r.accepting (error_report e).action).1);
  })

  step-Quiet :
      (r : Runtime) (at : Location)
      → r.accepting ≡ false
      → left at r.executing ≤ k
      → IsSilent dev
      → Quiet (k - 1) (step cli dev (record r { at = at }) at)
  unfolding step left
  step-Quiet r awaiting h near silent = awaiting-Quiet r h
  step-Quiet r listening h near silent = on_accept-Quiet r dev.accept h near
  step-Quiet r accepted h near silent = record { accepting = h; near = omega (arith, near) }
  step-Quiet r serving h near silent = serving-Quiet r h silent near
  step-Quiet r (responding is_last response) h near silent =
      on_write-Quiet is_last r (response_text response) (client_write dev.send response)
        (client_write_outcome dev.send response) h near
  step-Quiet r closing h near silent = record { accepting = h; near = omega (arith, near) }
  step-Quiet r finished h near silent = record { accepting = h; near = omega arith }
  step-Quiet r Machine.broken h near silent = absurd (omega (arith, near))

  advance-Quiet : (r : Runtime) → Quiet k r → IsSilent dev → Quiet (k - 1) (advance cli dev r)
  unfolding advance
  advance-Quiet r h silent =
      elim_if (Quiet (k - 1)) dev.signal _ _
        (λ e.
          let cleared = let_close-Quiet k r h in
          step-Quiet (let_close r) r.at cleared.accepting cleared.near silent)
        (λ e. step-Quiet r r.at h.accepting h.near silent)

let_run-Quiet :
    (k : ℕ) (cli : Cli) (devs : List StepDevice) (r : Runtime)
    → k ≤ 6
    → All IsSilent devs
    → Quiet k r
    → Quiet (k - length devs) (let_run cli devs r)
unfolding let_run
let_run-Quiet k cli [] r small silent h = subst (λ m. Quiet m r) (omega arith) h
let_run-Quiet k cli (dev ∷ devs) r small (now, later) h =
    subst (λ m. Quiet m (let_run cli devs (advance cli dev r))) (omega arith)
      (let_run-Quiet (k - 1) cli devs (advance cli dev r) (omega arith) later
        (advance-Quiet k small cli dev r h now))

-- Wherever let_run stands once `accepting` is cleared, which let_close does, six steps at which the
-- client's socket delivers no byte (it is closed, or the read times out, fails or is interrupted) bring
-- it to its end, whatever else the system answers and whatever signals arrive.
pub let_run-shutdown :
    (cli : Cli) (devs : List StepDevice) (r : Runtime)
    → r.accepting ≡ false
    → r.at ≢ Machine.broken
    → All IsSilent devs
    → 6 ≤ length devs
    → (let_run cli devs r).at ≡ finished
let_run-shutdown cli devs r stopped_accepting whole_run silent enough =
    let h =
      let_run-Quiet 6 cli devs r (omega arith) silent
        (record { accepting = stopped_accepting; near = begins_near r.at r.executing whole_run }) in
    at_end (let_run cli devs r).at (let_run cli devs r).executing (omega (arith, h.near))
