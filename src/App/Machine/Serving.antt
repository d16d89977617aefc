-- ===== src/App/Machine/Serving.antt =====
-- What a client gets from let_run of LetDB/src/let.c for the lines that it sends.
use let_dx.Base.{
  ℕ, ◌<◌, ◌≡◌, refl, ap, ◌∙◌, Bool, true, false, List, [], ◌∷◌, ◌++◌, length, if◌then◌else◌,
}
use let_dx.Error.{Error}
use let_dx.Error.Report.{Action, reject, error_report}
use let_dx.Result.{Result, ok, err}
use let_dx.Network.Request.{Request}
use let_dx.Network.Request.Decoder.{request_decode}
use let_dx.Network.Response.{Response}
use let_dx.Network.Response.Encoder.Reply.{response_text}
use let_dx.Network.Server.{client_read, client_write}
use let_dx.Network.Server.Read.{delivers, NoNewline, client_read_line}
use let_dx.Network.Server.Write.{IsWilling, client_write-willing}
use let_dx.Cli.{Cli}
use let_dx.App.{Let, let_request}
use let_dx.App.Machine.{
  Runtime, StepDevice, serving, responding, handle, is_close, on_error, on_request, on_write,
  write_failed, step, advance, let_run,
}

-- A client is served, and no signal has arrived.
abbrev pub in_service : Runtime → Runtime
in_service r = record r { at = serving; executing = true }

-- The step that reads a request and handles it.
reading_step :
    (cli : Cli) (dev : StepDevice) (r : Runtime) (m : Result Request)
    → dev.signal ≡ false
    → client_read dev.recv ≡ m
    → advance cli dev (in_service r)
      ≡ on_request (is_close m) (in_service r) (handle dev.request r.database m)
unfolding advance step
reading_step cli dev r m unsignalled read = rw unsignalled (rw read refl)

-- The step that writes a response to a socket that takes it.
writing_step :
    (cli : Cli) (dev : StepDevice) (r : Runtime) (close : Bool) (response : Response)
    → dev.signal ≡ false
    → IsWilling dev.send
    → advance cli dev (record r { at = responding close response }) ≡ record r {
      at = serving;
      error = Error.none;
      executing = if close then false else r.executing;
      taken = r.taken ++ response_text response;
    }
unfolding advance step on_write
writing_step cli dev r close response unsignalled willing =
    rw unsignalled (rw (client_write-willing dev.send response willing) refl)

-- A line of less than 128 bytes before its newline, whatever the client sends behind it.
abbrev pub IsLine : List ℕ → StepDevice → Type 0
IsLine text dev =
    NoNewline text
    × (length text < 128)
    × ((rest : List ℕ) × (dev.recv ≡ delivers (text ++ (10 ∷ rest))))

read_line :
    (text : List ℕ) (dev : StepDevice)
    → IsLine text dev
    → client_read dev.recv ≡ request_decode (text ++ (b' ' ∷ []))
read_line text dev (h, fits, (rest, delivered)) =
    ap client_read delivered ∙ client_read_line text rest h fits

-- While a client is served: a line that the decoder accepts, whose request let_request answers, is
-- answered within two steps without a signal, on a socket that takes some bytes whenever it is given
-- some: the client has the text of the response, the database is what let_request made of it, and the
-- client is served on, unless the request was to close the connection.
pub let_run-answers :
    (cli : Cli) (reads writes : StepDevice) (r : Runtime) (text : List ℕ) (request : Request)
    (response : Response) (db : Let)
    → reads.signal ≡ false
    → writes.signal ≡ false
    → IsLine text reads
    → IsWilling writes.send
    → request_decode (text ++ (b' ' ∷ [])) ≡ ok request
    → let_request reads.request r.database request ≡ (ok response, db)
    → let_run cli (reads ∷ writes ∷ []) (in_service r) ≡ record r {
      at = serving;
      error = Error.none;
      executing = if is_close (ok request) then false else true;
      database = db;
      taken = r.taken ++ response_text response;
    }
unfolding let_run on_request handle
let_run-answers cli reads writes r text request response db calm still line willing decoded
      answers =
    ap (advance cli writes) (
      reading_step cli reads r (ok request) calm (read_line text reads line ∙ decoded)
      ∙ ap (on_request (is_close (ok request)) (in_service r)) answers)
    ∙ writing_step cli writes (record (in_service r) { error = Error.none; database = db })
        (is_close (ok request)) response still willing

-- While a client is served: a line that the decoder refuses, or whose request let_request rejects, is
-- answered in the same two steps with the code of the error; the database is left as let_request left
-- it, and the client is served on.
pub let_run-rejects :
    (cli : Cli) (reads writes : StepDevice) (r : Runtime) (text : List ℕ) (m : Result Request)
    (e : Error) (db : Let)
    → reads.signal ≡ false
    → writes.signal ≡ false
    → IsLine text reads
    → IsWilling writes.send
    → request_decode (text ++ (b' ' ∷ [])) ≡ m
    → handle reads.request r.database m ≡ (err e, db)
    → (error_report e).action ≡ reject
    → let_run cli (reads ∷ writes ∷ []) (in_service r) ≡ record r {
      at = serving;
      error = Error.none;
      executing = if is_close m then false else true;
      database = db;
      taken = r.taken ++ response_text (Response.error e);
    }
unfolding let_run on_request on_error
let_run-rejects cli reads writes r text m e db calm still line willing decoded fails act =
    ap (advance cli writes) (
      reading_step cli reads r m calm (read_line text reads line ∙ decoded)
      ∙ ap (on_request (is_close m) (in_service r)) fails
      ∙ ap (on_error (is_close m) (record (in_service r) { database = db }) e) act)
    ∙ writing_step cli writes (record (in_service r) { error = Error.none; database = db })
        (is_close m) (Response.error e) still willing

-- The step that writes a response, where a signal arrives before it and the write fails with an error
-- to be ignored.
failed_writing_step :
    (cli : Cli) (dev : StepDevice) (r : Runtime) (close : Bool) (response : Response) (e : Error)
    (taken : List ℕ)
    → dev.signal ≡ true
    → client_write dev.send response ≡ (err e, taken)
    → (error_report e).action ≡ Action.ignore
    → advance cli dev (record r { at = responding close response })
      ≡ in_service (record r { accepting = false; error = e; taken = r.taken ++ taken })
unfolding advance step on_write write_failed
failed_writing_step cli dev r close response e taken arrives fails act =
    rw arrives (rw fails (rw act refl))

-- Where a signal interrupts the write of a response, so that it fails with an error to be ignored, the
-- client is served on: its next line, which the decoder accepts and whose request let_request answers,
-- changes the database as ever and is answered on a socket that takes some bytes whenever it is given
-- some. Only `accepting` stays cleared; `executing` is set, unless this request was to close the
-- connection, so let_run does not come to its end for the signal.
pub let_run-serves_on :
    (cli : Cli) (stopped reads writes : StepDevice) (r : Runtime) (close : Bool)
    (lost response : Response) (e : Error) (taken text : List ℕ) (request : Request) (db : Let)
    → stopped.signal ≡ true
    → client_write stopped.send lost ≡ (err e, taken)
    → (error_report e).action ≡ Action.ignore
    → reads.signal ≡ false
    → writes.signal ≡ false
    → IsLine text reads
    → IsWilling writes.send
    → request_decode (text ++ (b' ' ∷ [])) ≡ ok request
    → let_request reads.request r.database request ≡ (ok response, db)
    → let_run cli (stopped ∷ reads ∷ writes ∷ []) (record r { at = responding close lost })
      ≡ record r {
        at = serving;
        accepting = false;
        error = Error.none;
        executing = if is_close (ok request) then false else true;
        database = db;
        taken = (r.taken ++ taken) ++ response_text response;
      }
unfolding let_run
let_run-serves_on cli stopped reads writes r close lost response e taken text request db arrives
      fails act calm still line willing decoded answers =
    ap (let_run cli (reads ∷ writes ∷ []))
      (failed_writing_step cli stopped r close lost e taken arrives fails act)
    ∙ let_run-answers cli reads writes
        (record r { accepting = false; error = e; taken = r.taken ++ taken }) text request response
        db calm still line willing decoded answers
