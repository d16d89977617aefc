-- ===== src/App/Machine/Session.antt =====
-- A connection of LetDD to let_run of LetDB/src/let.c: the requests that are sent one after the other.
use let_dx.Base.{
  ℕ, ◌+◌, ◌^◌, ◌<◌, ◌≡◌, ◌≢◌, refl, sym, ap, ◌∙◌, Bool, true, false, List, [], ◌∷◌, ◌++◌,
  append-nil, append_assoc, length, All, arith, if◌then◌else◌,
}
use let_dx.Error.{Error}
use let_dx.Error.Report.{reject, error_report}
use let_dx.Result.{Result, ok, err, stuck}
use let_dx.Network.Response.{Response, response_empty}
use let_dx.Network.Response.Encoder.Reply.{response_text}
use let_dx.Network.Server.Read.{delivers}
use let_dx.Network.Server.Write.{IsWilling}
use let_dx.Storage.Wal.{Entry}
use let_dx.Cli.{Cli}
use let_dx.Ledger.Books.{Books, serve}
use let_dx.App.{Let, let_request}
use let_dx.App.Durable.{books, IsDurable}
use let_dx.App.Handling.{IsReliable, TimeFits, reading}
use let_dx.App.Refines.{let_request-Agrees}
use let_dx.App.Machine.{Runtime, StepDevice, serving, handle, is_close, let_run}
use let_dx.App.Machine.Serving.{IsLine, let_run-answers, let_run-rejects}
use let_dx.Gateway.Request.{TcpRequest, encode}
use let_dx.Gateway.Request.Understood.{
  meant, TcpFits, meant-RequestFits, body, encode-body, encode-IsLine, decode-body,
}

-- One request of the connection, and what the system answers while it is read and handled, and while
-- its response is written.
pub record Turn : Type 0 where
  pub request : TcpRequest
  pub reads : StepDevice
  pub writes : StepDevice

-- The request is not the one to close the connection; its bytes have arrived, others may be behind
-- them; no signal arrives, and no call of the system fails.
pub record IsCalm (t : Turn) : Type 0 where
  pub fits : TcpFits t.request
  pub stays : is_close (ok (meant t.request)) ≡ false
  pub read_unsignalled : t.reads.signal ≡ false
  pub write_unsignalled : t.writes.signal ≡ false
  pub behind : List ℕ
  pub delivered : t.reads.recv ≡ delivers (encode t.request ++ behind)
  pub willing : IsWilling t.writes.send
  pub reliable : IsReliable t.reads.request
  pub time : TimeFits t.reads.request.time_now

abbrev pub devices : List Turn → List StepDevice
devices [] = []
devices (t ∷ turns) = t.reads ∷ t.writes ∷ devices turns

-- A client is served, and its last request left no error.
abbrev pub served : Runtime → Runtime
served r = record r { at = serving; executing = true; error = Error.none }

-- The response that tells an answer.
unfoldable pub reply : Result Response → Response
reply (ok response) = response
reply (err e) = Response.error e
reply stuck = response_empty

-- What the books promise for the requests, in their order: the bytes that the client gets.
unfoldable pub converse : List Turn → Books → List ℕ × Books
converse [] b = ([], b)
converse (t ∷ turns) b =
    let answered = serve (reading t.reads.request.time_now) (meant t.request) b in
    let rest = converse turns answered.1 in (response_text (reply answered.0) ++ rest.0, rest.1)

calm-IsLine : (t : Turn) → IsCalm t → IsLine (body (meant t.request)) t.reads
calm-IsLine t calm =
    let (plain, short) = encode-IsLine t.request calm.fits in
    (
      plain,
      short,
      (calm.behind, calm.delivered ∙ ap delivers (encode-body t.request calm.behind calm.fits)),
    )

-- Behind one turn.
abbrev behind_turn : Runtime → Let → Response → Runtime
behind_turn r db response = record (served r) {
  database = db;
  taken = r.taken ++ response_text response;
}

kept_open :
    (r : Runtime) (db : Let) (response : Response) (close : Bool)
    → close ≡ false
    → ◌≡◌ {A = Runtime}
        (record r {
          at = serving;
          error = Error.none;
          executing = if close then false else true;
          database = db;
          taken = r.taken ++ response_text response;
        })
        (behind_turn r db response)
kept_open r db response close h = rw h refl

turn_lem :
    (cli : Cli) (t : Turn) (r : Runtime) (m : Result Response) (db : Let)
    → IsCalm t
    → let_request t.reads.request r.database (meant t.request) ≡ (m, db)
    → ((x : Error) → m ≡ err x → (error_report x).action ≡ reject)
    → m ≢ stuck
    → let_run cli (t.reads ∷ t.writes ∷ []) (served r) ≡ behind_turn r db (reply m)
unfolding reply
turn_lem cli t r (ok response) db calm same alive answers =
    let_run-answers cli t.reads t.writes (served r) (body (meant t.request)) (meant t.request)
      response db calm.read_unsignalled calm.write_unsignalled (calm-IsLine t calm) calm.willing
      (decode-body t.request calm.fits) same
    ∙ kept_open r db response (is_close (ok (meant t.request))) calm.stays
turn_lem cli t r (err e) db calm same alive answers =
    let_run-rejects cli t.reads t.writes (served r) (body (meant t.request)) (ok (meant t.request))
      e db calm.read_unsignalled calm.write_unsignalled (calm-IsLine t calm) calm.willing
      (decode-body t.request calm.fits) (unfold handle in same) (alive e refl)
    ∙ kept_open r db (Response.error e) (is_close (ok (meant t.request))) calm.stays
turn_lem cli t r stuck db calm same alive answers = absurd (answers refl)

-- Where nothing fails, and no signal arrives: the requests of a connection are answered one after the
-- other, each with what the books promise, and the client gets the texts of the responses in the
-- order of its requests; behind them the client is served on, the books are the promised books, and
-- the file is a log that stands for them. The log stays below 2 ^ 63 entries.
pub let_run-converses :
    (cli : Cli) (turns : List Turn) (r : Runtime) (log : List Entry)
    → All IsCalm turns
    → IsDurable log r.database
    → length log + length turns < 2 ^ 63
    → (db : Let) × (log' : List Entry) × IsDurable log' db
      × (books db ≡ (converse turns (books r.database)).1)
      × (let_run cli (devices turns) (served r) ≡ record (served r) {
        database = db;
        taken = r.taken ++ (converse turns (books r.database)).0;
      })
unfolding converse let_run
let_run-converses cli [] r log calm h room =
    (r.database, log, h, refl, ap (λ t. record (served r) { taken = t }) (sym (append-nil r.taken)))
let_run-converses cli (t ∷ turns) r log (calm, calms) h room =
    let dev = t.reads.request in
    let request = meant t.request in
    let db1 = (let_request dev r.database request).1 in
    let promised = serve (reading dev.time_now) request (books r.database) in
    let a =
      let_request-Agrees dev r.database log request calm.reliable h (omega arith) calm.time
        (meant-RequestFits t.request calm.fits) in
    let next = behind_turn r db1 (reply (let_request dev r.database request).0) in
    let first =
      turn_lem cli t r (let_request dev r.database request).0 db1 calm refl a.alive a.answers in
    let (db, log', durable, kept, runs) =
      let_run-converses cli turns next a.log' calms a.durable (omega (arith, a.longer)) in
    (
      db,
      log',
      durable,
      kept ∙ ap (λ b. (converse turns b).1) a.kept,
      ap (let_run cli (devices turns)) first
          ∙ runs
          ∙ ap (λ t. record (served r) { database = db; taken = t })
              (append_assoc r.taken (response_text (reply (let_request dev r.database request).0))
                  (converse turns (books db1)).0
                ∙ ap (λ m. r.taken ++ (response_text (reply m) ++ (converse turns (books db1)).0))
                    a.answer
                ∙ ap (λ b. r.taken ++ (response_text (reply promised.0) ++ (converse turns b).0))
                    a.kept),
    )
