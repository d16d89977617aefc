-- ===== src/Gateway/Client/Stale.antt =====
-- A counter of transactions of LetDD/tcp/client.go that is not the number of entries of LetDB.
use let_dx.Base.{
  ℕ, ◌+◌, ◌^◌, ◌<◌, ◌≡◌, ◌≢◌, refl, sym, ap, ◌∙◌, subst, true, false, List, length, arith,
}
use let_dx.Error.{error_code}
use let_dx.Result.{Result, ok}
use let_dx.Network.Response.{Response, ResponseFits}
use let_dx.Storage.Wal.{Entry}
use let_dx.Ledger.Books.{Books, serve}
use let_dx.App.{Let, RequestDevice}
use let_dx.App.Durable.{books, IsDurable}
use let_dx.App.Handling.{IsReliable, TimeFits, reading}
use let_dx.App.Machine.Session.{reply}
use let_dx.Gateway.Supervisor.{Supervisor}
use let_dx.Gateway.Request.{TcpRequest, set_id, is_wal_request}
use let_dx.Gateway.Request.Understood.{meant, TcpFits}
use let_dx.Gateway.Response.{TcpResponse}
use let_dx.Gateway.Response.Received.{received}
use let_dx.Gateway.Client.{Client, Wire, answered, aborted, finish, communicate}
use let_dx.Gateway.Client.Link.{Link, link}
use let_dx.Gateway.Client.Retry.{linked}
use let_dx.Gateway.Client.Counting.{
  Counted, entered, refused, serve-Counted, serve-stale, stays, quiet, behind, agrees, one_try,
}

entered_moves :
    (b : Books) (p : Result Response × Books) (b1 : Books) (response : Response)
    → p.0 ≡ ok response
    → b1 ≡ p.1
    → Counted b p
    → b.entries ≢ b1.entries
entered_moves b p b1 response e same (entered response' fine ok_first next) =
    λ equal. omega (arith, equal, next, ap (λ (b : Books). b.entries) same)
entered_moves b p b1 response e same (refused x refusal) = cc (e, refusal)

expires :
    (wire : Wire Link) (request : TcpRequest) (response : TcpResponse) (c : Client) (s : Link)
    → finish wire request (answered response) c (true, s) ≡ (aborted, c, s)
unfolding finish
expires wire request response c s = refl

-- While the counter is not the number of entries, every request that changes accounts is answered with an
-- error, over a connection on which nothing is lost: no account changes, and the counter is left
-- wrong, so the next such request fares no better.
pub communicate-stays_stale :
    (dev : RequestDevice) (v : Supervisor) (request : TcpRequest) (log : List Entry) (db : Let)
    (text : List ℕ) (n : ℕ)
    → IsReliable dev
    → TimeFits dev.time_now
    → IsDurable log db
    → length log + 1 < 2 ^ 63
    → TcpFits request
    → is_wal_request request ≡ true
    → n < 2 ^ 64
    → n ≢ (books db).entries
    → (code : ℕ) × (s : Link) × (communicate (link false dev) v request (linked n) (quiet db text)
        ≡ (answered (TcpResponse.error code), linked n, s))
      × (books s.database ≡ books db)
unfolding reply received
communicate-stays_stale dev v request log db text n works time h room fits numbers word other =
    let (e, answers) = serve-stale (reading dev.time_now) n request (books db) numbers other in
    let s = behind false dev v request log db text n works time h room fits numbers word in
    let told : reply (serve (reading dev.time_now) (meant (set_id n request)) (books db)).0
        ≡ Response.error e =
      ap (λ p. reply p.0) answers in
    (
      error_code e,
      s,
      one_try false dev v request log db text n works time h room fits numbers word
            (subst ResponseFits (sym told) tt)
          ∙ ap (λ r. finish (link false dev) request (answered (received r)) (linked n) (false, s))
              told
          ∙ stays (link false dev) request (error_code e) n s,
      (agrees false dev v request log db text n works time h room fits numbers word).kept
          ∙ ap (λ p. p.1) answers,
    )

-- Where the context is done once the response of a request that changes accounts has arrived, the
-- caller gets an error, though the request is applied; and the counter, which was the number of
-- entries of the books, is so no longer.
pub communicate-falls_behind :
    (dev : RequestDevice) (v : Supervisor) (request : TcpRequest) (log : List Entry) (db : Let)
    (text : List ℕ) (response : Response) (b : Books)
    → IsReliable dev
    → TimeFits dev.time_now
    → IsDurable log db
    → length log + 1 < 2 ^ 63
    → TcpFits request
    → is_wal_request request ≡ true
    → serve (reading dev.time_now) (meant (set_id (books db).entries request)) (books db)
      ≡ (ok response, b)
    → ResponseFits response
    → (s : Link) × (communicate
          (link true dev)
          v
          request
          (linked (books db).entries)
          (quiet db text)
        ≡ (aborted, linked (books db).entries, s))
      × (books s.database ≡ b)
      × ((books db).entries ≢ (books s.database).entries)
unfolding reply
communicate-falls_behind dev v request log db text response b works time h room fits numbers answers
      small_response =
    let n = (books db).entries in
    let word : n < 2 ^ 64 = omega (arith, h.counted) in
    let s = behind true dev v request log db text n works time h room fits numbers word in
    let told : reply (serve (reading dev.time_now) (meant (set_id n request)) (books db)).0
        ≡ response =
      ap (λ p. reply p.0) answers in
    let kept =
      (agrees true dev v request log db text n works time h room fits numbers word).kept
      ∙ ap (λ p. p.1) answers in
    (
      s,
      one_try true dev v request log db text n works time h room fits numbers word
            (subst ResponseFits (sym told) small_response)
          ∙ expires (link true dev) request _ (linked n) s,
      kept,
      entered_moves (books db) (ok response, b) (books s.database) response refl kept
          (subst (Counted (books db)) answers
            (serve-Counted (reading dev.time_now) n request (books db) numbers)),
    )
