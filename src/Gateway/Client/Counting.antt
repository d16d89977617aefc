-- ===== src/Gateway/Client/Counting.antt =====
-- The counter of transactions of LetDD/tcp/client.go against the number of entries of LetDB.
use let_dx.Base.{
  ℕ, suc, ◌+◌, ◌%◌, ◌^◌, ◌<◌, ◌≡◌, ◌≢◌, inl, inr, refl, sym, ap, ◌∙◌, subst, Bool, true, false,
  Option, none, some, List, [], length, arith, ◌==◌, Bool-cases, ne→==_false,
}
use let_dx.Error.{Error, error_code, storage, wal_nonce_mismatch}
use let_dx.Result.{Result, ok, err}
use let_dx.Network.Response.{Response, ResponseFits}
use let_dx.Network.Response.Encoder.Reply.{response_text}
use let_dx.Storage.Wal.{Entry, EntryData}
use let_dx.Ledger.Books.{Books, enter, serve}
use let_dx.App.{Let, RequestDevice, let_request}
use let_dx.App.Durable.{books, IsDurable}
use let_dx.App.Handling.{IsReliable, TimeFits, reading}
use let_dx.App.Refines.{Agrees, let_request-Agrees}
use let_dx.App.Machine.Session.{reply}
use let_dx.Gateway.Supervisor.{Supervisor}
use let_dx.Gateway.Request.{TcpRequest, set_id, is_wal_request}
use let_dx.Gateway.Request.Understood.{meant, TcpFits, meant-RequestFits}
use let_dx.Gateway.Response.{TcpResponse}
use let_dx.Gateway.Response.Received.{received}
use let_dx.Gateway.Client.{
  Wire, Outcome, answered, connect, attempt, is_error, try_loop, finish, communicate,
}
use let_dx.Gateway.Client.Link.{Link, link}
use let_dx.Gateway.Client.Retry.{linked, set_id-TcpFits, arrives, trying, first_try, loop_found}

-- What the books answer to a change: it is entered, or it is refused and nothing changes.
pub data Counted (b : Books) (p : Result Response × Books) : Type 0 where
  entered :
      (response : Response)
      → is_error (received response) ≡ false
      → p.0 ≡ ok response
      → p.1.entries ≡ b.entries + 1
      → Counted b p
  refused : (e : Error) → p ≡ (err e, b) → Counted b p

enter-Counted :
    (refusal : Option Error) (now id : ℕ) (change : EntryData) (response : Response) (b : Books)
    → is_error (received response) ≡ false
    → Counted b (enter refusal now id change response b)
unfolding enter
enter-Counted (some e) now id change response b h = refused e refl
enter-Counted none now id change response b h = elim (Bool-cases (id == b.entries)) [
  | inl next ↦ rw next (entered response h refl refl)
  | inr other ↦ rw other (refused (storage wal_nonce_mismatch) refl)
]

pub serve-Counted :
    (now n : ℕ) (request : TcpRequest) (b : Books)
    → is_wal_request request ≡ true
    → Counted b (serve now (meant (set_id n request)) b)
unfolding serve meant set_id received
serve-Counted now n TcpRequest.magic b h = cc
serve-Counted now n (TcpRequest.add_account w c d f) b h = enter-Counted none now n _ _ b refl
serve-Counted now n (TcpRequest.make_transfer w s r a) b h = enter-Counted _ now n _ _ b refl
serve-Counted now n (TcpRequest.get_account i) b h = cc
serve-Counted now n TcpRequest.count_database b h = cc
serve-Counted now n (TcpRequest.update_account w i f) b h = enter-Counted _ now n _ _ b refl
serve-Counted now n TcpRequest.close b h = cc

-- A change with another number than the next is refused.
enter-stale :
    (refusal : Option Error) (now id : ℕ) (change : EntryData) (response : Response) (b : Books)
    → id ≢ b.entries
    → (e : Error) × (enter refusal now id change response b ≡ (err e, b))
unfolding enter
enter-stale (some e) now id change response b h = (e, refl)
enter-stale none now id change response b h =
    (storage wal_nonce_mismatch, rw (ne→==_false id b.entries h) refl)

pub serve-stale :
    (now n : ℕ) (request : TcpRequest) (b : Books)
    → is_wal_request request ≡ true
    → n ≢ b.entries
    → (e : Error) × (serve now (meant (set_id n request)) b ≡ (err e, b))
unfolding serve meant set_id
serve-stale now n TcpRequest.magic b h other = cc
serve-stale now n (TcpRequest.add_account w c d f) b h other = enter-stale none now n _ _ b other
serve-stale now n (TcpRequest.make_transfer w s r a) b h other = enter-stale _ now n _ _ b other
serve-stale now n (TcpRequest.get_account i) b h other = cc
serve-stale now n TcpRequest.count_database b h other = cc
serve-stale now n (TcpRequest.update_account w i f) b h other = enter-stale _ now n _ _ b other
serve-stale now n TcpRequest.close b h other = cc

abbrev pub quiet : Let → List ℕ → Link
quiet db text = record { database = db; text = text; losses = [] }

-- One try over a connection, and the way out of Communicate.
module _ (expired : Bool) (dev : RequestDevice) (v : Supervisor) (request : TcpRequest)
    (log : List Entry) (db : Let) (text : List ℕ) (n : ℕ) (works : IsReliable dev)
    (time : TimeFits dev.time_now) (h : IsDurable log db) (room : length log + 1 < 2 ^ 63)
    (fits : TcpFits request) (numbers : is_wal_request request ≡ true) (word : n < 2 ^ 64) where
  abbrev pub promised : Result Response × Books
  promised = serve (reading dev.time_now) (meant (set_id n request)) (books db)

  pub agrees : Agrees log promised (let_request dev db (meant (set_id n request)))
  agrees =
      let_request-Agrees dev db log (meant (set_id n request)) works h (omega arith) time
        (meant-RequestFits (set_id n request) (set_id-TcpFits n request word fits))

  abbrev pub behind : Link
  behind = record {
    database = (let_request dev db (meant (set_id n request))).1;
    text = response_text (reply (let_request dev db (meant (set_id n request))).0);
    losses = [];
  }

  pub one_try :
      ResponseFits (reply promised.0)
      → communicate (link expired dev) v request (linked n) (quiet db text)
        ≡ finish
            (link expired dev)
            request
            (answered (received (reply promised.0)))
            (linked n)
            (expired, behind)
  unfolding communicate
  one_try small_response =
      let told : reply (let_request dev db (meant (set_id n request))).0 ≡ reply promised.0 =
        ap reply agrees.answer in
      let fuel : v.cancel_after + 2 ≡ suc (v.cancel_after + 1) = omega arith in
      let found =
        arrives dev log db h (omega arith) expired request fits numbers n word text
          (subst ResponseFits (sym told) small_response) in
      let loop =
        ap
          (λ (f : ℕ).
            try_loop (link expired dev) f request Outcome.idle (trying v 0) (linked n)
              (quiet db text))
          fuel
        ∙ loop_found (link expired dev) request (v.cancel_after + 1) Outcome.idle (trying v 0)
            (trying v 1) (linked n) (linked n) (quiet db text) behind refl (first_try v) _
            (unfold attempt connect in found) in
      ap (λ t. finish (link expired dev) request t.0 t.1 (expired, t.2)) loop
      ∙ ap
          (λ r.
            finish (link expired dev) request (answered (received r)) (linked n) (expired, behind))
          told

-- The counter behind an answer.
counts_up :
    (wire : Wire Link) (request : TcpRequest) (response : TcpResponse) (n m : ℕ) (s : Link)
    → is_wal_request request ≡ true
    → is_error response ≡ false
    → n < 2 ^ 63
    → m ≡ n + 1
    → finish wire request (answered response) (linked n) (false, s)
      ≡ (answered response, linked m, s)
unfolding finish
counts_up wire request response n m s numbers fine room next =
    let sum : (n + 1) % 2 ^ 64 ≡ m = omega arith in
    rw (numbers, fine) (ap (λ (k : ℕ). (answered response, linked k, s)) sum)

pub stays :
    (wire : Wire Link) (request : TcpRequest) (code n : ℕ) (s : Link)
    → finish wire request (answered (TcpResponse.error code)) (linked n) (false, s)
      ≡ (answered (TcpResponse.error code), linked n, s)
unfolding finish
stays wire request code n s = ground arith

finish-Counted :
    (wire : Wire Link) (request : TcpRequest) (b b1 : Books) (m : Result Response) (s : Link)
    → is_wal_request request ≡ true
    → b.entries < 2 ^ 63
    → Counted b (m, b1)
    → finish wire request (answered (received (reply m))) (linked b.entries) (false, s)
      ≡ (answered (received (reply m)), linked b1.entries, s)
unfolding reply received
finish-Counted wire request b b1 m s numbers room (entered response fine ok_first next) =
    let told : reply m ≡ response = ap reply ok_first in
    counts_up wire request (received (reply m)) b.entries b1.entries s numbers
      (ap (λ r. is_error (received r)) told ∙ fine) room next
finish-Counted wire request b b1 m s numbers room (refused e same) =
    let told : reply m ≡ Response.error e = ap (λ p. reply p.0) same in
    let entries : b.entries ≡ b1.entries = sym (ap (λ p. p.1.entries) same) in
    ap (λ r. finish wire request (answered (received r)) (linked b.entries) (false, s)) told
    ∙ stays wire request (error_code e) b.entries s
    ∙ ap (λ r. (answered (received r), linked b.entries, s)) (sym told)
    ∙ ap (λ (k : ℕ). (answered (received (reply m)), linked k, s)) entries

-- While the counter is the number of entries of the books, a request that changes accounts, sent over a
-- connection on which nothing is lost, is answered with what the books promise, an error
-- or a response, and applied once; and the counter is the new number of entries.
pub communicate-counts :
    (dev : RequestDevice) (v : Supervisor) (request : TcpRequest) (log : List Entry) (db : Let)
    (text : List ℕ) (m : Result Response) (b : Books)
    → IsReliable dev
    → TimeFits dev.time_now
    → IsDurable log db
    → length log + 1 < 2 ^ 63
    → TcpFits request
    → is_wal_request request ≡ true
    → serve (reading dev.time_now) (meant (set_id (books db).entries request)) (books db) ≡ (m, b)
    → ResponseFits (reply m)
    → (s : Link) × (communicate
          (link false dev)
          v
          request
          (linked (books db).entries)
          (quiet db text)
        ≡ (answered (received (reply m)), linked b.entries, s))
      × (books s.database ≡ b)
communicate-counts dev v request log db text m b works time h room fits numbers answers
      small_response =
    let n = (books db).entries in
    let word : n < 2 ^ 64 = omega (arith, h.counted) in
    let s = behind false dev v request log db text n works time h room fits numbers word in
    let told = ap (λ p. reply p.0) answers in
    (
      s,
      one_try false dev v request log db text n works time h room fits numbers word
            (subst ResponseFits (sym told) small_response)
          ∙ ap (λ r. finish (link false dev) request (answered (received r)) (linked n) (false, s))
              told
          ∙ finish-Counted (link false dev) request (books db) b m s numbers
              (omega (arith, h.counted))
              (subst (Counted (books db)) answers
                (serve-Counted (reading dev.time_now) n request (books db) numbers)),
      (agrees false dev v request log db text n works time h room fits numbers word).kept
          ∙ ap (λ p. p.1) answers,
    )
