-- ===== src/Gateway/Client/Retry.antt =====
-- What LetDD/tcp/client.go does about a response that does not arrive.
use let_dx.Base.{
  ℕ, suc, ◌+◌, ◌^◌, ◌<◌, ◌≤◌, ◌≡◌, ◌≢◌, refl, sym, ap, ◌∙◌, subst, Bool, true, false, Option, none,
  some, List, [], ◌∷◌, length, arith,
}
use let_dx.Result.{Result, ok}
use let_dx.Network.Request.{Request}
use let_dx.Network.Response.{Response, ResponseFits}
use let_dx.Network.Response.Encoder.Reply.{response_text}
use let_dx.Storage.Wal.{Entry}
use let_dx.Ledger.Refines.{length-map_balances}
use let_dx.Ledger.Books.{Books, serve}
use let_dx.App.{Let, RequestDevice, request_timed, request_run, let_request}
use let_dx.App.Durable.{books, IsDurable}
use let_dx.App.Work.{length-apply_log}
use let_dx.App.Handling.{IsReliable, TimeFits, reading}
use let_dx.App.Refines.{let_request-Agrees}
use let_dx.App.Machine.Session.{reply}
use let_dx.Gateway.Supervisor.{Supervisor, TryDevice, supervisor_try}
use let_dx.Gateway.Request.{TcpRequest, encode, set_id, is_wal_request}
use let_dx.Gateway.Request.Understood.{meant, TcpFits, meant-RequestFits}
use let_dx.Gateway.Response.{TcpResponse}
use let_dx.Gateway.Response.Received.{received, parse_response-text}
use let_dx.Gateway.Client.{
  Client, Wire, Outcome, answered, parse_received, on_hello, on_hello_sent, on_dialed, connect,
  on_received, on_sent, on_connected, numbered, disconnect, attempt, on_attempt, on_try, on_trial,
  try_loop, finish, communicate,
}
use let_dx.Gateway.Client.Link.{Link, handled, link, link-send}

abbrev pub linked : ℕ → Client
linked n = record { connected = true; transactions = n }

pub set_id-TcpFits : (n : ℕ) (r : TcpRequest) → n < 2 ^ 64 → TcpFits r → TcpFits (set_id n r)
unfolding set_id
set_id-TcpFits n TcpRequest.magic h fits = fits
set_id-TcpFits n (TcpRequest.add_account w c d f) h (hw, hc, hd, hf) = (h, hc, hd, hf)
set_id-TcpFits n (TcpRequest.make_transfer w s r a) h (hw, hs, hr, ha) = (h, hs, hr, ha)
set_id-TcpFits n (TcpRequest.get_account i) h fits = fits
set_id-TcpFits n TcpRequest.count_database h fits = fits
set_id-TcpFits n (TcpRequest.update_account w i f) h (hw, hi, hf) = (h, hi, hf)
set_id-TcpFits n TcpRequest.close h fits = fits

-- A count changes nothing.
counting :
    (dev : RequestDevice) (db : Let) (time : Option ℕ)
    → time ≢ none
    → request_timed dev db Request.count_database time
      ≡ (ok (Response.count_database db.account_list.length db.storage_wal.transactions), db)
unfolding request_timed request_run
counting dev db none h = absurd (h refl)
counting dev db (some now) h = refl

module _ (dev : RequestDevice) (log : List Entry) (db : Let) (h : IsDurable log db)
    (small : length log < 2 ^ 63) where
  accounts_fit : db.account_list.length < 2 ^ 64
  accounts_fit = omega (
    arith,
    h.valid.counted,
    length-map_balances db.account_list.accounts,
    ap length h.same_view,
    length-apply_log log [],
  )

  -- The handshake of a new connection learns the number of entries.
  connect-link :
      (n : ℕ) (text : List ℕ)
      → dev.time_now ≢ none
      → (text' : List ℕ) × (connect
            (link false dev)
            (record { connected = false; transactions = n })
            (record { database = db; text = text; losses = [] })
          ≡ (
            true,
            linked db.storage_wal.transactions,
            record { database = db; text = text'; losses = [] },
          ))
  unfolding connect on_dialed on_hello_sent parse_received on_hello received meant reply
  connect-link n text clock =
      let counted = counting dev db dev.time_now clock in
      let response = Response.count_database db.account_list.length db.storage_wal.transactions in
      (
        response_text response,
        ap (on_hello_sent (link false dev) (linked n)) (
              link-send false dev (record { database = db; text = text; losses = [] })
                TcpRequest.count_database tt)
            ∙ ap
                (λ answer.
                  on_hello_sent (link false dev) (linked n)
                    (true, handled (record { database = db; text = text; losses = [] }) answer))
                counted
            ∙ ap
                (λ m.
                  on_hello (link false dev) (linked n)
                    (m, record { database = db; text = response_text response; losses = [] }))
                (parse_response-text response (accounts_fit, omega (arith, h.counted))),
      )

  -- A request over a connection: where its response is lost, the database has handled it all the same.
  module _ (expired : Bool) (request : TcpRequest) (fits : TcpFits request)
      (numbers : is_wal_request request ≡ true) (n : ℕ) (word : n < 2 ^ 64) where
    abbrev pub made : Result Response × Let
    made = let_request dev db (meant (set_id n request))

    abbrev pub answered_text : List ℕ
    answered_text = response_text (reply made.0)

    sends :
        (text : List ℕ) (losses : List Bool)
        → on_connected
            (link expired dev)
            request
            (true, linked n, record { database = db; text = text; losses = losses })
          ≡ on_sent
              (link expired dev)
              (linked n)
              (true, record { database = made.1; text = answered_text; losses = losses })
    unfolding on_connected
    sends text losses =
        let same : numbered request (linked n) ≡ set_id n request = rw numbers refl in
        let s : Link = record { database = db; text = text; losses = losses } in
        ap (λ r. on_sent (link expired dev) (linked n) ((link expired dev).send (encode r) s)) same
        ∙ ap (on_sent (link expired dev) (linked n))
            (link-send expired dev s (set_id n request) (set_id-TcpFits n request word fits))

    pub arrives :
        (text : List ℕ)
        → ResponseFits (reply made.0)
        → on_connected
            (link expired dev)
            request
            (true, linked n, record { database = db; text = text; losses = [] })
          ≡ (
            some (received (reply made.0)),
            linked n,
            record { database = made.1; text = answered_text; losses = [] },
          )
    unfolding on_sent on_received parse_received
    arrives text small_response =
        let s : Link = record { database = made.1; text = answered_text; losses = [] } in
        sends text []
        ∙ ap (λ m. on_received (link expired dev) (linked n) (m, s))
            (parse_response-text (reply made.0) small_response)

    is_lost :
        (text : List ℕ)
        → attempt
            (link expired dev)
            request
            (linked n)
            (record { database = db; text = text; losses = true ∷ [] })
          ≡ (
            none,
            record { connected = false; transactions = n },
            record { database = made.1; text = answered_text; losses = [] },
          )
    unfolding attempt connect on_sent on_received parse_received disconnect
    is_lost text = sends text (true ∷ [])

abbrev pub firing : TryDevice
firing = record { done = false; fires = true }

-- One try of the loop, without and with a response.
module _ {S : Type 0} (wire : Wire S) (request : TcpRequest) (fuel : ℕ) (last : Outcome)
    (v v' : Supervisor) (c c' : Client) (s s' : S) (trial : wire.trial s ≡ (firing, s))
    (tries : supervisor_try firing v ≡ (true, v')) where
  loop_lost :
      attempt wire request c s ≡ (none, c', s')
      → try_loop wire (suc fuel) request last v c s
        ≡ try_loop wire fuel request Outcome.failed v' c' s'
  unfolding try_loop on_trial on_try on_attempt
  loop_lost e =
      let again = try_loop wire fuel request Outcome.failed in
      ap (on_trial wire again request last v c) trial
      ∙ ap (on_try wire again request last c s) tries
      ∙ ap (on_attempt wire again v') e

  pub loop_found :
      (response : TcpResponse)
      → attempt wire request c s ≡ (some response, c', s')
      → try_loop wire (suc fuel) request last v c s ≡ (answered response, c', s')
  unfolding try_loop on_trial on_try on_attempt
  loop_found response e =
      let again = try_loop wire fuel request Outcome.failed in
      ap (on_trial wire again request last v c) trial
      ∙ ap (on_try wire again request last c s) tries
      ∙ ap (on_attempt wire again v') e

-- The supervisor, before the n-th try.
abbrev pub trying : Supervisor → ℕ → Supervisor
trying v n = record v { current_try = n }

pub first_try : (v : Supervisor) → supervisor_try firing (trying v 0) ≡ (true, trying v 1)
unfolding supervisor_try
first_try v = refl

next_try :
    (v : Supervisor) → 2 ≤ v.cancel_after → supervisor_try firing (trying v 1) ≡ (true, trying v 2)
unfolding supervisor_try
next_try v h = ground arith

-- The loop, where the first of two tries fails.
second_try :
    {S : Type 0} (wire : Wire S) (v : Supervisor) (request : TcpRequest) (c c1 c2 : Client)
    (s s1 s2 : S) (response : TcpResponse)
    → ((s : S) → wire.trial s ≡ (firing, s))
    → 2 ≤ v.cancel_after
    → attempt wire request c s ≡ (none, c1, s1)
    → attempt wire request c1 s1 ≡ (some response, c2, s2)
    → try_loop wire (v.cancel_after + 2) request Outcome.idle (trying v 0) c s
      ≡ (answered response, c2, s2)
second_try {S} wire v request c c1 c2 s s1 s2 response trial allowed lost found =
    let fuel : v.cancel_after + 2 ≡ suc (suc v.cancel_after) = omega arith in
    ap (λ (f : ℕ). try_loop wire f request Outcome.idle (trying v 0) c s) fuel
    ∙ loop_lost wire request (suc v.cancel_after) Outcome.idle (trying v 0) (trying v 1) c c1 s s1
        (trial s) (first_try v) lost
    ∙ loop_found wire request v.cancel_after Outcome.failed (trying v 1) (trying v 2) c1 c2 s1 s2
        (trial s1) (next_try v allowed) response found

finish_answered :
    (dev : RequestDevice) (request : TcpRequest) (response : TcpResponse) (c : Client) (s : Link)
    → (c' : Client) × (finish (link false dev) request (answered response) c (false, s)
        ≡ (answered response, c', s))
unfolding finish
finish_answered dev request response c s = (_, refl)

-- A request that changes accounts is applied twice where its first response is lost: the second try
-- connects again, takes the new number of entries for the number of the request, and LetDB, which has logged the
-- request, logs it once more. The one answer that the caller gets is the second; the books are those
-- behind both. The supervisor allows two tries, nothing else fails, and the books answer the request
-- both times.
pub communicate-applies_twice :
    (dev : RequestDevice) (v : Supervisor) (request : TcpRequest) (log : List Entry) (db : Let)
    (text : List ℕ) (first second : Response) (b1 b2 : Books)
    → IsReliable dev
    → TimeFits dev.time_now
    → IsDurable log db
    → length log + 2 < 2 ^ 63
    → TcpFits request
    → is_wal_request request ≡ true
    → 2 ≤ v.cancel_after
    → ResponseFits second
    → serve (reading dev.time_now) (meant (set_id db.storage_wal.transactions request)) (books db)
      ≡ (ok first, b1)
    → serve (reading dev.time_now) (meant (set_id b1.entries request)) b1 ≡ (ok second, b2)
    → (c : Client) × (s : Link) × (communicate
          (link false dev)
          v
          request
          (linked db.storage_wal.transactions)
          (record { database = db; text = text; losses = true ∷ [] })
        ≡ (answered (received second), c, s))
      × (books s.database ≡ b2)
unfolding communicate
communicate-applies_twice dev v request log db text first second b1 b2 works time h room fits
      numbers allowed small_response once again =
    let n = db.storage_wal.transactions in
    let word : n < 2 ^ 64 = omega (arith, h.counted) in
    let made_first = let_request dev db (meant (set_id n request)) in
    let a =
      let_request-Agrees dev db log (meant (set_id n request)) works h (omega arith) time
        (meant-RequestFits (set_id n request) (set_id-TcpFits n request word fits)) in
    let db1 = made_first.1 in
    let m = db1.storage_wal.transactions in
    let kept1 : books db1 ≡ b1 = a.kept ∙ ap (λ p. p.1) once in
    let word1 : m < 2 ^ 64 = omega (arith, a.durable.counted, a.longer) in
    let small1 : length a.log' < 2 ^ 63 = omega (arith, a.longer) in
    let made_second = let_request dev db1 (meant (set_id m request)) in
    let promised : serve (reading dev.time_now) (meant (set_id m request)) (books db1)
        ≡ (ok second, b2) =
      subst
        (λ (b : Books).
          serve (reading dev.time_now) (meant (set_id b.entries request)) b ≡ (ok second, b2))
        (sym kept1) again in
    let a2 =
      let_request-Agrees dev db1 a.log' (meant (set_id m request)) works a.durable small1 time
        (meant-RequestFits (set_id m request) (set_id-TcpFits m request word1 fits)) in
    let told : reply made_second.0 ≡ second =
      ap reply (a2.answer ∙ ap (λ p. p.0) promised) ∙ unfold reply in refl in
    let text1 = response_text (reply made_first.0) in
    let (text2, hello) = connect-link dev a.log' db1 a.durable small1 n text1 works.clock in
    let found =
      ap (on_connected (link false dev) request) hello
      ∙ arrives dev a.log' db1 a.durable small1 false request fits numbers m word1 text2
          (subst ResponseFits (sym told) small_response) in
    let s2 : Link = record {
      database = made_second.1;
      text = response_text (reply made_second.0);
      losses = [];
    } in
    let loop =
      second_try (link false dev) v request (linked n)
        (record { connected = false; transactions = n }) (linked m)
        (record { database = db; text = text; losses = true ∷ [] })
        (record { database = db1; text = text1; losses = [] }) s2 (received (reply made_second.0))
        (λ s. refl) allowed
        (is_lost dev log db h (omega arith) false request fits numbers n word text)
        (unfold attempt in found) in
    let (c, ends) = finish_answered dev request (received (reply made_second.0)) (linked m) s2 in
    (
      c,
      s2,
      ap (λ t. finish (link false dev) request t.0 t.1 (false, t.2)) loop
          ∙ ends
          ∙ ap (λ r. (answered (received r), c, s2)) told,
      a2.kept ∙ ap (λ p. p.1) promised,
    )
