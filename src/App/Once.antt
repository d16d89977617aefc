-- ===== src/App/Once.antt =====
-- A request of LetDB/src/let.c that is sent again is not applied again.
use let_dx.Base.{
  ℕ, ◌+◌, ◌^◌, ◌<◌, ◌≡◌, sym, ap, ◌∙◌, subst, some, List, [], ◌∷◌, ◌++◌, length, length-append,
  arith,
}
use let_dx.Result.{ok}
use let_dx.Network.Request.{Request, RequestFits}
use let_dx.Network.Response.{Response}
use let_dx.Storage.Wal.{Entry, entry_new}
use let_dx.App.{Let, RequestDevice, let_request}
use let_dx.App.Durable.{IsDurable, Handled, entry_of, answered, rejected, logged, died}
use let_dx.App.Restart.{Served, Served-IsDurable}
use let_dx.App.Handling.{IsReliable, TimeFits, reading, let_request_outcome}

-- The entries of a request carry the id that the client gave, whatever the time.
entry_of-id :
    (now later : ℕ) (request : Request) (e e' : Entry)
    → entry_of now request ≡ some e
    → entry_of later request ≡ some e'
    → e.id ≡ e'.id
unfolding entry_of entry_new
entry_of-id now later Request.magic e e' h k = cc (h)
entry_of-id now later (Request.add_account w c d f) e e' h k = cc (h, k)
entry_of-id now later (Request.make_transfer w s r a) e e' h k = cc (h, k)
entry_of-id now later (Request.get_account i) e e' h k = cc (h)
entry_of-id now later Request.count_database e e' h k = cc (h)
entry_of-id now later (Request.update_account w i f) e e' h k = cc (h, k)
entry_of-id now later Request.close e e' h k = cc (h)

-- A request with the id of an entry that the log has already changes no account.
again :
    (dev : RequestDevice) (db : Let) (log : List Entry) (request : Request) (e : Entry) (now : ℕ)
    → IsDurable log db
    → length log < 2 ^ 63
    → TimeFits dev.time_now
    → RequestFits request
    → entry_of now request ≡ some e
    → e.id < length log
    → (let_request dev db request).1.account_list ≡ db.account_list
again dev db log request e now h room time fits asked passed =
    elim (let_request_outcome dev db log request h room time fits) [
      | answered response queries same spec ↦ ap (λ r. r.1.account_list) same
      | rejected x act same spec ↦ ap (λ r. r.1.account_list) same
      | logged response e' db' asked' next same durable spec ↦ absurd (
          omega
            (arith, next, passed, entry_of-id now (reading dev.time_now) request e e' asked asked'))
      | died x w act same fails ↦ ap (λ r. r.1.account_list) same
    ]

-- The entry of a request that was answered is in the log.
answered-logged :
    (dev : RequestDevice) (db : Let) (log : List Entry) (request : Request) (e : Entry)
    (response : Response)
    → Handled log db (reading dev.time_now) request (IsReliable dev) (let_request dev db request)
    → entry_of (reading dev.time_now) request ≡ some e
    → (let_request dev db request).0 ≡ ok response
    → IsDurable (log ++ (e ∷ [])) (let_request dev db request).1 × (e.id ≡ length log)
answered-logged dev db log request e response (answered response' queries same spec) asked
      ok_first =
    cc (queries, asked)
answered-logged dev db log request e response (rejected x act same spec) asked ok_first =
    cc (ap (λ r. r.0) same, ok_first)
answered-logged dev db log request e response
      (logged response' e' db' asked' next same durable spec) asked ok_first =
    let entry : e' ≡ e = cc (asked', asked) in
    (
      subst (λ x. IsDurable (log ++ (x ∷ [])) (let_request dev db request).1) entry
          (subst (IsDurable (log ++ (e' ∷ []))) (sym (ap (λ r. r.1) same)) durable),
      ap (λ (x : Entry). x.id) (sym entry) ∙ next,
    )
answered-logged dev db log request e response (died x w act same fails) asked ok_first =
    cc (ap (λ r. r.0) same, ok_first)

-- A request that changes accounts and was answered is not applied again: where the client sends it
-- once more, after any number of other requests that did not end the program, no account changes. The
-- log stays below 2 ^ 63 entries, and times and values fit their fields.
pub let_request-once :
    (log : List Entry) (db : Let) (dev dev' : RequestDevice) (request : Request) (e : Entry)
    (response : Response) (n : ℕ) (later : Let)
    → IsDurable log db
    → length log + 1 + n < 2 ^ 63
    → TimeFits dev.time_now
    → TimeFits dev'.time_now
    → RequestFits request
    → entry_of (reading dev.time_now) request ≡ some e
    → (let_request dev db request).0 ≡ ok response
    → Served (let_request dev db request).1 n later
    → (let_request dev' later request).1.account_list ≡ later.account_list
let_request-once log db dev dev' request e response n later h room time time' fits asked ok_first
      served =
    let (durable, position) =
      answered-logged dev db log request e response
        (let_request_outcome dev db log request h (omega arith) time fits) asked ok_first in
    let (more, short, found) =
      Served-IsDurable (log ++ (e ∷ [])) (let_request dev db request).1 n later durable
        (omega (arith, length-append log (e ∷ []))) served in
    let counted : length ((log ++ (e ∷ [])) ++ more) ≡ length log + 1 + length more =
      omega (arith, length-append (log ++ (e ∷ [])) more, length-append log (e ∷ [])) in
    again dev' later ((log ++ (e ∷ [])) ++ more) request e (reading dev.time_now) found
      (omega (arith, counted)) time' fits asked (omega (arith, counted, position))
