-- ===== src/App/Refines.antt =====
-- `let_request` of LetDB/src/let.c gives the answers that the books of the ledger promise.
use let_dx.Base.{
  ◌+◌, ◌^◌, ◌<◌, ◌≡◌, ◌≢◌, refl, subst, List, [], ◌∷◌, ◌++◌, length, length-append, arith,
}
use let_dx.Error.{Error}
use let_dx.Error.Report.{reject, error_report}
use let_dx.Result.{Result, err, stuck}
use let_dx.Network.Request.{Request, RequestFits}
use let_dx.Network.Response.{Response}
use let_dx.Storage.Wal.{Entry}
use let_dx.Ledger.Books.{Books, serve}
use let_dx.App.{Let, RequestDevice, let_request}
use let_dx.App.Durable.{books, IsDurable, answered, rejected, logged, died}
use let_dx.App.Handling.{IsReliable, TimeFits, reading, let_request_outcome}

-- The answer and the database of a request are what the books promise; the log is longer by at
-- most one entry.
pub record Agrees (log : List Entry) (promised : Result Response × Books)
    (r : Result Response × Let) : Type 0 where
  pub log' : List Entry
  pub answer : r.0 ≡ promised.0
  pub kept : books r.1 ≡ promised.1
  pub alive : (x : Error) → r.0 ≡ err x → (error_report x).action ≡ reject
  pub answers : r.0 ≢ stuck
  pub longer : length log' < length log + 2
  pub durable : IsDurable log' r.1

-- Where no call of the system fails: whatever the request, its answer, an error or a response, is the
-- one that the books promise, and the books of the new database are the promised books; no error
-- ends the program, and the file is a log again, of at most one entry more. The
-- log has less than 2 ^ 63 entries, and the time and the values fit their fields.
pub let_request-Agrees :
    (dev : RequestDevice) (db : Let) (log : List Entry) (request : Request)
    → IsReliable dev
    → IsDurable log db
    → length log < 2 ^ 63
    → TimeFits dev.time_now
    → RequestFits request
    → Agrees log (serve (reading dev.time_now) request (books db)) (let_request dev db request)
let_request-Agrees dev db log request works h small time fits =
    elim (let_request_outcome dev db log request h small time fits) [
      | answered response queries same spec ↦
          rw (same, spec)
            (record {
              log' = log;
              answer = refl;
              kept = refl;
              alive = λ x e. cc (e);
              answers = λ e. cc (e);
              longer = omega arith;
              durable = h;
            })
      | rejected x act same spec ↦
          rw (same, spec)
            (record {
              log' = log;
              answer = refl;
              kept = refl;
              alive = λ y e. subst (λ y. (error_report y).action ≡ reject) (cc e) act;
              answers = λ e. cc (e);
              longer = omega arith;
              durable = h;
            })
      | logged response e db' asked next same durable spec ↦
          rw (same, spec)
            (record {
              log' = log ++ (e ∷ []);
              answer = refl;
              kept = refl;
              alive = λ x e. cc (e);
              answers = λ e. cc (e);
              longer = omega (arith, length-append log (e ∷ []));
              durable = durable;
            })
      | died x w act same fails ↦ absurd (fails works)
    ]
