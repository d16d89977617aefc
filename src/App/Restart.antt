-- ===== src/App/Restart.antt =====
-- A run of requests of LetDB/src/let.c, and the replay of its log after a restart.
use let_dx.Base.{
  ℕ, suc, ◌+◌, ◌^◌, ◌≤◌, ◌<◌, ◌≡◌, ◌≢◌, sym, ap, ◌∙◌, subst, Bool, some, List, [], ◌∷◌, ◌++◌,
  length, length-append, append-nil, append_assoc, arith,
}
use let_dx.Error.{Error}
use let_dx.Error.Report.{fatal, error_report}
use let_dx.Result.{Result, ok, err, stuck}
use let_dx.Network.Response.{Response}
use let_dx.Account.{AccountList, account_list_new}
use let_dx.Account.Laws.{account_list_new-IsValid}
use let_dx.Network.Request.{Request, RequestFits}
use let_dx.Storage.Wal.{Entry}
use let_dx.Storage.Wal.File.{Wal}
use let_dx.Storage.Wal.Replay.{ReplayDevice, wal_replay}
use let_dx.Storage.Wal.Replay.Apply.{Works}
use let_dx.Storage.Wal.Replay.Recovery.{IsLog, wal_replay_whole}
use let_dx.Ledger.{view, apply_log, IsReplayable}
use let_dx.App.{Let, RequestDevice, let_request}
use let_dx.App.Durable.{IsDurable, answered, rejected, logged, died}
use let_dx.App.Handling.{TimeFits, let_request_outcome}

-- The database behind `n` requests, none of which ended the program.
pub data Served (db : Let) : ℕ → Let → Type 0 where
  nothing : Served db 0 db
  one_more :
      {n : ℕ} {db1 : Let}
      → Served db n db1
      → (dev : RequestDevice) (request : Request) → TimeFits dev.time_now
      → RequestFits request
      → ((x : Error) → (let_request dev db1 request).0 ≡ err x → (error_report x).action ≢ fatal)
      → Served db (suc n) (let_request dev db1 request).1

-- The log behind some requests.
abbrev pub Extended : List Entry → ℕ → Let → Type 0
Extended log n db = (more : List Entry) × (length more ≤ n) × IsDurable (log ++ more) db

-- What a request comes to: an answer or an error, and a log that is at most one entry longer; or a
-- fatal error.
pub data Comes (log : List Entry) (n : ℕ) (r : Result Response × Let) : Type 0 where
  lives :
      (m : Result Response) (db : Let) → r ≡ (m, db) → m ≢ stuck → Extended log n db → Comes log n r
  dies : (x : Error) (db : Let) → r ≡ (err x, db) → (error_report x).action ≡ fatal → Comes log n r

pub let_request-Comes :
    (log : List Entry) (n : ℕ) (db : Let) (dev : RequestDevice) (request : Request)
    → Extended log n db
    → length log + n < 2 ^ 63
    → TimeFits dev.time_now
    → RequestFits request
    → Comes log (suc n) (let_request dev db request)
let_request-Comes log n db dev request (more, short, h) room time fits =
    elim (let_request_outcome dev db (log ++ more) request h (omega (arith, length-append log more))
      time fits) [
        | answered response queries same spec ↦
            lives (ok response) db same (λ e. cc) (more, omega arith, h)
        | rejected x act same spec ↦ lives (err x) db same (λ e. cc) (more, omega arith, h)
        | logged response e db' asked next same durable spec ↦
            lives (ok response) db' same (λ b. cc)
              (
                more ++ (e ∷ []),
                omega (arith, length-append more (e ∷ [])),
                subst (λ l. IsDurable l db') (append_assoc log more (e ∷ [])) durable,
              )
        | died x w act same fails ↦ dies x (record db { storage_wal = w }) same act
      ]

Extended-once :
    (log : List Entry) (n : ℕ) (db : Let) (dev : RequestDevice) (request : Request)
    → Extended log n db
    → length log + n < 2 ^ 63
    → TimeFits dev.time_now
    → RequestFits request
    → ((x : Error) → (let_request dev db request).0 ≡ err x → (error_report x).action ≢ fatal)
    → Extended log (suc n) (let_request dev db request).1
Extended-once log n db dev request h room time fits alive =
    elim (let_request-Comes log n db dev request h room time fits) [
      | lives m db' same answers longer ↦
          subst (Extended log (suc n)) (sym (ap (λ r. r.1) same)) longer
      | dies x db' same act ↦ absurd (alive x (ap (λ r. r.0) same) act)
    ]

-- Requests that do not end the program, whose values and times fit their fields, keep the file a
-- log and the account list what the log stands for: while the log stays below 2 ^ 63 entries, n
-- requests add at most n entries behind those that were there.
pub Served-IsDurable :
    (log : List Entry) (db : Let) (n : ℕ) (db' : Let)
    → IsDurable log db
    → length log + n < 2 ^ 63
    → Served db n db'
    → Extended log n db'
Served-IsDurable log db n db' h room nothing =
    ([], omega arith, subst (λ l. IsDurable l db) (sym (append-nil log)) h)
Served-IsDurable log db n db' h room
      (one_more {n = k} {db1 = db1} before dev request time fits alive) =
    Extended-once log k db1 dev request (Served-IsDurable log db k db1 h (omega arith) before)
      (omega arith) time fits alive

-- A new list holds no account.
pub fresh :
    (granted : Bool) (alloc : ℕ → Bool) (l : AccountList)
    → account_list_new granted alloc ≡ some l
    → (view l ≡ []) × (l.length ≡ 0)
unfolding account_list_new
fresh granted alloc l h = ground arith

-- Where the file is a log of at most 2 ^ 63 entries and the account list is what the log stands for,
-- a replay of the file into a new list, on a system on which nothing fails, succeeds and gives back
-- every balance; and the file is that log again, and the list what the log stands for.
pub wal_replay-IsDurable :
    (replay : ReplayDevice) (truncate granted : Bool) (alloc : ℕ → Bool) (log : List Entry)
    (db : Let) (l : AccountList)
    → Works replay
    → IsDurable log db
    → length log ≤ 2 ^ 63
    → account_list_new granted alloc ≡ some l
    → (w' : Wal) × (l' : AccountList) × (wal_replay replay truncate db.storage_wal l ≡ ok (w', l'))
      × (view l' ≡ view db.account_list)
      × IsDurable log (record { account_list = l'; storage_wal = w' })
wal_replay-IsDurable replay truncate granted alloc log db l works h small new =
    let (empty, none_stored) = fresh granted alloc l new in
    let is_log : IsLog log l = record {
      fits = h.fits;
      replayable = subst (IsReplayable log) (sym empty) h.replayable;
      storable = omega arith;
    } in
    let (w', l', done, found) =
      wal_replay_whole replay truncate log db.storage_wal l works
        (account_list_new-IsValid granted alloc l new) is_log h.file in
    let seen = found.same_view ∙ ap (apply_log log) empty in
    (
      w',
      l',
      done,
      seen ∙ sym h.same_view,
      record {
        valid = found.valid;
        file = found.file;
        at_end = found.at_end;
        counted = found.counted;
        fits = h.fits;
        replayable = h.replayable;
        same_view = seen;
      },
    )
