-- ===== src/App/Start/Restarting.antt =====
-- The accounts of LetDB outlive the process: let_init on the file that a run of let_run left.
use let_dx.Base.{
  ℕ, ◌+◌, ◌^◌, ◌<◌, ◌≤◌, ◌≡◌, ◌≢◌, sym, ap, ◌∙◌, ◌⊎◌, inl, inr, true, List, [], ◌++◌, append-nil,
  length, length-append, All, arith,
}
use let_dx.Error.Report.{fatal, error_report}
use let_dx.Storage.Wal.{Entry}
use let_dx.Storage.Wal.Log.{log_file}
use let_dx.Storage.Wal.Open.{OpenDevice, exists_already}
use let_dx.Storage.Wal.Replay.Ends.{Damaged}
use let_dx.Ledger.{view}
use let_dx.Network.Server.Sockets.{Socket}
use let_dx.Cli.{Cli}
use let_dx.App.{Let}
use let_dx.App.Durable.{IsDurable}
use let_dx.App.Handling.{TimeFits}
use let_dx.App.Restart.{Extended}
use let_dx.App.Machine.{Runtime, StepDevice, let_run}
use let_dx.App.Machine.Steps.{Sound}
use let_dx.App.Machine.Sound.{let_run-Sound}
use let_dx.App.Start.{InitDevice, ready, let_init}
use let_dx.App.Start.Recovery.{InitWorks, Holds, whole, damaged, IsStorable, let_init-Recovers}

-- What may follow the log in the file: nothing, or a damaged tail that may be cut off.
abbrev pub IsTail : Cli → List ℕ → Type 0
IsTail cli tail = (tail ≡ []) ⊎ ((cli.truncate_on_fail ≡ true) × Damaged tail)

tail-Holds :
    (cli : Cli) (opening : OpenDevice) (file tail : List ℕ) (log : List Entry)
    → opening.creates ≡ exists_already
    → file ≡ log_file log ++ tail
    → IsTail cli tail
    → Holds cli.truncate_on_fail opening file log
tail-Holds cli opening file tail log there same (inl nothing) =
    whole there (same ∙ ap (λ t. log_file log ++ t) nothing ∙ append-nil (log_file log))
tail-Holds cli opening file tail log there same (inr (cut, torn)) = damaged tail there cut same torn

IsDurable-IsStorable :
    (log : List Entry) (db : Let) → IsDurable log db → length log ≤ 2 ^ 63 → IsStorable log
IsDurable-IsStorable log db h small = record {
  fits = h.fits;
  replayable = h.replayable;
  small = small;
}

-- A new process takes up what another left in a sound state.
restarts :
    (cli : Cli) (dev : InitDevice) (files : List ℕ → List ℕ) (sockets : List Socket) (fd n : ℕ)
    (log : List Entry) (tail : List ℕ) (db : Let)
    → InitWorks cli dev fd
    → dev.opening.creates ≡ exists_already
    → files cli.storage_file ≡ db.storage_wal.bytes ++ tail
    → IsTail cli tail
    → length log + n < 2 ^ 63
    → Extended log n db
    → (r' : Runtime) × (let_init cli dev files sockets ≡ ready r')
      × (view r'.database.account_list ≡ view db.account_list)
restarts cli dev files sockets fd n log tail db works there file is_tail room (more, short, h) =
    let (r', started, is_ready) =
      let_init-Recovers cli dev files sockets fd (log ++ more) works
        (tail-Holds cli dev.opening (files cli.storage_file) tail (log ++ more) there
          (file ∙ ap (λ t. t ++ tail) h.file) is_tail)
        (IsDurable-IsStorable (log ++ more) db h (omega (arith, length-append log more))) in
    (r', started, is_ready.same_view ∙ sym h.same_view)

-- From a runtime that is sound behind n requests, on clocks of 64 bits and while the log stays below
-- 2 ^ 63 entries: wherever let_run then stands, ended by a signal or killed at some step, unless its
-- last error is fatal, a new process on which nothing fails, with the file of the old one, even with a
-- damaged tail behind its log if `truncate_on_fail` is set, has the very balances that the old one had.
pub let_run-restarts :
    (home : List Socket) (log : List Entry) (n : ℕ) (cli : Cli) (devs : List StepDevice)
    (r : Runtime) (cli' : Cli) (dev : InitDevice) (files : List ℕ → List ℕ) (sockets : List Socket)
    (fd : ℕ) (tail : List ℕ)
    → Sound home log n r
    → All (λ dev. TimeFits dev.request.time_now) devs
    → length log + (n + length devs) < 2 ^ 63
    → (error_report (let_run cli devs r).error).action ≢ fatal
    → InitWorks cli' dev fd
    → dev.opening.creates ≡ exists_already
    → files cli'.storage_file ≡ (let_run cli devs r).database.storage_wal.bytes ++ tail
    → IsTail cli' tail
    → (r' : Runtime) × (let_init cli' dev files sockets ≡ ready r')
      × (view r'.database.account_list ≡ view (let_run cli devs r).database.account_list)
let_run-restarts home log n cli devs r cli' dev files sockets fd tail sound times room alive works
      there file is_tail =
    elim (let_run-Sound home log n cli devs r times room sound).kept [
      | inl extended ↦
          restarts cli' dev files sockets fd (n + length devs) log tail
            (let_run cli devs r).database works there file is_tail room extended
      | inr dead ↦ absurd (alive dead.fatal_error)
    ]
