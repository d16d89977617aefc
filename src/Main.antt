-- ===== src/Main.antt =====
-- main and apply_signal of LetDB/src/main.c: what signals do to the process, and its exit status.
pub mod Exits
pub mod Tests
use let_dx.Base.{ℕ, Bool, true, false, ◌||◌, Option, none, some, List, [], ◌∷◌, if◌then◌else◌}
use let_dx.Network.Server.Sockets.{Socket}
use let_dx.Cli.{Choice}
use let_dx.App.Machine.{Runtime, StepDevice}
use let_dx.App.Start.{InitDevice, Exit, exited, running, apply_process}

-- The signals that main.c names, whose default action ends the process; and any other, with whether
-- its default action does.
pub data Signal : Type 0 where
  sigterm sigint sigpipe : Signal
  unnamed : Bool → Signal

pub data Disposition : Type 0 where
  by_default ignored runs_let_close : Disposition

pub record Dispositions : Type 0 where
  pub on_term : Disposition
  pub on_int : Disposition
  pub on_pipe : Disposition

abbrev pub dispositions_default : Dispositions
dispositions_default = record { on_term = by_default; on_int = by_default; on_pipe = by_default }

-- sigaction(2)
unfoldable pub sigaction : Signal → Disposition → Dispositions → Dispositions
sigaction sigterm d ds = record ds { on_term = d }
sigaction sigint d ds = record ds { on_int = d }
sigaction sigpipe d ds = record ds { on_pipe = d }
sigaction (unnamed ends) d ds = ds

-- apply_signal
unfoldable pub apply_signal : Dispositions → Dispositions
unfolding sigaction
apply_signal ds =
    let with_term = sigaction sigterm runs_let_close ds in
    let with_int = sigaction sigint runs_let_close with_term in sigaction sigpipe ignored with_int

abbrev pub disposition : Dispositions → Signal → Disposition
disposition ds sigterm = ds.on_term
disposition ds sigint = ds.on_int
disposition ds sigpipe = ds.on_pipe
disposition ds (unnamed ends) = by_default

-- the default action ends the process
abbrev pub default_ends : Signal → Bool
default_ends (unnamed ends) = ends
default_ends _ = true

-- the signal ends the process
abbrev pub action_ends : Disposition → Signal → Bool
action_ends by_default s = default_ends s
action_ends _ s = false

abbrev pub is_handler : Disposition → Bool
is_handler runs_let_close = true
is_handler _ = false

-- A signal that may arrive before a step of the process, and what the system answers at the step.
pub record Moment : Type 0 where
  pub arrives : Option Signal
  pub system : StepDevice

-- The signals that arrive outside let_run: before main has set what they do; between that and let_run;
-- behind let_run. The handler has no effect there: the flags that it clears are not set before the
-- last line of let_init, which sets `accepting` whatever has arrived, and not read behind let_run.
pub record Arrivals : Type 0 where
  pub before_set_up : List Signal
  pub before_run : List Signal
  pub behind_run : List Signal

unfoldable pub any_ends : Dispositions → List Signal → Bool
any_ends ds [] = false
any_ends ds (s ∷ signals) = action_ends (disposition ds s) s || any_ends ds signals

unfoldable pub kills : Dispositions → Option Signal → Bool
kills ds none = false
kills ds (some s) = action_ends (disposition ds s) s

unfoldable pub interrupts : Dispositions → Option Signal → Bool
interrupts ds none = false
interrupts ds (some s) = is_handler (disposition ds s)

unfoldable pub any_kills : Dispositions → List Moment → Bool
unfolding kills
any_kills ds [] = false
any_kills ds (m ∷ moments) = kills ds m.arrives || any_kills ds moments

-- the moments before the first signal that ends the process
unfoldable pub until_killed : Dispositions → List Moment → List Moment
unfolding kills
until_killed ds [] = []
until_killed ds (m ∷ moments) =
    let rest = until_killed ds moments in if kills ds m.arrives then [] else m ∷ rest

-- the steps, with the runs of the handler
abbrev pub step_of : Dispositions → Moment → StepDevice
step_of ds m = record m.system { signal = interrupts ds m.arrives }

abbrev pub steps_of : Dispositions → List Moment → List StepDevice
steps_of ds [] = []
steps_of ds (m ∷ moments) = step_of ds m ∷ steps_of ds moments

-- How the process ends: by a signal, or with an exit status and the sockets that are left open; or it
-- still runs.
pub data Ending : Type 0 where
  killed broken : Ending
  status : ℕ → List Socket → Ending
  runs_on : Runtime → Ending

-- EXIT_SUCCESS and EXIT_FAILURE
abbrev pub exit_success : ℕ
exit_success = 0

abbrev pub exit_failure : ℕ
exit_failure = 1

-- the value that main returns
abbrev pub exit_status : Bool → ℕ
exit_status b = if b then exit_success else exit_failure

-- How the process ends, from what apply_process comes to by the first signal that ends the process.
-- One that arrives behind let_run can still end it.
unfoldable pub ending : Dispositions → Arrivals → List Moment → Exit → Ending
unfolding any_ends any_kills
ending ds arrivals moments (exited b sockets) =
    if any_ends ds arrivals.behind_run then killed else status (exit_status b) sockets
ending ds arrivals moments (running r) = if any_kills ds moments then killed else runs_on r
ending ds arrivals moments Exit.broken = broken

-- main
unfoldable pub main :
    InitDevice → (List ℕ → List ℕ) → Arrivals → List Moment → List Socket → List Choice → Ending
unfolding any_ends apply_signal ending interrupts until_killed
main dev files arrivals moments sockets choices =
    let ds = apply_signal dispositions_default in
    let steps = steps_of ds (until_killed ds moments) in
    if any_ends dispositions_default arrivals.before_set_up || any_ends ds arrivals.before_run
    then killed
    else ending ds arrivals moments (apply_process dev files steps sockets choices)
