-- ===== src/Main/Exits.antt =====
-- How main of LetDB/src/main.c ends.
use let_dx.Base.{
  ℕ, ◌+◌, ◌^◌, ◌<◌, ◌≤◌, ◌≡◌, ◌⊎◌, inl, inr, refl, ap, ◌∙◌, Bool, true, false, Option, none, some,
  List, [], ◌∷◌, ◌++◌, length, All, arith,
}
use let_dx.Result.{ok}
use let_dx.Network.Server.Sockets.{Socket}
use let_dx.Storage.Wal.{Entry}
use let_dx.Cli.{Cli, Choice, cli_empty, cli_parse}
use let_dx.App.Handling.{TimeFits}
use let_dx.App.Machine.{StepDevice}
use let_dx.App.Machine.Shutdown.{IsSilent}
use let_dx.App.Start.{InitDevice, exited, apply_process}
use let_dx.App.Start.Recovery.{InitWorks, Holds, IsStorable}
use let_dx.App.Start.Exiting.{apply_process-exits}
use let_dx.Main.{
  Signal, sigterm, sigint, sigpipe, unnamed, Dispositions, dispositions_default, apply_signal,
  disposition, default_ends, action_ends, Moment, Arrivals, any_ends, kills, interrupts,
  until_killed, step_of, steps_of, status, exit_status, exit_success, exit_failure, ending, main,
}

-- What main leaves behind apply_signal.
abbrev installed : Dispositions
installed = apply_signal dispositions_default

-- A signal that main.c names, or one that does not end a process.
abbrev pub IsHarmless : Signal → Type 0
IsHarmless (unnamed ends) = ends ≡ false
IsHarmless _ = Unit

-- No signal that would end the process arrives at a moment.
abbrev pub IsSafe : Moment → Type 0
IsSafe m = (s : Signal) → m.arrives ≡ some s → IsHarmless s

harmless_lem : (s : Signal) → IsHarmless s → action_ends (disposition installed s) s ≡ false
unfolding apply_signal
harmless_lem sigterm h = refl
harmless_lem sigint h = refl
harmless_lem sigpipe h = refl
harmless_lem (unnamed ends) h = h

any_ends-harmless :
    (signals : List Signal) → All IsHarmless signals → any_ends installed signals ≡ false
unfolding any_ends
any_ends-harmless [] h = refl
any_ends-harmless (s ∷ signals) (hs, h) = rw (harmless_lem s hs) (any_ends-harmless signals h)

any_ends-default :
    (signals : List Signal)
    → All (λ s. default_ends s ≡ false) signals
    → any_ends dispositions_default signals ≡ false
unfolding any_ends
any_ends-default [] h = refl
any_ends-default (unnamed ends ∷ signals) (hs, h) = rw hs (any_ends-default signals h)
any_ends-default (sigterm ∷ signals) (hs, h) = cc
any_ends-default (sigint ∷ signals) (hs, h) = cc
any_ends-default (sigpipe ∷ signals) (hs, h) = cc

spared :
    (arrives : Option Signal)
    → ((s : Signal) → arrives ≡ some s → IsHarmless s)
    → kills installed arrives ≡ false
unfolding kills
spared none h = refl
spared (some s) h = harmless_lem s (h s refl)

until_killed-safe :
    (moments : List Moment) → All IsSafe moments → until_killed installed moments ≡ moments
unfolding until_killed
until_killed-safe [] h = refl
until_killed-safe (m ∷ moments) (hm, h) =
    rw (spared m.arrives hm) (ap (λ t. m ∷ t) (until_killed-safe moments h))

All-steps_of :
    (P : StepDevice → Type 0) (moments : List Moment)
    → ((m : Moment) → P m.system → P (step_of installed m))
    → All (λ m. P m.system) moments
    → All P (steps_of installed moments)
All-steps_of P [] keep h = tt
All-steps_of P (m ∷ moments) keep (hm, h) = (keep m hm, All-steps_of P moments keep h)

length-steps_of : (moments : List Moment) → length (steps_of installed moments) ≡ length moments
length-steps_of [] = refl
length-steps_of (m ∷ moments) = omega (arith, length-steps_of moments)

steps_of-append :
    (before after : List Moment)
    → steps_of installed (before ++ after) ≡ steps_of installed before ++ steps_of installed after
steps_of-append [] after = refl
steps_of-append (m ∷ before) after =
    ap (λ t. step_of installed m ∷ t) (steps_of-append before after)

handled :
    (arrives : Option Signal)
    → (arrives ≡ some sigterm) ⊎ (arrives ≡ some sigint)
    → interrupts installed arrives ≡ true
unfolding interrupts apply_signal
handled arrives (inl e) = rw e refl
handled arrives (inr e) = rw e refl

exit_status-cases : (b : Bool) → (exit_status b ≡ exit_success) ⊎ (exit_status b ≡ exit_failure)
exit_status-cases true = inl refl
exit_status-cases false = inr refl

-- main, where no signal ends the process and apply_process exits.
main-status :
    (dev : InitDevice) (files : List ℕ → List ℕ) (arrivals : Arrivals) (moments : List Moment)
    (sockets : List Socket) (choices : List Choice) (b : Bool)
    → All (λ s. default_ends s ≡ false) arrivals.before_set_up
    → All IsHarmless arrivals.before_run
    → All IsHarmless arrivals.behind_run
    → All IsSafe moments
    → apply_process dev files (steps_of installed moments) sockets choices ≡ exited b sockets
    → main dev files arrivals moments sockets choices ≡ status (exit_status b) sockets
unfolding main ending
main-status dev files arrivals moments sockets choices b first second last safe exits =
    rw
      (
        any_ends-default arrivals.before_set_up first,
        any_ends-harmless arrivals.before_run second,
        until_killed-safe moments safe,
        exits,
        any_ends-harmless arrivals.behind_run last,
      )
      refl

-- Where the options ask neither for help nor for the version, nothing fails during let_init, and the file
-- holds a log as let_init takes it up; where, before main has set what SIGTERM, SIGINT and SIGPIPE do,
-- no signal arrives whose default action ends a process, and later none of this kind but these three:
-- once a SIGTERM or a SIGINT has arrived in let_run, and six steps follow at which the client's socket
-- delivers no byte, main returns 0 or 1, and every socket that it opened is closed, whatever the system
-- answers to let_run, and however many of the three arrive before, in let_run or behind it.
pub main-exits :
    (dev : InitDevice) (files : List ℕ → List ℕ) (arrivals : Arrivals) (before : List Moment)
    (at_signal : Moment) (after : List Moment) (sockets : List Socket) (choices : List Choice)
    (cli : Cli) (fd : ℕ) (log : List Entry)
    → cli_parse cli_empty choices ≡ ok cli
    → cli.help ≡ false
    → cli.version ≡ false
    → InitWorks cli dev fd
    → Holds cli.truncate_on_fail dev.opening (files cli.storage_file) log
    → IsStorable log
    → All (λ s. default_ends s ≡ false) arrivals.before_set_up
    → All IsHarmless arrivals.before_run
    → All IsHarmless arrivals.behind_run
    → All IsSafe (before ++ (at_signal ∷ after))
    → All (λ m. TimeFits m.system.request.time_now) before
    → All (λ m. TimeFits m.system.request.time_now) (at_signal ∷ after)
    → length log + (length before + length (at_signal ∷ after)) < 2 ^ 63
    → (at_signal.arrives ≡ some sigterm) ⊎ (at_signal.arrives ≡ some sigint)
    → All (λ m. IsSilent m.system) (at_signal ∷ after)
    → 6 ≤ length (at_signal ∷ after)
    → (main dev files arrivals (before ++ (at_signal ∷ after)) sockets choices
        ≡ status exit_success sockets)
      ⊎ (main dev files arrivals (before ++ (at_signal ∷ after)) sockets choices
          ≡ status exit_failure sockets)
main-exits dev files arrivals before at_signal after sockets choices cli fd log parsed no_help
      no_version works holds storable first second last safe times later room arrives silent
      enough =
    let moments = before ++ (at_signal ∷ after) in
    let timed : StepDevice → Type 0 = λ dev. TimeFits dev.request.time_now in
    let (b, exits) =
      apply_process-exits dev files (steps_of installed before) (step_of installed at_signal)
        (steps_of installed after) sockets choices cli fd log parsed no_help no_version works holds
        storable (All-steps_of timed before (λ m h. h) times)
        (All-steps_of timed (at_signal ∷ after) (λ m h. h) later)
        (omega (arith, length-steps_of before, length-steps_of after))
        (handled at_signal.arrives arrives)
        (All-steps_of IsSilent (at_signal ∷ after) (λ m h. h) silent)
        (omega (arith, length-steps_of after)) in
    let whole = main-status dev files arrivals moments sockets choices b first second last safe (
      ap (λ steps. apply_process dev files steps sockets choices)
        (steps_of-append before (at_signal ∷ after))
      ∙ exits) in
    elim (exit_status-cases b) [
      | inl zero ↦ inl (whole ∙ ap (λ (n : ℕ). status n sockets) zero)
      | inr one ↦ inr (whole ∙ ap (λ (n : ℕ). status n sockets) one)
    ]
