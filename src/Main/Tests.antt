-- ===== src/Main/Tests.antt =====
-- main of a process that gets a SIGTERM during let_init, which has no effect, and then SIGPIPE and
-- SIGINT.
use let_dx.Base.{◌≡◌, ◌⊎◌, inr, refl, false, none, some, List, [], ◌∷◌, ◌++◌, arith}
use let_dx.Storage.Tests.{log}
use let_dx.Cli.{Choice}
use let_dx.App.Start.Tests.{
  comes, silent, truncating, init_device, init_device-InitWorks, cut_files, cut_files-Holds,
  log-IsStorable, parsed,
}
use let_dx.Main.{
  sigterm, sigint, sigpipe, unnamed, Moment, Arrivals, status, exit_success, exit_failure, main,
}
use let_dx.Main.Exits.{IsSafe, main-exits}

abbrev pipe : Moment
pipe = record { arrives = some sigpipe; system = comes }

abbrev interrupt : Moment
interrupt = record { arrives = some sigint; system = comes }

abbrev quiet : Moment
quiet = record { arrives = none; system = comes }

abbrev moments : List Moment
moments = (pipe ∷ quiet ∷ []) ++ (interrupt ∷ quiet ∷ pipe ∷ quiet ∷ quiet ∷ quiet ∷ [])

abbrev arrivals : Arrivals
arrivals = record {
  before_set_up = unnamed false ∷ [];
  before_run = sigterm ∷ [];
  behind_run = sigint ∷ [];
}

pipe-IsSafe : IsSafe pipe
pipe-IsSafe sigpipe e = tt
pipe-IsSafe sigterm e = tt
pipe-IsSafe sigint e = tt
pipe-IsSafe (unnamed ends) e = cc (e)

interrupt-IsSafe : IsSafe interrupt
interrupt-IsSafe sigpipe e = tt
interrupt-IsSafe sigterm e = tt
interrupt-IsSafe sigint e = tt
interrupt-IsSafe (unnamed ends) e = cc (e)

quiet-IsSafe : IsSafe quiet
quiet-IsSafe s e = cc (e)

main-exits_example :
    (main init_device cut_files arrivals moments [] (Choice.truncate_on_fail ∷ [])
      ≡ status exit_success [])
    ⊎ (main init_device cut_files arrivals moments [] (Choice.truncate_on_fail ∷ [])
        ≡ status exit_failure [])
main-exits_example =
    main-exits init_device cut_files arrivals (pipe ∷ quiet ∷ []) interrupt
      (quiet ∷ pipe ∷ quiet ∷ quiet ∷ quiet ∷ []) [] (Choice.truncate_on_fail ∷ []) truncating 3 log
      parsed refl refl init_device-InitWorks cut_files-Holds log-IsStorable (refl, tt) (tt, tt)
      (tt, tt)
      (
        pipe-IsSafe,
        (
          quiet-IsSafe,
          (
            interrupt-IsSafe,
            (quiet-IsSafe, (pipe-IsSafe, (quiet-IsSafe, (quiet-IsSafe, (quiet-IsSafe, tt))))),
          ),
        ),
      )
      (omega arith, (omega arith, tt))
      (omega arith, (omega arith, (omega arith, (omega arith, (omega arith, (omega arith, tt))))))
      (omega arith) (inr refl) (silent, (silent, (silent, (silent, (silent, (silent, tt))))))
      (omega arith)
