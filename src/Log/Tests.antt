-- ===== src/Log/Tests.antt =====
-- Log lines at concrete errors.
use let_dx.Base.{◌≡◌, refl, some, [], ◌∷◌}
use let_dx.Error.{network, client_closed}
use let_dx.Error.Report.{error_report}
use let_dx.Result.{ok}
use let_dx.Log.{
  LogDevice, error_new, print_report, print_timed, print_line, log_print, action_level, level_none,
  level_info, level_warning,
}

abbrev noon : LogDevice
noon = record { time_now = some 0; header = λ now. some "1970-01-01 12:00:00" }

-- a client that leaves is logged at the level INFO
leaves :
    error_new noon level_info (network client_closed)
    ≡ ok (
        "\u{1b}[0;34m" ∷ "[" ∷ "1970-01-01 12:00:00" ∷ "] (" ∷ "INFO" ∷ "): "
        ∷ "The network client is closed" ∷ "\u{1b}[0m" ∷ "\n" ∷ [])
unfolding error_new print_report log_print print_timed print_line action_level error_report
leaves = refl

-- and not at the level WARNING
hidden : error_new noon level_warning (network client_closed) ≡ ok []
unfolding error_new print_report log_print print_timed print_line action_level error_report
hidden = refl

-- nothing is logged at the level NONE
quiet : error_new noon level_none (network client_closed) ≡ ok []
unfolding error_new print_report log_print print_timed print_line action_level error_report
quiet = refl
