-- ===== src/Log.antt =====
-- LetDB/include/let/log.h and LetDB/src/log.c, and the lines that `let_error_new` of
-- LetDB/src/error.c prints. What is printed on stderr is a list of texts; the clock, the calendar and
-- strftime(3) are given.
pub mod Tests
use let_dx.Base.{
  ℕ, ◌<◌, ◌≤◌, ◌≡◌, ◌≢◌, refl, String, Bool, true, false, Option, none, some, List, [], ◌∷◌,
  get_elem?, ltb, lt→ltb, if◌then◌else◌, arith,
}
use let_dx.Error.{Error}
use let_dx.Error.Report.{Action, Report, error_report}
use let_dx.Result.{Result, ok, err, stuck, in_bounds, ◌>>=◌}

-- let_log_level_t, by its numbers: DEBUG, INFO, WARNING, ERROR, FATAL, NONE
abbrev pub level_info : ℕ
level_info = 1

abbrev pub level_warning : ℕ
level_warning = 2

abbrev pub level_error : ℕ
level_error = 3

abbrev pub level_fatal : ℕ
level_fatal = 4

abbrev pub level_none : ℕ
level_none = 5

-- let_log_level_attributes
abbrev pub level_attributes : List String
level_attributes = "DEBUG" ∷ "INFO" ∷ "WARNING" ∷ "ERROR" ∷ "FATAL" ∷ "NONE" ∷ []

-- let_log_level_colors
abbrev pub level_colors : List String
level_colors =
    "\u{1b}[1;36m" ∷ "\u{1b}[0;34m" ∷ "\u{1b}[0;33m" ∷ "\u{1b}[0;31m" ∷ "\u{1b}[1;31m" ∷ "\u{1b}[0m"
    ∷ []

-- What the system answers: `time(nullptr)`, and for a time the text that localtime(3) and strftime(3)
-- make of it.
pub record LogDevice : Type 0 where
  pub time_now : Option ℕ
  pub header : ℕ → Option String

-- the part behind localtime(3)
unfoldable pub print_line : ℕ → String → Option String → Result (List String)
print_line level message none = ok []
print_line level message (some header) = do
  color ← in_bounds (get_elem? level_colors level)
  attribute ← in_bounds (get_elem? level_attributes level)
  reset ← in_bounds (get_elem? level_colors level_none)
  ok (color ∷ "[" ∷ header ∷ "] (" ∷ attribute ∷ "): " ∷ message ∷ reset ∷ "\n" ∷ [])

-- the part behind time(2)
unfoldable pub print_timed : (ℕ → Option String) → ℕ → String → Option ℕ → Result (List String)
unfolding print_line
print_timed header level message none = ok []
print_timed header level message (some now) = print_line level message (header now)

-- let_log_print, for the value of `let_log_level`
unfoldable pub log_print : LogDevice → ℕ → ℕ → String → Result (List String)
unfolding print_timed
log_print dev threshold level message =
    let printed = print_timed dev.header level message dev.time_now in
    if ltb level threshold then ok [] else printed

-- the `switch` of let_error_new: the level of the line, if there is one
unfoldable pub action_level : Action → Option ℕ
action_level Action.none = none
action_level Action.reject = some level_warning
action_level Action.ignore = some level_info
action_level Action.close = some level_error
action_level Action.fatal = some level_fatal

unfoldable pub print_report : LogDevice → ℕ → Report → Option ℕ → Result (List String)
unfolding log_print
print_report dev threshold report none = ok []
print_report dev threshold report (some level) = log_print dev threshold level report.message

-- what let_error_new prints
unfoldable pub error_new : LogDevice → ℕ → Error → Result (List String)
unfolding print_report action_level
error_new dev threshold e =
    print_report dev threshold (error_report e) (action_level (error_report e).action)
