-- ===== src/Cli/Tests.antt =====
-- The command line at concrete options: `--port -1`, and a configuration with every option.
use let_dx.Base.{◌-◌, ◌^◌, ◌≡◌, refl, true, false, [], ◌∷◌, arith}
use let_dx.Error.{invalid_log_level, cli}
use let_dx.Result.{ok, err}
use let_dx.Network.Request.Decoder.RoundTrip.{decimal}
use let_dx.Cli.{Cli, Choice, cli_empty, convert, checked_cast, i64_exceeds, apply_choice, cli_parse}
use let_dx.Cli.Number.{
  is_digit, is_space, skip_space, numeral, starts_with_digit, ranged, signed, strtoul,
}
use let_dx.Cli.Print.{convert-decimal, print_choices, cli_parse-print}

-- 2 ^ 64 - 1 is taken as a log level, and stored as 255
convert-decimal_example : convert invalid_log_level 5 (2 ^ 8) (decimal 19 (2 ^ 64 - 1)) ≡ ok 255
convert-decimal_example =
    convert-decimal invalid_log_level 19 5 (2 ^ 8) (2 ^ 64 - 1) (omega arith) (omega arith)

abbrev debug_cli : Cli
debug_cli = record {
  storage_file = b'd' ∷ b'b' ∷ [];
  read_timeout = 60;
  write_timeout = 0;
  port = 8080;
  backlog = 4;
  log_level = 0;
  truncate_on_fail = true;
  help = false;
  version = true;
}

cli_parse-print_example : cli_parse cli_empty (print_choices debug_cli) ≡ ok debug_cli
cli_parse-print_example = cli_parse-print debug_cli (record {
  read_timeout = omega arith;
  write_timeout = omega arith;
  port = omega arith;
  backlog = omega arith;
  log_level = omega arith;
})

-- `--port -1`: the port is 65535
minus_one :
    (cli_parse cli_empty (Choice.port (b'-' ∷ b'1' ∷ []) ∷ []))
    ≡ ok (record cli_empty { port = 65535 })
unfolding cli_parse apply_choice checked_cast i64_exceeds strtoul skip_space is_space signed ranged
    starts_with_digit numeral is_digit
minus_one = refl

-- `--log-level 6` and `--log-level loud` are refused
above : convert invalid_log_level 5 (2 ^ 8) (b'6' ∷ []) ≡ err (cli invalid_log_level)
unfolding checked_cast i64_exceeds strtoul skip_space is_space signed ranged starts_with_digit
    numeral is_digit
above = refl

no_number :
    convert invalid_log_level 5 (2 ^ 8) (b'l' ∷ b'o' ∷ b'u' ∷ b'd' ∷ [])
    ≡ err (cli invalid_log_level)
unfolding checked_cast i64_exceeds strtoul skip_space is_space signed ranged starts_with_digit
    numeral is_digit
no_number = refl
