-- ===== src/Cli.antt =====
-- LetDB/include/let/cli.h and LetDB/src/cli.c: the options of the command line. getopt_long(3) reads
-- argv: the list of what it returned, each with its `optarg`, is what `cli_parse` goes through.
pub mod Number
pub mod Print
pub mod Tests
use let_dx.Base.{
  ℕ, ◌-◌, ◌%◌, ◌^◌, Bool, true, false, ◌&&◌, ◌||◌, List, [], ◌∷◌, ltb, if◌then◌else◌, not,
}
use let_dx.Error.{
  CliError, cli, invalid_option, invalid_port, invalid_backlog, invalid_read_timeout,
  invalid_write_timeout, invalid_log_level,
}
use let_dx.Result.{Result, ok, err, ◌>>=◌}
use let_dx.Cli.Number.{Converted, strtoul}

-- let_cli_options, by what getopt_long returns for an option: its `val`, or 0 and the index
pub data Choice : Type 0 where
  help version truncate_on_fail unknown : Choice
  port backlog log_level file read_timeout write_timeout : List ℕ → Choice

-- let_cli_t
pub record Cli : Type 0 where
  pub storage_file : List ℕ
  pub read_timeout : ℕ
  pub write_timeout : ℕ
  pub port : ℕ
  pub backlog : ℕ
  pub log_level : ℕ
  pub truncate_on_fail : Bool
  pub help : Bool
  pub version : Bool

-- LET_CLI_DEFAULT_STORAGE_FILE
abbrev pub default_storage_file : List ℕ
default_storage_file = 76 ∷ 69 ∷ 84 ∷ 95 ∷ 95 ∷ 87 ∷ 65 ∷ 76 ∷ []

-- let_cli_empty
abbrev pub cli_empty : Cli
cli_empty = record {
  storage_file = default_storage_file;
  read_timeout = 0;
  write_timeout = 10;
  port = 55543;
  backlog = 1;
  log_level = 1;
  truncate_on_fail = false;
  help = false;
  version = false;
}

-- `value > max`, where the cast to `let_i64_t` has made a value of 2 ^ 63 or more negative
unfoldable pub i64_exceeds : ℕ → ℕ → Bool
i64_exceeds value max = ltb value (2 ^ 63) && ltb max value

-- the check behind `strtoul`, and the cast to a field of values below `bound`
unfoldable pub checked_cast : CliError → ℕ → ℕ → Converted → Result ℕ
unfolding i64_exceeds
checked_cast error max bound c =
    if not c.moved || c.out_of_range || i64_exceeds c.value max
    then err (cli error)
    else ok (c.value % bound)

-- one option with a number
abbrev pub convert : CliError → ℕ → ℕ → List ℕ → Result ℕ
convert error max bound optarg = checked_cast error max bound (strtoul optarg)

-- the `switch`
unfoldable pub apply_choice : Cli → Choice → Result Cli
apply_choice c Choice.help = ok (record c { help = true })
apply_choice c Choice.version = ok (record c { version = true })
apply_choice c Choice.truncate_on_fail = ok (record c { truncate_on_fail = true })
apply_choice c unknown = err (cli invalid_option)
apply_choice c (Choice.port optarg) = do
  value ← convert invalid_port (2 ^ 16 - 1) (2 ^ 16) optarg
  ok (record c { port = value })
apply_choice c (Choice.backlog optarg) = do
  value ← convert invalid_backlog (2 ^ 16 - 1) (2 ^ 16) optarg
  ok (record c { backlog = value })
apply_choice c (Choice.log_level optarg) = do
  value ← convert invalid_log_level 5 (2 ^ 8) optarg
  ok (record c { log_level = value })
apply_choice c (Choice.file optarg) = ok (record c { storage_file = optarg })
apply_choice c (Choice.read_timeout optarg) = do
  value ← convert invalid_read_timeout (2 ^ 32 - 1) (2 ^ 32) optarg
  ok (record c { read_timeout = value })
apply_choice c (Choice.write_timeout optarg) = do
  value ← convert invalid_write_timeout (2 ^ 32 - 1) (2 ^ 32) optarg
  ok (record c { write_timeout = value })

-- let_cli_parse
unfoldable pub cli_parse : Cli → List Choice → Result Cli
cli_parse c [] = ok c
cli_parse c (choice ∷ choices) = apply_choice c choice >>= λ next. cli_parse next choices
