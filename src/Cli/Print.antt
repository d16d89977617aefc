-- ===== src/Cli/Print.antt =====
-- Options printed in decimal, and what LetDB/src/cli.c reads from them.
use let_dx.Base.{
  ℕ, zero, suc, ◌+◌, ◌-◌, ◌*◌, ◌/◌, ◌%◌, ◌^◌, ◌≤◌, ◌<◌, ◌≡◌, refl, ap, sym, ◌∙◌, inl, inr, Bool,
  true, false, ◌||◌, List, [], ◌∷◌, ◌++◌, append_assoc, append-nil, arith, ltb, leb, ltb→lt,
  if◌then◌else◌, Bool-cases,
}
use native.Mathlib.Nat.{mod-eq_of_lt}
use let_dx.Error.{
  CliError, cli, invalid_port, invalid_backlog, invalid_read_timeout, invalid_write_timeout,
  invalid_log_level,
}
use let_dx.Result.{ok, err}
use let_dx.Network.Request.Decoder.RoundTrip.{decimal}
use let_dx.Cli.{
  Cli, Choice, help, version, truncate_on_fail, port, backlog, log_level, file, read_timeout,
  write_timeout, cli_empty, convert, checked_cast, i64_exceeds, apply_choice, cli_parse,
}
use let_dx.Cli.Number.{
  is_digit, is_space, skip_space, numeral, starts_with_digit, ranged, signed, strtoul,
}

-- A decimal numeral begins with a digit.
pub record Starts (text : List ℕ) : Type 0 where
  pub first : ℕ
  pub rest : List ℕ
  pub split : text ≡ first ∷ rest
  pub from : b'0' ≤ first
  pub to : first ≤ b'9'

decimal-Starts : (k n : ℕ) → n < 10 ^ suc k → Starts (decimal k n)
unfolding decimal
decimal-Starts zero n h = record {
  first = n + b'0';
  rest = [];
  split = refl;
  from = omega arith;
  to = omega arith;
}
decimal-Starts (suc k) n h =
    let high = decimal-Starts k (n / 10) (omega arith) in
    elim (Bool-cases (ltb n 10)) [
      | inl one ↦ record {
        first = n + b'0';
        rest = [];
        split = rw one refl;
        from = omega arith;
        to = omega (arith, ltb→lt n 10 one);
      }
      | inr more ↦ record {
        first = high.first;
        rest = high.rest ++ ((n % 10 + b'0') ∷ []);
        split = rw more (ap (λ (t : List ℕ). t ++ ((n % 10 + b'0') ∷ [])) high.split);
        from = high.from;
        to = high.to;
      }
    ]

numeral-digit :
    (n d : ℕ) (text : List ℕ) → d < 10 → numeral n ((d + b'0') ∷ text) ≡ numeral (n * 10 + d) text
unfolding numeral is_digit
numeral-digit n d text h =
    let digit : is_digit (d + b'0') ≡ true = ground arith in
    rw digit (ap (λ (m : ℕ). numeral m text) (omega arith))

-- A decimal numeral is read as its number, whatever follows it.
numeral-decimal :
    (k n : ℕ) (text : List ℕ) → n < 10 ^ suc k → numeral 0 (decimal k n ++ text) ≡ numeral n text
unfolding decimal
numeral-decimal zero n text h =
    numeral-digit 0 n text (omega arith) ∙ ap (λ (m : ℕ). numeral m text) (omega arith)
numeral-decimal (suc k) n text h = elim (Bool-cases (ltb n 10)) [
  | inl one ↦
      rw one
        (numeral-digit 0 n text (ltb→lt n 10 one) ∙ ap (λ (m : ℕ). numeral m text) (omega arith))
  | inr more ↦ rw more (
      ap (numeral 0) (append_assoc (decimal k (n / 10)) ((n % 10 + b'0') ∷ []) text)
      ∙ numeral-decimal k (n / 10) ((n % 10 + b'0') ∷ text) (omega arith)
      ∙ numeral-digit (n / 10) (n % 10) text (omega arith)
      ∙ ap (λ (m : ℕ). numeral m text) (omega arith))
]

ranged-numeral :
    (text : List ℕ) (n : ℕ)
    → starts_with_digit text ≡ true
    → numeral 0 text ≡ n
    → n < 2 ^ 64
    → ranged false text ≡ record { value = n; moved = true; out_of_range = false }
unfolding ranged
ranged-numeral text n starts reads fits =
    let small : ltb (2 ^ 64 - 1) n ≡ false = ground arith in rw (starts, reads, small) refl

strtoul-ranged :
    (first : ℕ) (rest : List ℕ)
    → b'0' ≤ first
    → first ≤ b'9'
    → strtoul (first ∷ rest) ≡ ranged false (first ∷ rest)
unfolding strtoul skip_space is_space signed
strtoul-ranged first rest from to = ground arith

first-digit :
    (first : ℕ) (rest : List ℕ)
    → b'0' ≤ first
    → first ≤ b'9'
    → starts_with_digit (first ∷ rest) ≡ true
unfolding starts_with_digit is_digit
first-digit first rest from to = ground arith

-- A number of 64 bits in decimal is converted to itself.
strtoul-decimal :
    (k n : ℕ)
    → n < 10 ^ suc k
    → n < 2 ^ 64
    → strtoul (decimal k n) ≡ record { value = n; moved = true; out_of_range = false }
unfolding numeral
strtoul-decimal k n h fits =
    let s = decimal-Starts k n h in
    ap strtoul s.split
    ∙ strtoul-ranged s.first s.rest s.from s.to
    ∙ ranged-numeral (s.first ∷ s.rest) n (first-digit s.first s.rest s.from s.to)
        (ap (numeral 0) (sym s.split ∙ sym (append-nil (decimal k n))) ∙ numeral-decimal k n [] h)
        fits

-- An option's number in decimal, of 64 bits, is accepted where it is at most the maximum, but also
-- where it is 2 ^ 63 or more; what is stored is the number modulo the size of the field. Every other
-- number is refused with the error of the option.
pub convert-decimal :
    (error : CliError) (k max bound n : ℕ)
    → n < 10 ^ suc k
    → n < 2 ^ 64
    → convert error max bound (decimal k n)
      ≡ (if leb n max || leb (2 ^ 63) n then ok (n % bound) else err (cli error))
unfolding checked_cast i64_exceeds
convert-decimal error k max bound n h fits =
    ap (checked_cast error max bound) (strtoul-decimal k n h fits) ∙ ground arith

-- The options that set every field of a configuration: numbers in decimal, and each flag that is set.
flag : Choice → Bool → List Choice
flag choice set = if set then choice ∷ [] else []

unfoldable pub print_flags : Cli → List Choice
unfolding flag
print_flags c =
    flag truncate_on_fail c.truncate_on_fail ++ (flag help c.help ++ flag version c.version)

unfoldable pub print_choices : Cli → List Choice
print_choices c =
    file c.storage_file
    ∷ read_timeout (decimal 19 c.read_timeout)
    ∷ write_timeout (decimal 19 c.write_timeout)
    ∷ port (decimal 19 c.port)
    ∷ backlog (decimal 19 c.backlog)
    ∷ log_level (decimal 19 c.log_level)
    ∷ print_flags c

-- A configuration whose numbers fit their fields, with a log level of let_log_level_t.
pub record CliFits (c : Cli) : Type 0 where
  pub read_timeout : c.read_timeout < 2 ^ 32
  pub write_timeout : c.write_timeout < 2 ^ 32
  pub port : c.port < 2 ^ 16
  pub backlog : c.backlog < 2 ^ 16
  pub log_level : c.log_level ≤ 5

convert-field :
    (error : CliError) (max bound n : ℕ)
    → n ≤ max
    → max < bound
    → max < 2 ^ 63
    → convert error max bound (decimal 19 n) ≡ ok n
convert-field error max bound n h fits small =
    let low : (leb n max || leb (2 ^ 63) n) ≡ true = ground arith in
    convert-decimal error 19 max bound n (omega arith) (omega arith)
    ∙ rw low (ap ok (mod-eq_of_lt (omega arith)))

-- The flags, behind the fields that are read before them.
cli_parse-flags :
    (c : Cli)
    → c.truncate_on_fail ≡ false
    → c.help ≡ false
    → c.version ≡ false
    → (set_truncate set_help set_version : Bool)
    → cli_parse c
        (flag truncate_on_fail set_truncate ++ (flag help set_help ++ flag version set_version))
      ≡ ok (record c { truncate_on_fail = set_truncate; help = set_help; version = set_version })
unfolding cli_parse apply_choice flag
cli_parse-flags c t h v true true true = refl
cli_parse-flags c t h v true true false = cc
cli_parse-flags c t h v true false true = cc
cli_parse-flags c t h v true false false = cc
cli_parse-flags c t h v false true true = cc
cli_parse-flags c t h v false true false = cc
cli_parse-flags c t h v false false true = cc
cli_parse-flags c t h v false false false = cc

-- Every configuration whose numbers fit their fields is reached: its fields, printed as options, are
-- parsed to the very same configuration.
pub cli_parse-print : (c : Cli) → CliFits c → cli_parse cli_empty (print_choices c) ≡ ok c
unfolding cli_parse apply_choice print_choices print_flags
cli_parse-print c h =
    rw
      (
        convert-field invalid_read_timeout (2 ^ 32 - 1) (2 ^ 32) c.read_timeout (omega arith)
            (omega arith) (omega arith),
        convert-field invalid_write_timeout (2 ^ 32 - 1) (2 ^ 32) c.write_timeout (omega arith)
            (omega arith) (omega arith),
        convert-field invalid_port (2 ^ 16 - 1) (2 ^ 16) c.port (omega arith) (omega arith)
            (omega arith),
        convert-field invalid_backlog (2 ^ 16 - 1) (2 ^ 16) c.backlog (omega arith) (omega arith)
            (omega arith),
        convert-field invalid_log_level 5 (2 ^ 8) c.log_level (omega arith) (omega arith)
            (omega arith),
      )
      (cli_parse-flags (record c { truncate_on_fail = false; help = false; version = false }) refl
        refl refl c.truncate_on_fail c.help c.version)
