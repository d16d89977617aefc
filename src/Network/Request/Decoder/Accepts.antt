-- ===== src/Network/Request/Decoder/Accepts.antt =====
-- The decoder reads commands, and decimal arguments of digits and underscores between spaces.
use let_dx.Base.{
  ℕ, ◌+◌, ◌-◌, ◌*◌, ◌%◌, ◌^◌, ◌≤◌, ◌<◌, ◌≡◌, ◌⊎◌, refl, ◌∙◌, List, [], ◌∷◌, ◌++◌, All, arith,
  if◌then◌else◌, ◌==◌,
}
use let_dx.Result.{Result, ok}
use let_dx.Network.Request.{Request}
use let_dx.Network.Request.Decoder.{
  Decoder, argument, end, fill, parse_u128, parse_u64, parse_u8, parse_argument, run_argument,
  run_byte, run_loop,
}

-- A character of an argument: a digit, or an underscore.
abbrev pub IsArgument : ℕ → Type 0
IsArgument c = (b'0' ≤ c) × (c ≤ b'9') ⊎ (c ≡ b'_')

-- The number that an argument's characters stand for, behind a number already read: decimal
-- digits, where underscores do not count.
unfoldable pub value_from : ℕ → List ℕ → ℕ
value_from acc [] = acc
value_from acc (c ∷ cs) = value_from (if c == b'_' then acc else acc * 10 + (c - b'0')) cs

unfoldable pub value : List ℕ → ℕ
unfolding value_from
value cs = value_from 0 cs

-- The number never falls while it is read.
le-value_from : (acc : ℕ) (cs : List ℕ) → acc ≤ value_from acc cs
unfolding value_from
le-value_from acc [] = omega arith
le-value_from acc (c ∷ cs) =
    ground (arith, le-value_from (if c == b'_' then acc else acc * 10 + (c - b'0')) cs)

unfoldable pub next_value : ℕ → ℕ → ℕ
next_value acc c = if c == b'_' then acc else acc * 10 + (c - b'0')

parse_u128_char :
    (argc c v : ℕ)
    → IsArgument c
    → next_value v c < 2 ^ 128
    → parse_u128 argc c v ≡ ok (argc, next_value v c)
unfolding parse_u128 next_value
parse_u128_char argc c v h fits = ground arith

parse_u64_char :
    (argc c v : ℕ)
    → IsArgument c
    → next_value v c < 2 ^ 64
    → parse_u64 argc c v ≡ ok (argc, next_value v c)
unfolding parse_u64
parse_u64_char argc c v h fits = ground (arith, parse_u128_char argc c v)

parse_u8_char :
    (argc c v : ℕ)
    → IsArgument c
    → next_value v c < 2 ^ 8
    → parse_u8 argc c v ≡ ok (argc, next_value v c)
unfolding parse_u8
parse_u8_char argc c v h fits = ground (arith, parse_u128_char argc c v)

-- A parser that reads the characters of an argument into a field below `bound`, and lets a space
-- end it.
pub record Reads (parse : ℕ → ℕ → ℕ → Result (ℕ × ℕ)) (bound : ℕ) : Type 0 where
  pub char :
      (argc c v : ℕ)
      → IsArgument c
      → next_value v c < bound
      → parse argc c v ≡ ok (argc, next_value v c)
  pub space : (argc v : ℕ) → v < bound → parse argc b' ' v ≡ ok ((argc + 255) % 2 ^ 8, v)

pub Reads-u128 : Reads parse_u128 (2 ^ 128)
unfolding parse_u128
Reads-u128 = record { char = parse_u128_char; space = λ argc v h. refl }

pub Reads-u64 : Reads parse_u64 (2 ^ 64)
unfolding parse_u64 parse_u128
Reads-u64 = record { char = parse_u64_char; space = λ argc v h. ground arith }

pub Reads-u8 : Reads parse_u8 (2 ^ 8)
unfolding parse_u8 parse_u128
Reads-u8 = record { char = parse_u8_char; space = λ argc v h. ground arith }

-- A decoder between two bytes of its arguments.
abbrev pub reading : Request → ℕ → Decoder
reading r argc = record { request = r; request_argc = argc; state = argument }

-- One field of a request, with the parser that fills it when `argc` arguments are left.
module _ (parse : ℕ → ℕ → ℕ → Result (ℕ × ℕ)) (bound argc : ℕ) (f : ℕ → Request)
    (reads : Reads parse bound) (some_left : (1 ≤ argc) × (argc ≤ 4))
    (slot : (v byte : ℕ) → parse_argument (f v) argc byte ≡ fill f (parse argc byte v)) where
  run_char :
      (c v : ℕ) (rest : List ℕ)
      → IsArgument c
      → next_value v c < bound
      → run_loop (reading (f v) argc) (c ∷ rest) ≡ run_loop (reading (f (next_value v c)) argc) rest
  unfolding run_loop run_byte run_argument
  run_char c v rest h fits = rw (slot v c) (rw (reads.char argc c v h fits) (ground arith))

  run_argument_chars :
      (cs : List ℕ) (v : ℕ) (rest : List ℕ)
      → All IsArgument cs
      → value_from v cs < bound
      → run_loop (reading (f v) argc) (cs ++ rest)
        ≡ run_loop (reading (f (value_from v cs)) argc) rest
  unfolding value_from next_value
  run_argument_chars [] v rest h fits = refl
  run_argument_chars (c ∷ cs) v rest (hc, h) fits =
      run_char c v (cs ++ rest) hc (omega (arith, le-value_from (next_value v c) cs))
      ∙ run_argument_chars cs (next_value v c) rest h fits

  run_space :
      (v : ℕ) (rest : List ℕ)
      → v < bound
      → 1 < argc
      → run_loop (reading (f v) argc) (b' ' ∷ rest) ≡ run_loop (reading (f v) (argc - 1)) rest
  unfolding run_loop run_byte run_argument
  run_space v rest fits more =
      let left : (argc + 255) % 2 ^ 8 ≡ argc - 1 = omega arith in
      rw (slot v b' ') (rw (reads.space argc v fits) (rw left (ground arith)))

  -- An argument that others follow.
  pub run_argument_more :
      (cs rest : List ℕ)
      → All IsArgument cs
      → value cs < bound
      → 1 < argc
      → run_loop (reading (f 0) argc) (cs ++ (b' ' ∷ rest))
        ≡ run_loop (reading (f (value cs)) (argc - 1)) rest
  unfolding value
  run_argument_more cs rest h fits more =
      run_argument_chars cs 0 (b' ' ∷ rest) h fits ∙ run_space (value_from 0 cs) rest fits more

  -- The last argument.
  pub run_argument_last :
      (cs : List ℕ)
      → All IsArgument cs
      → value cs < bound
      → argc ≡ 1
      → run_loop (reading (f 0) argc) (cs ++ (b' ' ∷ []))
        ≡ ok (record { request = f (value cs); request_argc = 0; state = end }, [])
  unfolding value run_loop run_byte run_argument
  run_argument_last cs h fits last =
      run_argument_chars cs 0 (b' ' ∷ []) h fits ∙ rw last (ground arith)
