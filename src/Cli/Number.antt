-- ===== src/Cli/Number.antt =====
-- strtoul(3) in base 10, as LetDB/src/cli.c calls it: white space, a sign, and the digits; a value
-- of more than 64 bits is the largest one, with ERANGE, and `-` negates in `unsigned long`.
use let_dx.Base.{
  ℕ, ◌+◌, ◌-◌, ◌*◌, ◌%◌, ◌^◌, Bool, true, false, ◌&&◌, ◌||◌, List, [], ◌∷◌, leb, ltb, ◌==◌,
  if◌then◌else◌, not,
}

-- What strtoul returns, whether `end` is past the start, and whether `errno` is ERANGE.
pub record Converted : Type 0 where
  pub value : ℕ
  pub moved : Bool
  pub out_of_range : Bool

unfoldable pub is_digit : ℕ → Bool
is_digit c = leb b'0' c && leb c b'9'

unfoldable pub is_space : ℕ → Bool
is_space c = (c == 32) || (leb 9 c && leb c 13)

unfoldable pub skip_space : List ℕ → List ℕ
unfolding is_space
skip_space [] = []
skip_space (c ∷ cs) = let rest = skip_space cs in if is_space c then rest else c ∷ cs

-- the number that the digits at the front of the text continue
unfoldable pub numeral : ℕ → List ℕ → ℕ
unfolding is_digit
numeral n [] = n
numeral n (c ∷ cs) = let rest = numeral (n * 10 + (c - b'0')) cs in if is_digit c then rest else n

unfoldable pub starts_with_digit : List ℕ → Bool
unfolding is_digit
starts_with_digit [] = false
starts_with_digit (c ∷ cs) = is_digit c

-- the value behind the sign, which is true for `-`
unfoldable pub ranged : Bool → List ℕ → Converted
unfolding numeral starts_with_digit
ranged negative text =
    let n = numeral 0 text in
    if not (starts_with_digit text)
    then record { value = 0; moved = false; out_of_range = false }
    else if ltb (2 ^ 64 - 1) n
    then record { value = 2 ^ 64 - 1; moved = true; out_of_range = true }
    else record {
      value = if negative then (2 ^ 64 - n) % 2 ^ 64 else n;
      moved = true;
      out_of_range = false;
    }

unfoldable pub signed : List ℕ → Converted
unfolding ranged
signed [] = ranged false []
signed (c ∷ cs) =
    if c == b'-'
    then ranged true cs
    else if c == b'+'
    then ranged false cs
    else ranged false (c ∷ cs)

unfoldable pub strtoul : List ℕ → Converted
unfolding skip_space signed
strtoul text = signed (skip_space text)
