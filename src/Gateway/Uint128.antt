-- ===== src/Gateway/Uint128.antt =====
-- LetDD/uint128/uint128.go: a number of 128 bits as two words, and its decimal text.
pub mod Decimal
use let_dx.Base.{ℕ, zero, suc, ◌+◌, ◌*◌, ◌/◌, ◌%◌, ◌^◌, List, [], ◌∷◌, ◌==◌, ◌&&◌, if◌then◌else◌}

-- Uint128
pub record Uint128 : Type 0 where
  pub high : ℕ
  pub low : ℕ

abbrev pub to_number : Uint128 → ℕ
to_number u = u.high * 2 ^ 64 + u.low

-- QUINTILLION
abbrev pub quintillion : ℕ
quintillion = 10 ^ 18

-- bits.Div64: the quotient and the remainder of hi * 2 ^ 64 + lo
abbrev pub div64 : ℕ → ℕ → ℕ → ℕ × ℕ
div64 hi lo y = ((hi * 2 ^ 64 + lo) / y, (hi * 2 ^ 64 + lo) % y)

-- the digits of one remainder, written in front of those that are there, for the rounds that are left
unfoldable pub write_digits : ℕ → Uint128 → ℕ → List ℕ → List ℕ
write_digits zero u rem out = out
write_digits (suc rounds) u rem out =
    let written = (rem % 10 + b'0') ∷ out in
    let rest = write_digits rounds u (rem / 10) written in
    if u.high == 0 && u.low == 0 && rem / 10 == 0 then written else rest

-- the division of the number, and the digits of its remainder
unfoldable pub write_chunk : Uint128 → List ℕ → Uint128 × List ℕ
unfolding write_digits
write_chunk u out =
    let first = div64 0 u.high quintillion in
    let second = div64 first.1 u.low quintillion in
    let next : Uint128 = record { high = first.0; low = second.0 } in
    (next, write_digits 18 next second.1 out)

-- the loop; three rounds are enough for 128 bits
unfoldable pub write_chunks : ℕ → Uint128 → List ℕ → List ℕ
unfolding write_chunk
write_chunks zero u out = out
write_chunks (suc fuel) u out =
    let round = write_chunk u out in
    let rest = write_chunks fuel round.0 round.1 in if u.high == 0 && u.low == 0 then out else rest

-- Uint128.Bytes, and Uint128.String, which has the same bytes
unfoldable pub uint128_bytes : Uint128 → List ℕ
unfolding write_chunks
uint128_bytes u = if u.high == 0 && u.low == 0 then b'0' ∷ [] else write_chunks 3 u []
