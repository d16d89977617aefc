-- ===== src/Gateway/Uint128/Decimal.antt =====
-- The text that Uint128.Bytes of LetDD/uint128/uint128.go writes by chunks of 18 digits is the decimal
-- form of the number.
use native.Mathlib.Nat.{pow-succ', mul_left_comm, suc-mul}
use let_dx.Base.{
  ℕ, zero, suc, ◌+◌, ◌*◌, ◌/◌, ◌%◌, ◌^◌, ◌<◌, ◌≤◌, ◌≡◌, inl, inr, refl, ap, sym, ◌∙◌, List, [], ◌∷◌,
  ◌++◌, append-nil, append_assoc, arith, ltb, lt→ltb, ltb→lt, Bool-cases, ◌==◌, ◌&&◌, if◌then◌else◌,
}
use let_dx.Network.Request.Decoder.RoundTrip.{decimal, print_number}
use let_dx.Gateway.Uint128.{
  Uint128, to_number, quintillion, write_digits, write_chunk, write_chunks, uint128_bytes,
}

-- A number of one digit, and the last digit of a longer one.
decimal_one : (k n : ℕ) → n < 10 → decimal k n ≡ (n + b'0') ∷ []
unfolding decimal
decimal_one zero n h = refl
decimal_one (suc k) n h = rw (lt→ltb n 10 h) refl

decimal_last : (k n : ℕ) → 9 < n → decimal (suc k) n ≡ decimal k (n / 10) ++ ((n % 10 + b'0') ∷ [])
unfolding decimal
decimal_last k n h = ground arith

-- More rounds than a number needs write the same digits.
pub decimal-fuel : (k m n : ℕ) → n < 10 ^ suc k → decimal (k + m) n ≡ decimal k n
decimal-fuel zero m n h = decimal_one (0 + m) n h ∙ sym (decimal_one 0 n h)
decimal-fuel (suc k) m n h =
    let more : suc k + m ≡ suc (k + m) = omega arith in
    elim (Bool-cases (ltb n 10)) [
      | inl one ↦
          let small = ltb→lt n 10 one in
          decimal_one (suc k + m) n small ∙ sym (decimal_one (suc k) n small)
      | inr many ↦
          let large : 9 < n = ground arith in
          ap (λ (f : ℕ). decimal f n) more
          ∙ decimal_last (k + m) n large
          ∙ ap (λ t. t ++ ((n % 10 + b'0') ∷ [])) (decimal-fuel k m (n / 10) (omega arith))
          ∙ sym (decimal_last k n large)
    ]

pow_pos : (k : ℕ) → 0 < 10 ^ k
pow_pos zero = omega arith
pow_pos (suc k) = omega (arith, pow-succ' 10 k, pow_pos k)

at_least_one : (v p : ℕ) → 0 < v → p ≤ v * p
at_least_one zero p h = elim h [ ]
at_least_one (suc v) p h = omega (arith, suc-mul v p)

scale : (v k : ℕ) → v * 10 ^ suc k ≡ 10 * (v * 10 ^ k)
scale v k = ap (λ (p : ℕ). v * p) (pow-succ' 10 k) ∙ mul_left_comm v 10 (10 ^ k)

-- While the number is not zero, every round goes on.
write_digits_more :
    (k rem : ℕ) (u : Uint128) (out : List ℕ)
    → 0 < to_number u
    → write_digits (suc k) u rem out ≡ write_digits k u (rem / 10) ((rem % 10 + b'0') ∷ out)
unfolding write_digits
write_digits_more k rem u out h = ground arith

-- Behind a number that is not zero, the remainder is written with all its zeros.
write_digits_padded :
    (k m rem : ℕ) (u : Uint128) (out : List ℕ)
    → 0 < to_number u
    → rem < 10 ^ k
    → decimal m (to_number u) ++ write_digits k u rem out
      ≡ decimal (m + k) (to_number u * 10 ^ k + rem) ++ out
write_digits_padded zero m rem u out h fits =
    let rounds : m ≡ m + 0 = omega arith in
    let number : to_number u ≡ to_number u * 10 ^ 0 + rem = omega arith in
    let shown : write_digits 0 u rem out ≡ out = unfold write_digits in refl in
    ap (λ t. decimal m (to_number u) ++ t) shown
    ∙ ap (λ (f : ℕ). decimal f (to_number u) ++ out) rounds
    ∙ ap (λ (n : ℕ). decimal (m + 0) n ++ out) number
write_digits_padded (suc k) m rem u out h fits =
    let n = to_number u * 10 ^ suc k + rem in
    let longer : 10 ^ suc k ≡ 10 * 10 ^ k = pow-succ' 10 k in
    let scaled = scale (to_number u) k in
    let digit : rem % 10 ≡ n % 10 = omega (arith, scaled) in
    let front : to_number u * 10 ^ k + rem / 10 ≡ n / 10 = omega (arith, scaled) in
    let positive : 0 < 10 ^ k = pow_pos k in
    let large : 9 < n = omega (arith, scaled, positive, at_least_one (to_number u) (10 ^ k) h) in
    let rounds : suc (m + k) ≡ m + suc k = omega arith in
    ap (λ t. decimal m (to_number u) ++ t) (write_digits_more k rem u out h)
    ∙ write_digits_padded k m (rem / 10) u ((rem % 10 + b'0') ∷ out) h (omega (arith, longer))
    ∙ ap (λ (q : ℕ). decimal (m + k) q ++ ((rem % 10 + b'0') ∷ out)) front
    ∙ ap (λ (d : ℕ). decimal (m + k) (n / 10) ++ ((d + b'0') ∷ out)) digit
    ∙ sym (append_assoc (decimal (m + k) (n / 10)) ((n % 10 + b'0') ∷ []) out)
    ∙ ap (λ t. t ++ out) (sym (decimal_last (m + k) n large))
    ∙ ap (λ (f : ℕ). decimal f n ++ out) rounds

-- The first digits of the number are written without zeros before them.
write_digits_last :
    (k rem : ℕ) (out : List ℕ)
    → rem < 10
    → write_digits (suc k) (record { high = 0; low = 0 }) rem out ≡ (rem + b'0') ∷ out
unfolding write_digits
write_digits_last k rem out h = ground arith

write_digits_next :
    (k rem : ℕ) (out : List ℕ)
    → 9 < rem
    → write_digits (suc k) (record { high = 0; low = 0 }) rem out
      ≡ write_digits k (record { high = 0; low = 0 }) (rem / 10) ((rem % 10 + b'0') ∷ out)
unfolding write_digits
write_digits_next k rem out h = ground arith

write_digits_first :
    (k rem : ℕ) (out : List ℕ)
    → rem < 10 ^ suc k
    → write_digits (suc k) (record { high = 0; low = 0 }) rem out ≡ decimal k rem ++ out
write_digits_first zero rem out h =
    write_digits_last 0 rem out h ∙ ap (λ t. t ++ out) (sym (decimal_one 0 rem h))
write_digits_first (suc k) rem out h = elim (Bool-cases (ltb rem 10)) [
  | inl one ↦
      let small = ltb→lt rem 10 one in
      write_digits_last (suc k) rem out small
      ∙ ap (λ t. t ++ out) (sym (decimal_one (suc k) rem small))
  | inr many ↦
      let large : 9 < rem = ground arith in
      write_digits_next (suc k) rem out large
      ∙ write_digits_first k (rem / 10) ((rem % 10 + b'0') ∷ out) (omega arith)
      ∙ sym (append_assoc (decimal k (rem / 10)) ((rem % 10 + b'0') ∷ []) out)
      ∙ ap (λ t. t ++ out) (sym (decimal_last k rem large))
]

-- The words of a number fit.
pub record WordsFit (u : Uint128) : Type 0 where
  pub high_fits : u.high < 2 ^ 64
  pub low_fits : u.low < 2 ^ 64

-- The two divisions divide the whole number.
abbrev next : Uint128 → Uint128
next u = record {
  high = (0 * 2 ^ 64 + u.high) / quintillion;
  low = ((0 * 2 ^ 64 + u.high) % quintillion * 2 ^ 64 + u.low) / quintillion;
}

abbrev remainder : Uint128 → ℕ
remainder u = ((0 * 2 ^ 64 + u.high) % quintillion * 2 ^ 64 + u.low) % quintillion

next-number : (u : Uint128) → to_number (next u) ≡ to_number u / quintillion
next-number u = omega arith

remainder-number : (u : Uint128) → remainder u ≡ to_number u % quintillion
remainder-number u = omega arith

next-WordsFit : (u : Uint128) → WordsFit u → WordsFit (next u)
next-WordsFit u h = record { high_fits = omega arith; low_fits = omega arith }

write_chunk_lem :
    (u : Uint128) (out : List ℕ)
    → write_chunk u out ≡ (next u, write_digits 18 (next u) (remainder u) out)
unfolding write_chunk
write_chunk_lem u out = refl

-- The numbers for which some rounds are enough.
abbrev reach : ℕ → ℕ
reach zero = 1
reach (suc fuel) = quintillion * reach fuel

write_chunks-zero :
    (fuel : ℕ) (u : Uint128) (out : List ℕ) → to_number u ≡ 0 → write_chunks fuel u out ≡ out
unfolding write_chunks
write_chunks-zero zero u out h = refl
write_chunks-zero (suc fuel) u out h = ground arith

write_chunks-next :
    (fuel : ℕ) (u : Uint128) (out : List ℕ)
    → 0 < to_number u
    → write_chunks (suc fuel) u out
      ≡ write_chunks fuel (next u) (write_digits 18 (next u) (remainder u) out)
unfolding write_chunks
write_chunks-next fuel u out h = ground (arith, write_chunk_lem u out)

write_chunks_lem :
    (fuel : ℕ) (u : Uint128) (out : List ℕ)
    → 0 < to_number u
    → to_number u < reach fuel
    → write_chunks fuel u out ≡ decimal (18 * fuel) (to_number u) ++ out
write_chunks_lem zero u out some_left fits = absurd (omega arith)
write_chunks_lem (suc fuel) u out some_left fits =
    let n = to_number u in
    let written = write_digits 18 (next u) (remainder u) out in
    let divided = next-number u in
    let remains = remainder-number u in
    let rounds : 18 * fuel + 18 ≡ 18 * suc fuel = omega arith in
    let number : to_number (next u) * 10 ^ 18 + remainder u ≡ n = omega arith in
    elim (Bool-cases (to_number (next u) == 0)) [
      | inl nothing ↦
          let empty : to_number (next u) ≡ 0 = ground arith in
          let high : (next u).high ≡ 0 = omega arith in
          let low : (next u).low ≡ 0 = omega arith in
          let nil : next u ≡ record { high = 0; low = 0 } = cc (high, low) in
          let whole : remainder u ≡ n = omega arith in
          let enough : 17 + (18 * fuel + 1) ≡ 18 * suc fuel = omega arith in
          write_chunks-next fuel u out some_left
          ∙ write_chunks-zero fuel (next u) written empty
          ∙ ap (λ v. write_digits 18 v (remainder u) out) nil
          ∙ write_digits_first 17 (remainder u) out (omega arith)
          ∙ ap (λ (r : ℕ). decimal 17 r ++ out) whole
          ∙ ap (λ t. t ++ out) (sym (decimal-fuel 17 (18 * fuel + 1) n (omega arith)))
          ∙ ap (λ (f : ℕ). decimal f n ++ out) enough
      | inr more ↦
          write_chunks-next fuel u out some_left
          ∙ write_chunks_lem fuel (next u) written (ground arith) (omega arith)
          ∙ write_digits_padded 18 (18 * fuel) (remainder u) (next u) out (ground arith)
              (omega arith)
          ∙ ap (λ (n : ℕ). decimal (18 * fuel + 18) n ++ out) number
          ∙ ap (λ (f : ℕ). decimal f n ++ out) rounds
    ]

tests :
    (u : Uint128) (text : List ℕ)
    → 0 < to_number u
    → (if u.high == 0 && u.low == 0 then b'0' ∷ [] else text) ≡ text
tests u text h = ground arith

-- For words of 64 bits, the text is the decimal form of the number, without leading zeros.
pub uint128_bytes-decimal :
    (u : Uint128) → WordsFit u → uint128_bytes u ≡ print_number (to_number u)
unfolding uint128_bytes print_number
uint128_bytes-decimal u h = elim (Bool-cases (to_number u == 0)) [
  | inl nothing ↦
      let empty : to_number u ≡ 0 = ground arith in
      ground (arith, decimal_one 38 (to_number u) (omega arith), ap (decimal 38) empty)
  | inr more ↦
      let some_left : 0 < to_number u = ground arith in
      let n = to_number u in
      let large : n < 10 ^ 39 = omega (arith, h.high_fits, h.low_fits) in
      tests u (write_chunks 3 u []) some_left
      ∙ write_chunks_lem 3 u [] some_left (omega (arith, large))
      ∙ append-nil (decimal 54 n)
      ∙ decimal-fuel 38 16 n large
]
