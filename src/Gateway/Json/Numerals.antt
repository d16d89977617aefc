-- ===== src/Gateway/Json/Numerals.antt =====
-- The decimal texts of LetDD/uint128/uint128.go, read back.
use let_dx.Base.{
  ℕ, zero, suc, ◌+◌, ◌-◌, ◌*◌, ◌/◌, ◌%◌, ◌^◌, ◌<◌, ◌≤◌, ◌≡◌, ◌≢◌, ◌⊎◌, inl, inr, refl, ap, ◌∙◌,
  some, List, [], ◌∷◌, ◌++◌, All, arith, ltb, ltb→lt, Bool-cases,
}
use let_dx.Network.Request.Decoder.Accepts.{IsArgument}
use let_dx.Network.Request.Decoder.RoundTrip.{decimal, print_number, print_number-IsArgument}
use let_dx.Gateway.Uint128.{Uint128, to_number}
use let_dx.Gateway.Uint128.Decimal.{WordsFit, uint128_bytes-decimal}
use let_dx.Gateway.Response.{
  digit, numeral, negative, signed, unsigned, set_string, to_words, same, uint128_parse,
}
use let_dx.Gateway.Json.{quote, marshal_json, trim_prefix, trim_suffix, unmarshal_json}

numeral-append :
    (acc v : ℕ) (cs ds : List ℕ)
    → numeral 10 acc cs ≡ some v
    → numeral 10 acc (cs ++ ds) ≡ numeral 10 v ds
unfolding numeral
numeral-append acc v [] ds h = ap (λ (a : ℕ). numeral 10 a ds) (cc (h))
numeral-append acc v (c ∷ cs) ds h = elim (Bool-cases (ltb (digit c) 10)) [
  | inl is_digit ↦ rw is_digit (numeral-append (acc * 10 + digit c) v cs ds (rw is_digit at h))
  | inr other ↦ cc (rw other at h)
]

numeral-digit : (acc d : ℕ) → d < 10 → numeral 10 acc ((d + b'0') ∷ []) ≡ some (acc * 10 + d)
unfolding numeral digit
numeral-digit acc d h = ground arith

numeral-decimal : (k n : ℕ) → n < 10 ^ suc k → numeral 10 0 (decimal k n) ≡ some n
unfolding decimal
numeral-decimal zero n h = numeral-digit 0 n h ∙ ap some (omega arith)
numeral-decimal (suc k) n h = elim (Bool-cases (ltb n 10)) [
  | inl one ↦ rw one (numeral-digit 0 n (ltb→lt n 10 one) ∙ ap some (omega arith))
  | inr more ↦ rw more (
      numeral-append 0 (n / 10) (decimal k (n / 10)) ((n % 10 + b'0') ∷ [])
        (numeral-decimal k (n / 10) (omega arith))
      ∙ numeral-digit (n / 10) (n % 10) (omega arith)
      ∙ ap some (omega arith))
]

-- The text of a number begins with a digit, and has no quote.
record IsNumeral (cs : List ℕ) (n : ℕ) : Type 0 where
  first : ℕ
  rest : List ℕ
  shape : cs ≡ first ∷ rest
  chars : All IsArgument (first ∷ rest)
  reads : numeral 10 0 (first ∷ rest) ≡ some n

numeral_of :
    (cs : List ℕ) (n : ℕ) → All IsArgument cs → numeral 10 0 cs ≡ some n → cs ≢ [] → IsNumeral cs n
numeral_of [] n h e some_left = absurd (some_left refl)
numeral_of (c ∷ cs) n h e some_left = record {
  first = c;
  rest = cs;
  shape = refl;
  chars = h;
  reads = e;
}

append-some : (cs : List ℕ) (c : ℕ) → cs ++ (c ∷ []) ≢ []
append-some [] c = λ e. cc (e)
append-some (d ∷ cs) c = λ e. cc (e)

decimal-some : (k n : ℕ) → decimal k n ≢ []
unfolding decimal
decimal-some zero n = λ e. cc (e)
decimal-some (suc k) n = elim (Bool-cases (ltb n 10)) [
  | inl one ↦ rw one (λ e. cc (e))
  | inr more ↦ rw more (append-some (decimal k (n / 10)) (n % 10 + b'0'))
]

print_number-IsNumeral : (n : ℕ) → n < 2 ^ 128 → IsNumeral (print_number n) n
unfolding print_number
print_number-IsNumeral n h =
    numeral_of (decimal 38 n) n (unfold print_number in print_number-IsArgument n h)
      (numeral-decimal 38 n (omega arith)) (decimal-some 38 n)

parse-numeral :
    (cs : List ℕ) (n : ℕ)
    → IsNumeral cs n
    → n < 2 ^ 128
    → uint128_parse cs 10 ≡ some (record { high = n / 2 ^ 64; low = n % 2 ^ 64 })
unfolding uint128_parse set_string unsigned signed to_words
parse-numeral cs n h fits = rw h.shape (ground (arith, h.reads, h.chars.0))

parse-negative :
    (cs : List ℕ) (n : ℕ)
    → IsNumeral cs n
    → uint128_parse (b'-' ∷ cs) 10 ≡ to_words (some (negative n))
unfolding uint128_parse set_string unsigned signed
parse-negative cs n h = rw h.shape (ap (λ m. to_words (signed negative m)) h.reads)

trim_suffix-quote : (cs : List ℕ) → All IsArgument cs → trim_suffix (cs ++ (quote ∷ [])) ≡ cs
unfolding trim_suffix
trim_suffix-quote [] h = refl
trim_suffix-quote (c ∷ []) h = refl
trim_suffix-quote (c ∷ d ∷ cs) (hc, h) = ap (λ t. c ∷ t) (trim_suffix-quote (d ∷ cs) h)

trim_suffix-plain :
    (c : ℕ) (cs : List ℕ) → c ≢ quote → All IsArgument cs → trim_suffix (c ∷ cs) ≡ c ∷ cs
unfolding trim_suffix
trim_suffix-plain c [] plain h = ground arith
trim_suffix-plain c (d ∷ cs) plain (hd, h) =
    ap (λ t. c ∷ t) (trim_suffix-plain d cs (λ e. omega arith) h)

words-number :
    (u : Uint128)
    → WordsFit u
    → ◌≡◌ {A = Uint128} (record { high = to_number u / 2 ^ 64; low = to_number u % 2 ^ 64 }) u
words-number u h =
    let high : to_number u / 2 ^ 64 ≡ u.high = omega (arith, h.high_fits, h.low_fits) in
    let low : to_number u % 2 ^ 64 ≡ u.low = omega (arith, h.high_fits, h.low_fits) in
    cc (high, low)

-- A number in the JSON of the gateway is read back as the same number, for words of 64 bits.
pub unmarshal_json-marshal :
    (old u : Uint128) → WordsFit u → unmarshal_json old (marshal_json u) ≡ some u
unfolding unmarshal_json marshal_json same trim_prefix
unmarshal_json-marshal old u h =
    let n = to_number u in
    let fits : n < 2 ^ 128 = omega (arith, h.high_fits, h.low_fits) in
    let text = uint128_bytes-decimal u h in
    ap (λ t. uint128_parse (trim_suffix (t ++ (quote ∷ []))) 10) text
    ∙ ap (λ t. uint128_parse t 10)
        (trim_suffix-quote (print_number n) (print_number-IsArgument n fits))
    ∙ parse-numeral (print_number n) n (print_number-IsNumeral n fits) fits
    ∙ ap some (words-number u h)

-- The number that two words make for -n: the high one is rounded up, the low one is that of -n in two's
-- complement.
abbrev negative_words : ℕ → Uint128
negative_words n = record {
  high = (n + (2 ^ 64 - 1)) / 2 ^ 64 % 2 ^ 64;
  low = (2 ^ 64 - n % 2 ^ 64) % 2 ^ 64;
}

negative_words-positive : (n : ℕ) → 0 < n → n < 2 ^ 128 → 0 < to_number (negative_words n)
negative_words-positive n some_left fits = omega arith

negative_words-above :
    (n : ℕ) → 2 ^ 128 - 2 ^ 64 < n → n < 2 ^ 128 → to_number (negative_words n) + n ≡ 2 ^ 128
negative_words-above n above fits = omega arith

negative_words-rounded :
    (n : ℕ)
    → 0 < n
    → n ≤ 2 ^ 128 - 2 ^ 64
    → (n ≤ to_number (negative_words n))
      × (to_number (negative_words n) + n ≡ 2 * (2 ^ 64 * ((n + (2 ^ 64 - 1)) / 2 ^ 64)))
negative_words-rounded n some_left below = (omega arith, omega arith)

-- A negative number in JSON is read without an error as a positive one. For an n of 1 to
-- 2 ^ 128 - 2 ^ 64, "-n" is read as a number that is as far above the next multiple of 2 ^ 64 as n is
-- below it, so as n itself or a larger number; for an n above that, to 2 ^ 128 - 1, as 2 ^ 128 - n.
pub unmarshal_json-negative :
    (old : Uint128) (n : ℕ)
    → 0 < n
    → n < 2 ^ 128
    → (u : Uint128) × (unmarshal_json old (b'-' ∷ print_number n) ≡ some u)
      × (0 < to_number u)
      × ((n ≤ 2 ^ 128 - 2 ^ 64)
            × (n ≤ to_number u)
            × (to_number u + n ≡ 2 * (2 ^ 64 * ((n + (2 ^ 64 - 1)) / 2 ^ 64)))
          ⊎ (2 ^ 128 - 2 ^ 64 < n) × (to_number u + n ≡ 2 ^ 128))
unfolding unmarshal_json same trim_prefix to_words
unmarshal_json-negative old n some_left fits =
    let text = print_number n in
    (
      negative_words n,
      ap (λ t. uint128_parse t 10)
            (trim_suffix-plain b'-' text (λ e. omega arith) (print_number-IsArgument n fits))
          ∙ parse-negative text n (print_number-IsNumeral n fits),
      negative_words-positive n some_left fits,
      elim (Bool-cases (ltb (2 ^ 128 - 2 ^ 64) n)) [
        | inl above ↦ inr (ltb→lt _ n above, negative_words-above n (ltb→lt _ n above) fits)
        | inr below ↦
            let (larger, rounded) = negative_words-rounded n some_left (ground arith) in
            inl (ground arith, larger, rounded)
      ],
    )
