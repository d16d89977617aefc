-- ===== src/Gateway/Response/Words.antt =====
-- The words of a response text, as LetDD/tcp/response.go splits, trims and reads them.
use let_dx.Base.{
  ℕ, zero, suc, ◌+◌, ◌*◌, ◌/◌, ◌%◌, ◌^◌, ◌<◌, ◌≡◌, ◌≢◌, inl, inr, refl, sym, ap, ◌∙◌, true, some,
  List, [], ◌∷◌, ◌++◌, All, arith, lt→ltb, Bool-cases, append-nil,
}
use let_dx.Base.Bytes.{le_bytes}
use let_dx.Network.Response.Encoder.{skip_zeros}
use let_dx.Network.Response.Encoder.Hex.{hex_of, hex_text}
use let_dx.Network.Response.Encoder.Text.{is_hex, digit_value, read_number, read_number-hex_text}
use let_dx.Gateway.Response.{
  trimmed, trim_right, in_word, split, digit, numeral, at_most, parse_uint, signed, unsigned,
  set_string, to_words, uint128_parse,
}

-- A word of hexadecimal digits.
abbrev pub IsHex : List ℕ → Type 0
IsHex = All (λ c. is_hex c ≡ true)

pub split-word : (w rest : List ℕ) → IsHex w → split (w ++ (b' ' ∷ rest)) ≡ w ∷ split rest
unfolding split in_word
split-word [] rest h = refl
split-word (c ∷ cs) rest (hc, h) = ground (arith, split-word cs rest h)

pub split-last : (w : List ℕ) → IsHex w → split w ≡ w ∷ []
unfolding split in_word
split-last [] h = refl
split-last (c ∷ cs) (hc, h) = ground (arith, split-last cs h)

trim_right-end : (w : List ℕ) → IsHex w → trim_right (w ++ (10 ∷ [])) ≡ w
unfolding trim_right trimmed
trim_right-end [] h = refl
trim_right-end (c ∷ []) (hc, h) = ground arith
trim_right-end (c ∷ d ∷ cs) (hc, h) = rw (trim_right-end (d ∷ cs) h) refl

trimmed-some : (c : ℕ) (rest : List ℕ) → rest ≢ [] → trimmed c rest ≡ c ∷ rest
unfolding trimmed
trimmed-some c [] h = absurd (h refl)
trimmed-some c (d ∷ rest) h = refl

append-some : (before w : List ℕ) → w ≢ [] → before ++ w ≢ []
append-some [] w h = h
append-some (b ∷ before) w h = λ e. cc (e)

pub trim_right-before :
    (before w : List ℕ) → w ≢ [] → IsHex w → trim_right (before ++ (w ++ (10 ∷ []))) ≡ before ++ w
unfolding trim_right
trim_right-before [] w some_left h = trim_right-end w h
trim_right-before (b ∷ before) w some_left h =
    ap (trimmed b) (trim_right-before before w some_left h)
    ∙ trimmed-some b (before ++ w) (append-some before w some_left)

digit-value : (c : ℕ) → is_hex c ≡ true → (digit c ≡ digit_value c) × (digit c < 16)
unfolding digit
digit-value c h = ground arith

numeral-read :
    (cs : List ℕ) (acc v : ℕ)
    → read_number acc cs ≡ (v, [])
    → (numeral 16 acc cs ≡ some v) × IsHex cs
unfolding read_number numeral
numeral-read [] acc v h = (cc (h), tt)
numeral-read (c ∷ cs) acc v h = elim (Bool-cases (is_hex c)) [
  | inl hex ↦
      let (same, below) = digit-value c hex in
      let (value, all_hex) = numeral-read cs (acc * 16 + digit_value c) v (rw hex at h) in
      (
        rw (lt→ltb (digit c) 16 below) (ap (λ (d : ℕ). numeral 16 (acc * 16 + d) cs) same ∙ value),
        (hex, all_hex),
      )
  | inr other ↦ cc (rw other at h)
]

skip_zeros-some : (bytes : List ℕ) (n : ℕ) → 0 < skip_zeros bytes (suc n)
unfolding skip_zeros
skip_zeros-some bytes zero = omega arith
skip_zeros-some bytes (suc n) = ground (arith, skip_zeros-some bytes n)

hex_of-some : (bytes : List ℕ) (n : ℕ) → 0 < n → hex_of bytes n ≢ []
unfolding hex_of
hex_of-some bytes zero h = elim h [ ]
hex_of-some bytes (suc n) h = λ e. cc (e)

-- The text of a number that fits its size, as a word.
pub record Writes (w : List ℕ) (v : ℕ) : Type 0 where
  pub some_digit : w ≢ []
  pub hex : IsHex w
  pub value : numeral 16 0 w ≡ some v

pub hex_text-Writes : (v n : ℕ) → v < 256 ^ suc n → Writes (hex_text v (suc n)) v
unfolding hex_text read_number
hex_text-Writes v n h =
    let bytes = le_bytes (suc n) v in
    let count = skip_zeros bytes (suc n) in
    let (value, all_hex) = numeral-read (hex_of bytes count) 0 v (
      ap (read_number 0) (sym (append-nil (hex_of bytes count)))
      ∙ read_number-hex_text (suc n) v [] h) in
    record {
      some_digit = hex_of-some bytes count (skip_zeros-some bytes n);
      hex = all_hex;
      value = value;
    }

pub parse_uint-Writes :
    (w : List ℕ) (v bits : ℕ) → Writes w v → v < 2 ^ bits → parse_uint w bits ≡ some v
unfolding parse_uint at_most
parse_uint-Writes [] v bits h fits = absurd (h.some_digit refl)
parse_uint-Writes (c ∷ cs) v bits h fits = rw h.value (ground arith)

pub uint128_parse-Writes :
    (w : List ℕ) (v : ℕ)
    → Writes w v
    → v < 2 ^ 128
    → uint128_parse w 16 ≡ some (record { high = v / 2 ^ 64; low = v % 2 ^ 64 })
unfolding uint128_parse set_string unsigned signed to_words
uint128_parse-Writes [] v h fits = absurd (h.some_digit refl)
uint128_parse-Writes (c ∷ cs) v h fits = ground (arith, h.value, h.hex.0)
