-- ===== src/Network/Response/Encoder/Text.antt =====
-- Reading a number back from its hexadecimal text.
use let_dx.Base.{
  ℕ, zero, suc, ◌+◌, ◌-◌, ◌*◌, ◌/◌, ◌%◌, ◌^◌, ◌<◌, ◌≡◌, refl, ap, ◌∙◌, Bool, true, ◌||◌, ◌&&◌, List,
  [], ◌∷◌, ◌++◌, get_or, All, arith, leb, ◌==◌, ==_iff, if◌then◌else◌, Bool-cases, inl, inr,
}
use native.Mathlib.Nat.{pow-suc}
use let_dx.Base.Tables.{passes_below, passes_at, eq_below}
use let_dx.Base.Bytes.{le_bytes, IsByte, le_bytes-IsByte}
use let_dx.Network.Response.Encoder.{skip_zeros, high_digit, low_digit}
use let_dx.Network.Response.Encoder.Hex.{hex_of, hex_text}

abbrev pub is_hex : ℕ → Bool
is_hex c = leb b'0' c && leb c b'9' || leb b'A' c && leb c b'F'

abbrev pub digit_value : ℕ → ℕ
digit_value c = if leb c b'9' then c - b'0' else c - 55

-- The number in front of a text, behind one already read, and the text that follows.
unfoldable pub read_number : ℕ → List ℕ → ℕ × List ℕ
read_number acc [] = (acc, [])
read_number acc (c ∷ cs) =
    let rest = read_number (acc * 16 + digit_value c) cs in if is_hex c then rest else (acc, c ∷ cs)

high_is_hex : (b : ℕ) → b < 256 → is_hex (high_digit b) ≡ true
unfolding passes_below
high_is_hex b h = passes_at (λ x. is_hex (high_digit x)) 256 b refl h

low_is_hex : (b : ℕ) → b < 256 → is_hex (low_digit b) ≡ true
unfolding passes_below
low_is_hex b h = passes_at (λ x. is_hex (low_digit x)) 256 b refl h

high_value : (b : ℕ) → b < 256 → digit_value (high_digit b) ≡ b / 16
unfolding passes_below
high_value b h = eq_below (λ x. digit_value (high_digit x)) (λ x. x / 16) 256 b refl h

low_value : (b : ℕ) → b < 256 → digit_value (low_digit b) ≡ b % 16
unfolding passes_below
low_value b h = eq_below (λ x. digit_value (low_digit x)) (λ x. x % 16) 256 b refl h

read_digit :
    (acc c v : ℕ) (cs : List ℕ)
    → is_hex c ≡ true
    → digit_value c ≡ v
    → read_number acc (c ∷ cs) ≡ read_number (acc * 16 + v) cs
unfolding read_number
read_digit acc c v cs h k = rw h (ap (λ (t : ℕ). read_number (acc * 16 + t) cs) k)

read_byte :
    (acc b : ℕ) (cs : List ℕ)
    → b < 256
    → read_number acc (high_digit b ∷ low_digit b ∷ cs) ≡ read_number (acc * 256 + b) cs
read_byte acc b cs h =
    read_digit acc (high_digit b) (b / 16) (low_digit b ∷ cs) (high_is_hex b h) (high_value b h)
    ∙ read_digit (acc * 16 + b / 16) (low_digit b) (b % 16) cs (low_is_hex b h) (low_value b h)
    ∙ ap (λ (t : ℕ). read_number t cs) (omega arith)

-- The value of the first `n` bytes, lowest first.
unfoldable pub low_value_of : List ℕ → ℕ → ℕ
low_value_of bytes zero = 0
low_value_of bytes (suc n) = low_value_of bytes n + get_or bytes n 0 * 256 ^ n

get_or-IsByte : (bytes : List ℕ) (i : ℕ) → All IsByte bytes → get_or bytes i 0 < 256
get_or-IsByte [] i h = omega arith
get_or-IsByte (b ∷ bytes) zero h = h.0
get_or-IsByte (b ∷ bytes) (suc i) h = get_or-IsByte bytes i h.1

read_number-hex_of :
    (bytes : List ℕ) (n acc : ℕ) (cs : List ℕ)
    → All IsByte bytes
    → read_number acc (hex_of bytes n ++ cs) ≡ read_number (acc * 256 ^ n + low_value_of bytes n) cs
unfolding hex_of low_value_of
read_number-hex_of bytes zero acc cs h = ap (λ (t : ℕ). read_number t cs) (omega arith)
read_number-hex_of bytes (suc n) acc cs h =
    read_byte acc (get_or bytes n 0) (hex_of bytes n ++ cs) (get_or-IsByte bytes n h)
    ∙ read_number-hex_of bytes n (acc * 256 + get_or bytes n 0) cs h
    ∙ ap (λ (t : ℕ). read_number t cs) (omega (arith, ap (λ (t : ℕ). acc * t) (pow-suc 256 n)))

low_value_of-skip :
    (bytes : List ℕ) (n : ℕ) → low_value_of bytes (skip_zeros bytes n) ≡ low_value_of bytes n
unfolding skip_zeros low_value_of
low_value_of-skip bytes zero = refl
low_value_of-skip bytes (suc zero) = refl
low_value_of-skip bytes (suc (suc n)) = elim (Bool-cases (get_or bytes (suc n) 0 == 0)) [
  | inl zero_byte ↦
      let nothing : get_or bytes (suc n) 0 * 256 ^ suc n ≡ 0 =
        ap (λ (t : ℕ). t * 256 ^ suc n) ((==_iff (get_or bytes (suc n) 0) 0).0 zero_byte)
        ∙ omega arith in
      rw zero_byte (low_value_of-skip bytes (suc n) ∙ omega (arith, nothing))
  | inr digit ↦ rw digit
]

low_value_of-cons :
    (b : ℕ) (bytes : List ℕ) (n : ℕ)
    → low_value_of (b ∷ bytes) (suc n) ≡ b + 256 * low_value_of bytes n
unfolding low_value_of
low_value_of-cons b bytes zero = omega arith
low_value_of-cons b bytes (suc n) =
    omega (arith, low_value_of-cons b bytes n, ap (λ (t : ℕ). get_or bytes n 0 * t) (pow-suc 256 n))

low_value_of-le_bytes : (size v : ℕ) → v < 256 ^ size → low_value_of (le_bytes size v) size ≡ v
unfolding le_bytes
low_value_of-le_bytes zero v h = unfold low_value_of in omega arith
low_value_of-le_bytes (suc size) v h =
    low_value_of-cons (v % 256) (le_bytes size (v / 256)) size
    ∙ omega (arith, low_value_of-le_bytes size (v / 256) (grind arith))

-- The text of a number that fits its size is read back as that number, up to the first character
-- that is no hexadecimal digit.
pub read_number-hex_text :
    (size v : ℕ) (cs : List ℕ)
    → v < 256 ^ size
    → read_number 0 (hex_text v size ++ cs) ≡ read_number v cs
unfolding hex_text
read_number-hex_text size v cs h =
    let bytes = le_bytes size v in
    read_number-hex_of bytes (skip_zeros bytes size) 0 cs (le_bytes-IsByte size v)
    ∙ ap (λ (t : ℕ). read_number t cs)
        (omega (arith, low_value_of-skip bytes size, low_value_of-le_bytes size v h))
