-- ===== src/Base/Xor.antt =====
-- The exclusive or and the masks of native numbers, by their lowest digit.
use Prim.Native.Nat.{min, digits, bitwise, differ, bit_and-bitwise, bit_xor-bitwise}
use native.Mathlib.Nat.{le_refl, div-div-eq-div-mul, mod-add-div}
use let_dx.Base.{
  ℕ, zero, suc, ◌+◌, ◌*◌, ◌/◌, ◌%◌, ◌^◌, ◌≤◌, ◌<◌, ◌≡◌, refl, sym, ap, ◌∙◌, bit_and, bit_xor, arith,
}

module _ (ends : ℕ → ℕ) (digit : ℕ → ℕ → ℕ) where
  no_digits : (count b : ℕ) → digits ends digit count 0 b ≡ ends b
  no_digits zero b = refl
  no_digits (suc count) b = refl

  -- A count of digits to go that is large enough may be any other such count.
  spare_digits :
      (few many a b : ℕ)
      → a ≤ few
      → few ≤ many
      → digits ends digit few a b ≡ digits ends digit many a b
  spare_digits few many zero b h k = no_digits few b ∙ sym (no_digits many b)
  spare_digits zero many (suc a) b h k = absurd (omega arith)
  spare_digits (suc few) zero (suc a) b h k = absurd (omega arith)
  spare_digits (suc few) (suc many) (suc a) b h k =
      ap (λ (high : ℕ). high * 2 + digit (suc a % 2) (b % 2))
        (spare_digits few many (suc a / 2) (b / 2) (omega arith) (omega arith))

  lowest :
      (a b : ℕ)
      → bitwise ends digit (suc a) b
        ≡ bitwise ends digit (suc a / 2) (b / 2) * 2 + digit (suc a % 2) (b % 2)
  lowest a b =
      ap (λ (high : ℕ). high * 2 + digit (suc a % 2) (b % 2))
        (sym (spare_digits (suc a / 2) a (suc a / 2) (b / 2) (le_refl _) (omega arith)))

-- The digit of an exclusive or is the sum of the digits without its carry.
differ-sum : (x y : ℕ) → x < 2 → y < 2 → differ x y ≡ (x + y) % 2
differ-sum zero zero h k = refl
differ-sum zero (suc zero) h k = refl
differ-sum (suc zero) zero h k = refl
differ-sum (suc zero) (suc zero) h k = refl
differ-sum zero (suc (suc y)) h k = absurd (omega arith)
differ-sum (suc zero) (suc (suc y)) h k = absurd (omega arith)
differ-sum (suc (suc x)) y h k = absurd (omega arith)

pub zero-bit_xor : (b : ℕ) → bit_xor 0 b ≡ b
zero-bit_xor b = bit_xor-bitwise 0 b

zero-bit_and : (b : ℕ) → bit_and 0 b ≡ 0
zero-bit_and b = bit_and-bitwise 0 b

bit_xor-digit : (a b : ℕ) → bit_xor a b ≡ bit_xor (a / 2) (b / 2) * 2 + (a % 2 + b % 2) % 2
bit_xor-digit zero b = omega (arith, zero-bit_xor b, zero-bit_xor (b / 2))
bit_xor-digit (suc a) b = omega (
  arith,
  bit_xor-bitwise (suc a) b,
  bit_xor-bitwise (suc a / 2) (b / 2),
  lowest (λ d. d) differ a b,
  differ-sum (suc a % 2) (b % 2) (omega arith) (omega arith),
)

bit_and-digit : (a b : ℕ) → bit_and a b ≡ bit_and (a / 2) (b / 2) * 2 + min (a % 2) (b % 2)
bit_and-digit zero b = omega (arith, zero-bit_and b, zero-bit_and (b / 2))
bit_and-digit (suc a) b =
    omega (
      arith,
      bit_and-bitwise (suc a) b,
      bit_and-bitwise (suc a / 2) (b / 2),
      lowest (λ d. 0) min a b,
    )

-- A shift to the right shifts both sides.
pub bit_xor-shift : (k a b : ℕ) → bit_xor a b / 2 ^ k ≡ bit_xor (a / 2 ^ k) (b / 2 ^ k)
bit_xor-shift zero a b =
    let whole : (x : ℕ) → x / 2 ^ 0 ≡ x = λ x. omega arith in
    rw (whole (bit_xor a b), whole a, whole b) refl
bit_xor-shift (suc k) a b =
    let half : bit_xor a b / 2 ≡ bit_xor (a / 2) (b / 2) = omega (arith, bit_xor-digit a b) in
    let power : 2 ^ suc k ≡ 2 * 2 ^ k = grind arith in
    rw power (
      sym (div-div-eq-div-mul (bit_xor a b) 2 (2 ^ k))
      ∙ ap (λ (x : ℕ). x / 2 ^ k) half
      ∙ bit_xor-shift k (a / 2) (b / 2)
      ∙ rw (div-div-eq-div-mul a 2 (2 ^ k), div-div-eq-div-mul b 2 (2 ^ k)) refl)

-- What is combined with the same number can be told apart.
cancel_fuel : (fuel a b c : ℕ) → a ≤ fuel → b ≤ fuel → bit_xor a c ≡ bit_xor b c → a ≡ b
cancel_fuel zero a b c h k same = omega arith
cancel_fuel (suc fuel) a b c h k same =
    let high =
      cancel_fuel fuel (a / 2) (b / 2) (c / 2) (omega arith) (omega arith)
        (omega (arith, bit_xor-digit a c, bit_xor-digit b c)) in
    omega (arith, bit_xor-digit a c, bit_xor-digit b c, high)

pub bit_xor-cancel_right : (a b c : ℕ) → bit_xor a c ≡ bit_xor b c → a ≡ b
bit_xor-cancel_right a b c same = cancel_fuel (a + b) a b c (omega arith) (omega arith) same

comm_fuel : (fuel a b : ℕ) → a ≤ fuel → b ≤ fuel → bit_xor a b ≡ bit_xor b a
comm_fuel zero a b h k =
    let same : a ≡ b = omega arith in ap (bit_xor a) (sym same) ∙ ap (λ (x : ℕ). bit_xor x a) same
comm_fuel (suc fuel) a b h k =
    let high = comm_fuel fuel (a / 2) (b / 2) (omega arith) (omega arith) in
    omega (arith, bit_xor-digit a b, bit_xor-digit b a, high)

bit_xor_comm : (a b : ℕ) → bit_xor a b ≡ bit_xor b a
bit_xor_comm a b = comm_fuel (a + b) a b (omega arith) (omega arith)

pub bit_xor-zero : (a : ℕ) → bit_xor a 0 ≡ a
bit_xor-zero a = bit_xor_comm a 0 ∙ zero-bit_xor a

pub bit_xor-cancel_left : (a b c : ℕ) → bit_xor a b ≡ bit_xor a c → b ≡ c
bit_xor-cancel_left a b c same =
    bit_xor-cancel_right b c a (bit_xor_comm b a ∙ same ∙ bit_xor_comm a c)

-- Two words of k bits make a word of k bits.
pub bit_xor-lt : (k a b : ℕ) → a / 2 ^ k ≡ 0 → b / 2 ^ k ≡ 0 → bit_xor a b / 2 ^ k ≡ 0
bit_xor-lt k a b h h' = bit_xor-shift k a b ∙ rw (h, h') refl

none_fuel : (fuel a : ℕ) → a ≤ fuel → bit_and a 0 ≡ 0
none_fuel zero a h =
    let none : a ≡ 0 = omega arith in ap (λ (x : ℕ). bit_and x 0) none ∙ zero-bit_and 0
none_fuel (suc fuel) a h = omega (arith, bit_and-digit a 0, none_fuel fuel (a / 2) (omega arith))

bit_and-none : (a : ℕ) → bit_and a 0 ≡ 0
bit_and-none a = none_fuel a a (le_refl a)

-- A mask of one more bit.
wider_mask :
    (a p mask : ℕ) → bit_and (a / 2) mask ≡ a / 2 % p → bit_and a (mask * 2 + 1) ≡ a % (2 * p)
wider_mask a p mask h =
    let half : (mask * 2 + 1) / 2 ≡ mask = omega arith in
    let low : bit_and a (mask * 2 + 1) ≡ a / 2 % p * 2 + a % 2 =
      omega (arith, bit_and-digit a (mask * 2 + 1), ap (bit_and (a / 2)) half, h) in
    low ∙ grind (arith, div-div-eq-div-mul a 2 p, mod-add-div a (2 * p), mod-add-div (a / 2) p)

-- The mask of the low eight bits.
pub bit_and-byte : (a : ℕ) → bit_and a 0xff ≡ a % 256
bit_and-byte a =
    let bit = λ (x : ℕ). wider_mask x 1 0 (bit_and-none (x / 2) ∙ omega arith) in
    let two = λ (x : ℕ). wider_mask x 2 1 (bit (x / 2)) in
    let three = λ (x : ℕ). wider_mask x 4 3 (two (x / 2)) in
    let four = λ (x : ℕ). wider_mask x 8 7 (three (x / 2)) in
    let five = λ (x : ℕ). wider_mask x 16 15 (four (x / 2)) in
    let six = λ (x : ℕ). wider_mask x 32 31 (five (x / 2)) in
    let seven = λ (x : ℕ). wider_mask x 64 63 (six (x / 2)) in wider_mask a 128 127 (seven (a / 2))

assoc_fuel :
    (fuel a b c : ℕ)
    → a ≤ fuel
    → b ≤ fuel
    → c ≤ fuel
    → bit_xor (bit_xor a b) c ≡ bit_xor a (bit_xor b c)
assoc_fuel zero a b c h k l =
    let a_none : a ≡ 0 = omega arith in
    let b_none : b ≡ 0 = omega arith in
    rw (a_none, b_none)
      (ap (λ (x : ℕ). bit_xor x c) (zero-bit_xor 0) ∙ sym (zero-bit_xor (bit_xor 0 c)))
assoc_fuel (suc fuel) a b c h k l =
    let high = assoc_fuel fuel (a / 2) (b / 2) (c / 2) (omega arith) (omega arith) (omega arith) in
    let left : bit_xor a b / 2 ≡ bit_xor (a / 2) (b / 2) = omega (arith, bit_xor-digit a b) in
    let right : bit_xor b c / 2 ≡ bit_xor (b / 2) (c / 2) = omega (arith, bit_xor-digit b c) in
    omega (
      arith,
      bit_xor-digit a b,
      bit_xor-digit b c,
      bit_xor-digit (bit_xor a b) c,
      bit_xor-digit a (bit_xor b c),
      ap (λ (x : ℕ). bit_xor x (c / 2)) left,
      ap (bit_xor (a / 2)) right,
      high,
    )

pub bit_xor_assoc : (a b c : ℕ) → bit_xor (bit_xor a b) c ≡ bit_xor a (bit_xor b c)
bit_xor_assoc a b c = assoc_fuel (a + b + c) a b c (omega arith) (omega arith) (omega arith)

-- Halves of an exclusive or, and its last digit beside an even number.
pub bit_xor-half : (a b : ℕ) → bit_xor a b / 2 ≡ bit_xor (a / 2) (b / 2)
bit_xor-half a b = omega (arith, bit_xor-digit a b)

pub bit_xor-even : (a b : ℕ) → a % 2 ≡ 0 → bit_xor a b % 2 ≡ b % 2
bit_xor-even a b h = omega (arith, bit_xor-digit a b)

-- The number with some digits 0 behind it, and the number without its last digits.
abbrev pub spread : ℕ → ℕ → ℕ
spread zero high = high
spread (suc k) high = spread k high * 2

abbrev pub halve : ℕ → ℕ → ℕ
halve zero low = low
halve (suc k) low = halve k (low / 2)

-- Where the digits of two numbers do not meet, the exclusive or is the sum.
pub bit_xor-spread :
    (k high low : ℕ) → halve k low ≡ 0 → bit_xor (spread k high) low ≡ spread k high + low
bit_xor-spread zero high low h = ap (bit_xor high) h ∙ bit_xor-zero high ∙ omega (arith, h)
bit_xor-spread (suc k) high low h =
    let half : spread k high * 2 / 2 ≡ spread k high = omega arith in
    omega (
      arith,
      bit_xor-digit (spread k high * 2) low,
      ap (λ (x : ℕ). bit_xor x (low / 2)) half,
      bit_xor-spread k high (low / 2) h,
    )
