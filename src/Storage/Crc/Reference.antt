-- ===== src/Storage/Crc/Reference.antt =====
-- The checksum of LetDB/src/storage/crc.c against the division bit by bit.
use let_dx.Base.{
  ℕ, zero, suc, ◌*◌, ◌/◌, ◌%◌, ◌^◌, ◌<◌, ◌≡◌, refl, sym, ap, ◌∙◌, List, [], ◌∷◌, All, arith, ◌==◌,
  Bool-cases, inl, inr, bit_xor,
}
use let_dx.Base.Bytes.{IsByte}
use let_dx.Base.Xor.{spread, bit_xor-spread, bit_xor-half, bit_xor-even, bit_xor_assoc}
use let_dx.Storage.Crc.{crc_step, crc_tail, crc32c}
use let_dx.Storage.Crc.Bitwise.{polynomial, divide_bit, divide_bits, crc_table_divides}
use let_dx.Storage.Crc.Detection.{index, crc_step-row, crc_step-lt, mixed, crc32c-tail}

-- The register behind each byte, which is taken in at its low end: eight bits of the division.
unfoldable pub divide_bytes : ℕ → List ℕ → ℕ
divide_bytes crc [] = crc
divide_bytes crc (b ∷ bytes) = divide_bytes (divide_bits 8 (bit_xor crc b)) bytes

-- One bit of the division leaves what stands above it.
divide_bit-above :
    (high low : ℕ) → divide_bit (bit_xor (high * 2) low) ≡ bit_xor high (divide_bit low)
divide_bit-above high low =
    let last : bit_xor (high * 2) low % 2 ≡ low % 2 = bit_xor-even (high * 2) low (omega arith) in
    let double : high * 2 / 2 ≡ high = omega arith in
    let rest : bit_xor (high * 2) low / 2 ≡ bit_xor high (low / 2) =
      bit_xor-half (high * 2) low ∙ ap (λ (x : ℕ). bit_xor x (low / 2)) double in
    rw (last, rest)
      (elim (Bool-cases (low % 2 == 1)) [
        | inl odd ↦ rw odd (bit_xor_assoc high (low / 2) polynomial)
        | inr even ↦ rw even refl
      ])

divide_bits-above :
    (n high low : ℕ)
    → divide_bits n (bit_xor (spread n high) low) ≡ bit_xor high (divide_bits n low)
divide_bits-above zero high low = refl
divide_bits-above (suc n) high low =
    ap (divide_bits n) (divide_bit-above (spread n high) low)
    ∙ divide_bits-above n high (divide_bit low)

-- A step over a byte is eight bits of the division.
crc_step-divides :
    (crc byte : ℕ)
    → crc < 2 ^ 32
    → IsByte byte
    → crc_step crc byte ≡ divide_bits 8 (bit_xor crc byte)
crc_step-divides crc byte word is_byte =
    let high = crc / 2 ^ 8 in
    let i = index crc byte in
    let small : i < 256 = unfold index in omega arith in
    let joined : bit_xor crc byte ≡ bit_xor (spread 8 high) i =
      omega (arith, mixed crc byte word is_byte, bit_xor-spread 8 high i (omega arith)) in
    crc_step-row crc byte word is_byte
    ∙ ap (bit_xor high) (crc_table_divides i small)
    ∙ sym (divide_bits-above 8 high i)
    ∙ ap (divide_bits 8) (sym joined)

crc_tail-divides :
    (crc : ℕ) (bytes : List ℕ)
    → crc < 2 ^ 32
    → All IsByte bytes
    → crc_tail crc bytes ≡ divide_bytes crc bytes
unfolding crc_tail divide_bytes
crc_tail-divides crc [] word h = refl
crc_tail-divides crc (b ∷ bytes) word (hb, h) =
    crc_tail-divides (crc_step crc b) bytes (crc_step-lt crc b word hb) h
    ∙ ap (λ (c : ℕ). divide_bytes c bytes) (crc_step-divides crc b word hb)

-- The checksum of any bytes, read from the table and four bytes a round, is what the division bit by
-- bit by the polynomial of CRC-32C leaves: of a register that begins as 32 ones, takes in each byte at
-- its low end, and is inverted at the end.
pub crc32c-divides :
    (bytes : List ℕ)
    → All IsByte bytes
    → crc32c bytes ≡ bit_xor (divide_bytes 0xffffffff bytes) 0xffffffff
unfolding crc32c divide_bytes
crc32c-divides [] h = refl
crc32c-divides (b ∷ bytes) h =
    crc32c-tail (b ∷ bytes) (λ e. cc e) h
    ∙ ap (λ (c : ℕ). bit_xor c 0xffffffff) (crc_tail-divides 0xffffffff (b ∷ bytes) (omega arith) h)
