-- ===== src/Storage/Crc/Bitwise.antt =====
-- The table and the chunked loop of the checksum, against the division bit by bit and byte by byte.
use let_dx.Base.{
  ℕ, zero, suc, ◌/◌, ◌%◌, ◌<◌, ◌≡◌, refl, List, [], ◌∷◌, get_or, ◌==◌, if◌then◌else◌, bit_xor,
}
use let_dx.Base.Tables.{passes_below, eq_below}
use let_dx.Storage.Crc.{crc_table, crc_step, crc_tail, crc_chunks}

-- The polynomial of CRC-32C, its bits reversed.
abbrev pub polynomial : ℕ
polynomial = 0x82f63b78

-- One bit of the division.
abbrev pub divide_bit : ℕ → ℕ
divide_bit c = if c % 2 == 1 then bit_xor (c / 2) polynomial else c / 2

abbrev pub divide_bits : ℕ → ℕ → ℕ
divide_bits zero c = c
divide_bits (suc n) c = divide_bits n (divide_bit c)

-- A row of the table is what eight bits of the division by the polynomial of CRC-32C leave.
pub crc_table_divides : (i : ℕ) → i < 256 → get_or crc_table i 0 ≡ divide_bits 8 i
unfolding crc_table passes_below
crc_table_divides i h = eq_below (λ j. get_or crc_table j 0) (divide_bits 8) 256 i refl h

-- The loop over four bytes a round and the loop over the bytes that are left are, together, one loop
-- over all the bytes.
pub crc_chunks_bytewise : (crc : ℕ) (bytes : List ℕ) → crc_chunks crc bytes ≡ crc_tail crc bytes
unfolding crc_chunks crc_tail
crc_chunks_bytewise crc [] = refl
crc_chunks_bytewise crc (a ∷ []) = refl
crc_chunks_bytewise crc (a ∷ b ∷ []) = refl
crc_chunks_bytewise crc (a ∷ b ∷ c ∷ []) = refl
crc_chunks_bytewise crc (a ∷ b ∷ c ∷ d ∷ bytes) =
    crc_chunks_bytewise (crc_step (crc_step (crc_step (crc_step crc a) b) c) d) bytes
