-- ===== src/Storage/Crc/Detection.antt =====
-- The checksum of LetDB/src/storage/crc.c changes with every byte.
use let_dx.Base.{
  ℕ, suc, ◌+◌, ◌*◌, ◌/◌, ◌%◌, ◌^◌, ◌<◌, ◌≡◌, ◌≢◌, refl, sym, ap, ◌∙◌, List, [], ◌∷◌, ◌++◌, All,
  All-append, get_or, arith, ◌==◌, bit_xor, if◌then◌else◌,
}
use let_dx.Base.Bytes.{IsByte}
use let_dx.Base.Tables.{passes_below, eq_below}
use let_dx.Base.Xor.{
  zero-bit_xor, bit_xor-zero, bit_xor-shift, bit_xor-cancel_right, bit_xor-cancel_left, bit_xor-lt,
  bit_and-byte,
}
use let_dx.Storage.Crc.{crc_table, crc_step, crc_tail, crc32c}
use let_dx.Storage.Crc.Bitwise.{crc_chunks_bytewise}

-- The row of the table with that top byte.
row_of : List ℕ → ℕ → ℕ
row_of [] top = 0
row_of (row ∷ rows) top =
    let rest = suc (row_of rows top) in if row / 2 ^ 24 == top then 0 else rest

abbrev row : ℕ → ℕ
row i = get_or crc_table i 0

-- No two rows share their top byte, and each has 32 bits.
row_of-row : (i : ℕ) → i < 256 → row_of crc_table (row i / 2 ^ 24) ≡ i
unfolding crc_table passes_below row_of
row_of-row i h = eq_below (λ j. row_of crc_table (row j / 2 ^ 24)) (λ j. j) 256 i refl h

row_word : (i : ℕ) → i < 256 → row i / 2 ^ 32 ≡ 0
unfolding crc_table passes_below
row_word i h = eq_below (λ j. row j / 2 ^ 32) (λ j. 0) 256 i refl h

row-injective : (i j : ℕ) → i < 256 → j < 256 → row i / 2 ^ 24 ≡ row j / 2 ^ 24 → i ≡ j
row-injective i j h k same = sym (row_of-row i h) ∙ ap (row_of crc_table) same ∙ row_of-row j k

-- The row that a step takes.
unfoldable pub index : ℕ → ℕ → ℕ
index crc byte = bit_xor crc byte % 256

module _ (crc byte : ℕ) (word : crc < 2 ^ 32) (is_byte : IsByte byte) where
  step_word : bit_xor (crc / 2 ^ 8) (row (index crc byte)) / 2 ^ 32 ≡ 0
  unfolding index
  step_word =
      bit_xor-lt 32 (crc / 2 ^ 8) (row (index crc byte)) (omega arith)
        (row_word (index crc byte) (omega arith))

  pub crc_step-row : crc_step crc byte ≡ bit_xor (crc / 2 ^ 8) (row (index crc byte))
  unfolding crc_step index
  crc_step-row = rw (bit_and-byte (bit_xor crc byte)) (omega (arith, step_word))

  pub crc_step-lt : crc_step crc byte < 2 ^ 32
  crc_step-lt = omega (arith, crc_step-row, step_word)

  -- The top byte of a step is that of its row.
  crc_step-top : crc_step crc byte / 2 ^ 24 ≡ row (index crc byte) / 2 ^ 24
  crc_step-top =
      let none : crc / 2 ^ 8 / 2 ^ 24 ≡ 0 = omega arith in
      ap (λ (c : ℕ). c / 2 ^ 24) crc_step-row
      ∙ bit_xor-shift 24 (crc / 2 ^ 8) (row (index crc byte))
      ∙ rw none (zero-bit_xor (row (index crc byte) / 2 ^ 24))

  -- What the index leaves out of the exclusive or is the rest of the checksum.
  pub mixed : bit_xor crc byte ≡ crc / 2 ^ 8 * 256 + index crc byte
  unfolding index
  mixed =
      let none : byte / 2 ^ 8 ≡ 0 = omega arith in
      let high : bit_xor crc byte / 2 ^ 8 ≡ bit_xor (crc / 2 ^ 8) 0 =
        bit_xor-shift 8 crc byte ∙ ap (bit_xor (crc / 2 ^ 8)) none in
      omega (arith, high, bit_xor-zero (crc / 2 ^ 8))

-- Two steps that agree took the same row.
same_index :
    (crc crc' byte byte' : ℕ)
    → crc < 2 ^ 32
    → crc' < 2 ^ 32
    → IsByte byte
    → IsByte byte'
    → crc_step crc byte ≡ crc_step crc' byte'
    → index crc byte ≡ index crc' byte'
unfolding index
same_index crc crc' byte byte' word word' is_byte is_byte' same =
    row-injective (index crc byte) (index crc' byte') (omega arith) (omega arith) (
      sym (crc_step-top crc byte word is_byte)
      ∙ ap (λ (c : ℕ). c / 2 ^ 24) same
      ∙ crc_step-top crc' byte' word' is_byte')

-- A step tells apart the checksums before it.
crc_step-injective :
    (crc crc' byte : ℕ)
    → crc < 2 ^ 32
    → crc' < 2 ^ 32
    → IsByte byte
    → crc_step crc byte ≡ crc_step crc' byte
    → crc ≡ crc'
crc_step-injective crc crc' byte word word' is_byte same =
    let i = same_index crc crc' byte byte word word' is_byte is_byte same in
    let rest : crc / 2 ^ 8 ≡ crc' / 2 ^ 8 =
      bit_xor-cancel_right (crc / 2 ^ 8) (crc' / 2 ^ 8) (row (index crc byte)) (
        sym (crc_step-row crc byte word is_byte)
        ∙ same
        ∙ crc_step-row crc' byte word' is_byte
        ∙ ap (λ (k : ℕ). bit_xor (crc' / 2 ^ 8) (row k)) (sym i)) in
    bit_xor-cancel_right crc crc' byte
      (omega (arith, mixed crc byte word is_byte, mixed crc' byte word' is_byte, rest, i))

-- A step tells apart the bytes.
crc_step-byte :
    (crc byte byte' : ℕ)
    → crc < 2 ^ 32
    → IsByte byte
    → IsByte byte'
    → crc_step crc byte ≡ crc_step crc byte'
    → byte ≡ byte'
crc_step-byte crc byte byte' word is_byte is_byte' same =
    let i = same_index crc crc byte byte' word word is_byte is_byte' same in
    bit_xor-cancel_left crc byte byte'
      (omega (arith, mixed crc byte word is_byte, mixed crc byte' word is_byte', i))

crc_tail-lt :
    (crc : ℕ) (bytes : List ℕ) → crc < 2 ^ 32 → All IsByte bytes → crc_tail crc bytes < 2 ^ 32
unfolding crc_tail
crc_tail-lt crc [] word h = word
crc_tail-lt crc (b ∷ bytes) word (hb, h) =
    crc_tail-lt (crc_step crc b) bytes (crc_step-lt crc b word hb) h

crc_tail-injective :
    (bytes : List ℕ) (crc crc' : ℕ)
    → All IsByte bytes
    → crc < 2 ^ 32
    → crc' < 2 ^ 32
    → crc_tail crc bytes ≡ crc_tail crc' bytes
    → crc ≡ crc'
unfolding crc_tail
crc_tail-injective [] crc crc' h word word' same = same
crc_tail-injective (b ∷ bytes) crc crc' (hb, h) word word' same =
    crc_step-injective crc crc' b word word' hb (
      crc_tail-injective bytes (crc_step crc b) (crc_step crc' b) h (crc_step-lt crc b word hb)
        (crc_step-lt crc' b word' hb) same)

crc_tail-byte :
    (before : List ℕ) (crc byte byte' : ℕ) (after : List ℕ)
    → crc < 2 ^ 32
    → All IsByte before
    → IsByte byte
    → IsByte byte'
    → All IsByte after
    → crc_tail crc (before ++ (byte ∷ after)) ≡ crc_tail crc (before ++ (byte' ∷ after))
    → byte ≡ byte'
unfolding crc_tail
crc_tail-byte [] crc byte byte' after word h is_byte is_byte' h' same =
    crc_step-byte crc byte byte' word is_byte is_byte' (
      crc_tail-injective after (crc_step crc byte) (crc_step crc byte') h'
        (crc_step-lt crc byte word is_byte) (crc_step-lt crc byte' word is_byte') same)
crc_tail-byte (b ∷ before) crc byte byte' after word (hb, h) is_byte is_byte' h' same =
    crc_tail-byte before (crc_step crc b) byte byte' after (crc_step-lt crc b word hb) h is_byte
      is_byte' h' same

-- The last exclusive or, of a checksum that has 32 bits.
finished : (crc : ℕ) → crc < 2 ^ 32 → bit_xor crc 0xffffffff % 2 ^ 32 ≡ bit_xor crc 0xffffffff
finished crc word =
    let inside = bit_xor-lt 32 crc 0xffffffff (omega arith) (omega arith) in omega (arith, inside)

pub crc32c-tail :
    (bytes : List ℕ)
    → bytes ≢ []
    → All IsByte bytes
    → crc32c bytes ≡ bit_xor (crc_tail 0xffffffff bytes) 0xffffffff
unfolding crc32c
crc32c-tail [] some_bytes h = absurd (some_bytes refl)
crc32c-tail (b ∷ bytes) some_bytes h = rw (crc_chunks_bytewise 0xffffffff (b ∷ bytes)) (
    finished (crc_tail 0xffffffff (b ∷ bytes)) (crc_tail-lt 0xffffffff (b ∷ bytes) (omega arith) h))

inhabited : (before : List ℕ) (byte : ℕ) (after : List ℕ) → before ++ (byte ∷ after) ≢ []
inhabited [] byte after h = cc h
inhabited (b ∷ before) byte after h = cc h

-- Two inputs of bytes that differ in one byte only have different checksums.
pub crc32c-detects :
    (before : List ℕ) (byte byte' : ℕ) (after : List ℕ)
    → All IsByte before
    → IsByte byte
    → IsByte byte'
    → All IsByte after
    → byte ≢ byte'
    → crc32c (before ++ (byte ∷ after)) ≢ crc32c (before ++ (byte' ∷ after))
crc32c-detects before byte byte' after h is_byte is_byte' h' differ same =
    let reads = λ (b : ℕ) (hb : IsByte b).
      crc32c-tail (before ++ (b ∷ after)) (inhabited before b after)
        (All-append IsByte before (b ∷ after) h (hb, h')) in
    differ (
      crc_tail-byte before 0xffffffff byte byte' after (omega arith) h is_byte is_byte' h' (
        bit_xor-cancel_right (crc_tail 0xffffffff (before ++ (byte ∷ after)))
          (crc_tail 0xffffffff (before ++ (byte' ∷ after))) 0xffffffff
          (sym (reads byte is_byte) ∙ same ∙ reads byte' is_byte')))
