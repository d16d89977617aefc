-- ===== src/Network/Response/Encoder/Hex.antt =====
-- The hexadecimal form of a number: what is written, and that it reads back.
use let_dx.Base.{
  ℕ, zero, suc, ◌+◌, ◌*◌, ◌≤◌, ◌≡◌, refl, ap, sym, ◌∙◌, List, [], ◌∷◌, ◌++◌, append_assoc,
  append-nil, length, length-append, get_or, arith, le→ltb_false,
}
use let_dx.Base.Bytes.{le_bytes}
use let_dx.Result.{Result, ok, ◌>>=◌}
use let_dx.Network.Response.Encoder.{
  write_byte, write_hex, write_all, skip_zeros, high_digit, low_digit, run_integer,
}

-- Two digits for each of the first `n` bytes, the last byte first.
unfoldable pub hex_of : List ℕ → ℕ → List ℕ
hex_of bytes zero = []
hex_of bytes (suc i) = high_digit (get_or bytes i 0) ∷ low_digit (get_or bytes i 0) ∷ hex_of bytes i

-- The text of a value of `size` bytes: no leading zero bytes, and one byte at least.
unfoldable pub hex_text : ℕ → ℕ → List ℕ
hex_text value size = hex_of (le_bytes size value) (skip_zeros (le_bytes size value) size)

length-hex_of : (bytes : List ℕ) (n : ℕ) → length (hex_of bytes n) ≡ n * 2
unfolding hex_of
length-hex_of bytes zero = refl
length-hex_of bytes (suc n) = omega (arith, length-hex_of bytes n)

skip_zeros-le : (bytes : List ℕ) (n : ℕ) → skip_zeros bytes n ≤ n
unfolding skip_zeros
skip_zeros-le bytes zero = omega arith
skip_zeros-le bytes (suc zero) = omega arith
skip_zeros-le bytes (suc (suc n)) = ground (arith, skip_zeros-le bytes (suc n))

pub length-hex_text : (value size : ℕ) → length (hex_text value size) ≤ size * 2
unfolding hex_text
length-hex_text value size = omega (
  arith,
  length-hex_of (le_bytes size value) (skip_zeros (le_bytes size value) size),
  skip_zeros-le (le_bytes size value) size,
)

-- A writer that appends `text` wherever the capacity has room for it.
pub record Appends (capacity : ℕ) (write : List ℕ → Result (List ℕ)) (text : List ℕ) : Type 0 where
  pub at :
      (buffer : List ℕ)
      → length buffer + length text ≤ capacity
      → write buffer ≡ ok (buffer ++ text)

module _ (capacity : ℕ) where
  pub Appends-bind :
      (f g : List ℕ → Result (List ℕ)) (s t : List ℕ)
      → Appends capacity f s
      → Appends capacity g t
      → Appends capacity (λ buffer. f buffer >>= g) (s ++ t)
  Appends-bind f g s t hf hg = record {
    at = λ buffer h.
        let total = length-append s t in
        let longer = length-append buffer s in
        rw (hf.at buffer (omega arith))
          (hg.at (buffer ++ s) (omega arith) ∙ ap ok (append_assoc buffer s t));
  }

  pub Appends-byte : (byte : ℕ) → Appends capacity (write_byte capacity byte) (byte ∷ [])
  unfolding write_byte
  Appends-byte byte = record { at = λ buffer h. ground arith }

  pub Appends-all : (bytes : List ℕ) → Appends capacity (write_all capacity bytes) bytes
  unfolding write_all
  Appends-all [] = record { at = λ buffer h. ap ok (sym (append-nil buffer)) }
  Appends-all (byte ∷ bytes) =
      Appends-bind (write_byte capacity byte) (write_all capacity bytes) (byte ∷ []) bytes
        (Appends-byte byte) (Appends-all bytes)

  Appends-hex :
      (bytes : List ℕ) (n : ℕ) → Appends capacity (write_hex capacity bytes n) (hex_of bytes n)
  unfolding write_hex hex_of
  Appends-hex bytes zero = record { at = λ buffer h. ap ok (sym (append-nil buffer)) }
  Appends-hex bytes (suc n) =
      let high = high_digit (get_or bytes n 0) in
      let low = low_digit (get_or bytes n 0) in
      Appends-bind (write_byte capacity high) _ (high ∷ []) (low ∷ hex_of bytes n)
        (Appends-byte high)
        (Appends-bind (write_byte capacity low) (write_hex capacity bytes n) (low ∷ [])
          (hex_of bytes n) (Appends-byte low) (Appends-hex bytes n))

  pub Appends-integer :
      (value size : ℕ) → Appends capacity (run_integer capacity value size) (hex_text value size)
  unfolding run_integer hex_text
  Appends-integer value size =
      let bytes = le_bytes size value in
      let skip = skip_zeros bytes size in
      record {
        at = λ buffer h.
            rw
              (le→ltb_false capacity (length buffer + skip * 2)
                (omega (arith, length-hex_of bytes skip)))
              ((Appends-hex bytes skip).at buffer h);
      }
