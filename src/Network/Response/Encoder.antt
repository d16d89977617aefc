-- ===== src/Network/Response/Encoder.antt =====
-- LetDB/include/let/network/response/encoder.h, LetDB/src/network/response/encoder.c and
-- response.c: the bytes of a response. The encoder is the list of the bytes written so far, whose
-- length is `buffer_length`; a write behind the capacity is an access outside the array.
pub mod Hex
pub mod Text
pub mod Reply
pub mod Readback
use let_dx.Base.{
  ℕ, zero, suc, ◌+◌, ◌*◌, ◌/◌, ◌^◌, List, [], ◌∷◌, ◌++◌, length, get_or, ltb, ◌==◌, if◌then◌else◌,
  bit_and,
}
use let_dx.Base.Bytes.{le_bytes}
use let_dx.Error.{network, response_buffer_overflow, error_code}
use let_dx.Result.{Result, ok, err, stuck, ◌>>=◌}
use let_dx.Network.Response
use let_dx.Network.Response.{Response}

-- LET_NETWORK_RESPONSE_ENCODER_HEX_DIGITS
abbrev pub hex_digits : List ℕ
hex_digits =
    b'0' ∷ b'1' ∷ b'2' ∷ b'3' ∷ b'4' ∷ b'5' ∷ b'6' ∷ b'7' ∷ b'8' ∷ b'9' ∷ b'A' ∷ b'B' ∷ b'C' ∷ b'D'
    ∷ b'E' ∷ b'F' ∷ []

-- `buffer[buffer_length++] = byte`
unfoldable pub write_byte : ℕ → ℕ → List ℕ → Result (List ℕ)
write_byte capacity byte buffer =
    if ltb (length buffer) capacity then ok (buffer ++ (byte ∷ [])) else stuck

-- a run of such writes
unfoldable pub write_all : ℕ → List ℕ → List ℕ → Result (List ℕ)
write_all capacity [] buffer = ok buffer
write_all capacity (byte ∷ bytes) buffer =
    write_byte capacity byte buffer >>= λ buffer'. write_all capacity bytes buffer'

-- `while (skip > 1 && bytes[skip - 1] == 0) skip--`
unfoldable pub skip_zeros : List ℕ → ℕ → ℕ
skip_zeros bytes zero = zero
skip_zeros bytes (suc zero) = 1
skip_zeros bytes (suc (suc n)) =
    if get_or bytes (suc n) 0 == 0 then skip_zeros bytes (suc n) else suc (suc n)

abbrev pub high_digit : ℕ → ℕ
high_digit byte = get_or hex_digits (bit_and (byte / 16) 0x0f) 0

abbrev pub low_digit : ℕ → ℕ
low_digit byte = get_or hex_digits (bit_and byte 0x0f) 0

-- `for (index = skip; index-- > 0;)`
unfoldable pub write_hex : ℕ → List ℕ → ℕ → List ℕ → Result (List ℕ)
write_hex capacity bytes zero buffer = ok buffer
write_hex capacity bytes (suc index) buffer = do
  buffer1 ← write_byte capacity (high_digit (get_or bytes index 0)) buffer
  buffer2 ← write_byte capacity (low_digit (get_or bytes index 0)) buffer1
  write_hex capacity bytes index buffer2

-- let_network_response_encoder_run_integer on a value of `size` bytes
unfoldable pub run_integer : ℕ → ℕ → ℕ → List ℕ → Result (List ℕ)
run_integer capacity value size buffer =
    let bytes = le_bytes size value in
    let skip = skip_zeros bytes size in
    if ltb capacity (length buffer + skip * 2)
    then err (network response_buffer_overflow)
    else write_hex capacity bytes skip buffer

-- the `switch` of let_network_response_encoder_run
unfoldable pub run_payload : ℕ → Response → List ℕ → Result (List ℕ)
run_payload capacity Response.magic buffer = write_all capacity (b'L' ∷ b'E' ∷ b'T' ∷ []) buffer
run_payload capacity (Response.add_account id) buffer = do
  tagged ← write_all capacity (b'A' ∷ b'I' ∷ b'D' ∷ b' ' ∷ []) buffer
  run_integer capacity id 8 tagged
run_payload capacity (Response.get_account credits debits flags) buffer = do
  tagged ← write_all capacity (b'A' ∷ b'C' ∷ b'C' ∷ b' ' ∷ []) buffer
  with_credits ← run_integer capacity credits 16 tagged
  spaced ← write_byte capacity b' ' with_credits
  with_debits ← run_integer capacity debits 16 spaced
  spaced_again ← write_byte capacity b' ' with_debits
  run_integer capacity flags 1 spaced_again
run_payload capacity (Response.count_database accounts entries) buffer = do
  tagged ← write_all capacity (b'L' ∷ b'E' ∷ b'N' ∷ b' ' ∷ []) buffer
  with_accounts ← run_integer capacity accounts 8 tagged
  spaced ← write_byte capacity b' ' with_accounts
  run_integer capacity entries 8 spaced
run_payload capacity Response.ok buffer = write_all capacity (b'O' ∷ b'K' ∷ b'E' ∷ []) buffer
run_payload capacity (Response.error e) buffer = do
  tagged ← write_all capacity (b'E' ∷ b'R' ∷ b'R' ∷ b' ' ∷ []) buffer
  run_integer capacity (error_code e) 2 tagged

-- let_network_response_encode: the encoder starts empty, and ends with a newline
unfoldable pub response_encode : ℕ → Response → Result (List ℕ)
response_encode capacity r = do payload ← run_payload capacity r []; write_byte capacity 10 payload
