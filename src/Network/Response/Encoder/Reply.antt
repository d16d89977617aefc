-- ===== src/Network/Response/Encoder/Reply.antt =====
-- What a client reads from the bytes of a response.
use let_dx.Base.{ℕ, ◌≤◌, ◌≡◌, List, [], ◌∷◌, ◌++◌, length, length-append, arith}
use let_dx.Error.{error_code}
use let_dx.Result.{Result}
use let_dx.Network.Response.{Response}
use let_dx.Network.Response.Encoder.{write_byte, run_payload, response_encode}
use let_dx.Network.Response.Encoder.Hex.{
  hex_text, length-hex_text, Appends, Appends-bind, Appends-byte, Appends-all, Appends-integer,
}

-- The text of a response without its newline.
unfoldable pub payload_text : Response → List ℕ
payload_text Response.magic = b'L' ∷ b'E' ∷ b'T' ∷ []
payload_text (Response.add_account id) = (b'A' ∷ b'I' ∷ b'D' ∷ b' ' ∷ []) ++ hex_text id 8
payload_text (Response.get_account credits debits flags) =
    (b'A' ∷ b'C' ∷ b'C' ∷ b' ' ∷ [])
    ++ (hex_text credits 16
        ++ ((b' ' ∷ []) ++ (hex_text debits 16 ++ ((b' ' ∷ []) ++ hex_text flags 1))))
payload_text (Response.count_database accounts entries) =
    (b'L' ∷ b'E' ∷ b'N' ∷ b' ' ∷ []) ++ (hex_text accounts 8 ++ ((b' ' ∷ []) ++ hex_text entries 8))
payload_text Response.ok = b'O' ∷ b'K' ∷ b'E' ∷ []
payload_text (Response.error e) = (b'E' ∷ b'R' ∷ b'R' ∷ b' ' ∷ []) ++ hex_text (error_code e) 2

unfoldable pub response_text : Response → List ℕ
unfolding payload_text
response_text r = payload_text r ++ (10 ∷ [])

Appends-payload :
    (capacity : ℕ) (r : Response) → Appends capacity (run_payload capacity r) (payload_text r)
unfolding run_payload payload_text
Appends-payload capacity Response.magic = Appends-all capacity _
Appends-payload capacity (Response.add_account id) =
    Appends-bind capacity _ _ (b'A' ∷ b'I' ∷ b'D' ∷ b' ' ∷ []) _ (Appends-all capacity _)
      (Appends-integer capacity id 8)
Appends-payload capacity (Response.get_account credits debits flags) =
    Appends-bind capacity _ _ (b'A' ∷ b'C' ∷ b'C' ∷ b' ' ∷ []) _ (Appends-all capacity _) (
      Appends-bind capacity _ _ (hex_text credits 16) _ (Appends-integer capacity credits 16) (
        Appends-bind capacity _ _ (b' ' ∷ []) _ (Appends-byte capacity b' ') (
          Appends-bind capacity _ _ (hex_text debits 16) _ (Appends-integer capacity debits 16) (
            Appends-bind capacity _ _ (b' ' ∷ []) _ (Appends-byte capacity b' ')
              (Appends-integer capacity flags 1)))))
Appends-payload capacity (Response.count_database accounts entries) =
    Appends-bind capacity _ _ (b'L' ∷ b'E' ∷ b'N' ∷ b' ' ∷ []) _ (Appends-all capacity _) (
      Appends-bind capacity _ _ (hex_text accounts 8) _ (Appends-integer capacity accounts 8) (
        Appends-bind capacity _ _ (b' ' ∷ []) _ (Appends-byte capacity b' ')
          (Appends-integer capacity entries 8)))
Appends-payload capacity Response.ok = Appends-all capacity _
Appends-payload capacity (Response.error e) =
    Appends-bind capacity _ _ (b'E' ∷ b'R' ∷ b'R' ∷ b' ' ∷ []) _ (Appends-all capacity _)
      (Appends-integer capacity (error_code e) 2)

length-response_text : (r : Response) → length (response_text r) ≤ 73
unfolding response_text
length-response_text Response.magic = omega arith
length-response_text (Response.add_account id) =
    simp length-append (omega (arith, length-hex_text id 8))
length-response_text (Response.get_account credits debits flags) =
    simp length-append (
      omega (arith, length-hex_text credits 16, length-hex_text debits 16, length-hex_text flags 1))
length-response_text (Response.count_database accounts entries) =
    simp length-append (omega (arith, length-hex_text accounts 8, length-hex_text entries 8))
length-response_text Response.ok = omega arith
length-response_text (Response.error e) =
    simp length-append (omega (arith, length-hex_text (error_code e) 2))

-- A buffer of 73 bytes or more is enough for every response, whatever its values: the encoder then
-- never writes outside it and never reports an overflow, and the bytes are the response's text,
-- which takes at most 73 bytes (an account with two numbers of 16 bytes).
pub response_encode_text :
    (capacity : ℕ) (r : Response)
    → 73 ≤ capacity
    → (response_encode capacity r ≡ Result.ok (response_text r)) × (length (response_text r) ≤ 73)
unfolding response_encode response_text
response_encode_text capacity r h =
    let short = length-response_text r in
    (
      (Appends-bind capacity (run_payload capacity r) (write_byte capacity 10) (payload_text r)
            (10 ∷ []) (Appends-payload capacity r) (Appends-byte capacity 10)).at
          [] (omega arith),
      short,
    )
