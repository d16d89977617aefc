-- ===== src/Gateway/Response/Received.antt =====
-- LetDD/tcp/response.go reads what LetDB/src/network/response/encoder.c writes.
use let_dx.Base.{
  ℕ, ◌/◌, ◌%◌, ◌^◌, ◌<◌, ◌≤◌, ◌≡◌, refl, ap, ◌∙◌, some, List, [], ◌∷◌, ◌++◌, append_assoc, arith,
}
use let_dx.Error.{error_code}
use let_dx.Error.Codes.{error_code-lt}
use let_dx.Result.{Result}
use let_dx.Network.Response.{Response, ResponseFits}
use let_dx.Network.Response.Encoder.Hex.{hex_text}
use let_dx.Network.Response.Encoder.{response_encode}
use let_dx.Network.Response.Encoder.Reply.{payload_text, response_text, response_encode_text}
use let_dx.Gateway.Uint128.{Uint128}
use let_dx.Gateway.Response.{
  TcpResponse, trim_left, trim_right, split, same, one, both, counts, parse_kind, parse_words,
  parse_trimmed, parse_response,
}
use let_dx.Gateway.Response.Words.{
  Writes, hex_text-Writes, parse_uint-Writes, uint128_parse-Writes, split-word, split-last,
  trim_right-before,
}

abbrev pub words_of : ℕ → Uint128
words_of n = record { high = n / 2 ^ 64; low = n % 2 ^ 64 }

-- The response that the gateway is meant to get.
unfoldable pub received : Response → TcpResponse
received Response.magic = TcpResponse.magic
received (Response.add_account id) = TcpResponse.add_account id
received (Response.get_account credits debits flags) =
    TcpResponse.get_account (words_of credits) (words_of debits) flags
received (Response.count_database accounts entries) = TcpResponse.count_database accounts entries
received Response.ok = TcpResponse.ok
received (Response.error e) = TcpResponse.error (error_code e)

-- The texts, kind by kind.
parse_add_account :
    (w : List ℕ) (id : ℕ)
    → Writes w id
    → id < 2 ^ 64
    → parse_response ((b'A' ∷ b'I' ∷ b'D' ∷ b' ' ∷ w) ++ (10 ∷ []))
      ≡ some (TcpResponse.add_account id)
unfolding parse_response trim_left parse_trimmed parse_words parse_kind one same
parse_add_account w id h fits =
    rw (trim_right-before (b'A' ∷ b'I' ∷ b'D' ∷ b' ' ∷ []) w h.some_digit h.hex)
      (rw (split-last w h.hex) (rw (parse_uint-Writes w id 64 h fits) refl))

parse_error :
    (w : List ℕ) (code : ℕ)
    → Writes w code
    → code < 2 ^ 16
    → parse_response ((b'E' ∷ b'R' ∷ b'R' ∷ b' ' ∷ w) ++ (10 ∷ [])) ≡ some (TcpResponse.error code)
unfolding parse_response trim_left parse_trimmed parse_words parse_kind one same
parse_error w code h fits =
    rw (trim_right-before (b'E' ∷ b'R' ∷ b'R' ∷ b' ' ∷ []) w h.some_digit h.hex)
      (rw (split-last w h.hex) (rw (parse_uint-Writes w code 16 h fits) refl))

parse_count_database :
    (v w : List ℕ) (accounts entries : ℕ)
    → Writes v accounts
    → Writes w entries
    → (accounts < 2 ^ 64) × (entries < 2 ^ 64)
    → parse_response ((b'L' ∷ b'E' ∷ b'N' ∷ b' ' ∷ (v ++ (b' ' ∷ w))) ++ (10 ∷ []))
      ≡ some (TcpResponse.count_database accounts entries)
unfolding parse_response trim_left parse_trimmed parse_words parse_kind counts same
parse_count_database v w accounts entries hv hw fits =
    let before = b'L' ∷ b'E' ∷ b'N' ∷ b' ' ∷ (v ++ (b' ' ∷ [])) in
    let text = b'L' ∷ b'E' ∷ b'N' ∷ b' ' ∷ (v ++ (b' ' ∷ w)) in
    let regroup : text ++ (10 ∷ []) ≡ before ++ (w ++ (10 ∷ [])) = simp append_assoc in
    let trims : trim_right (text ++ (10 ∷ [])) ≡ text =
      ap trim_right regroup ∙ trim_right-before before w hw.some_digit hw.hex ∙ simp append_assoc in
    ap parse_trimmed trims
    ∙ rw (split-word v w hv.hex) (
        rw (split-last w hw.hex) (
          rw (parse_uint-Writes v accounts 64 hv fits.0)
            (rw (parse_uint-Writes w entries 64 hw fits.1) refl)))

parse_get_account :
    (u v w : List ℕ) (credits debits flags : ℕ)
    → Writes u credits
    → Writes v debits
    → Writes w flags
    → (credits < 2 ^ 128) × (debits < 2 ^ 128) × (flags < 2 ^ 8)
    → parse_response ((b'A' ∷ b'C' ∷ b'C' ∷ b' ' ∷ (u ++ (b' ' ∷ (v ++ (b' ' ∷ w))))) ++ (10 ∷ []))
      ≡ some (TcpResponse.get_account (words_of credits) (words_of debits) flags)
unfolding parse_response trim_left parse_trimmed parse_words parse_kind both same
parse_get_account u v w credits debits flags hu hv hw fits =
    let before = b'A' ∷ b'C' ∷ b'C' ∷ b' ' ∷ (u ++ (b' ' ∷ (v ++ (b' ' ∷ [])))) in
    let text = b'A' ∷ b'C' ∷ b'C' ∷ b' ' ∷ (u ++ (b' ' ∷ (v ++ (b' ' ∷ w)))) in
    let regroup : text ++ (10 ∷ []) ≡ before ++ (w ++ (10 ∷ [])) = simp append_assoc in
    let trims : trim_right (text ++ (10 ∷ [])) ≡ text =
      ap trim_right regroup ∙ trim_right-before before w hw.some_digit hw.hex ∙ simp append_assoc in
    ap parse_trimmed trims
    ∙ rw (split-word u (v ++ (b' ' ∷ w)) hu.hex) (
        rw (split-word v w hv.hex) (
          rw (split-last w hw.hex) (
            rw (uint128_parse-Writes u credits hu fits.0) (
              rw (uint128_parse-Writes v debits hv fits.1)
                (rw (parse_uint-Writes w flags 8 hw fits.2) refl)))))

-- The same for every kind.
pub parse_response-text :
    (r : Response) → ResponseFits r → parse_response (response_text r) ≡ some (received r)
unfolding response_text payload_text received
parse_response-text Response.magic h =
    unfold parse_response trim_left trim_right parse_trimmed split parse_words parse_kind same in
    refl
parse_response-text (Response.add_account id) h =
    parse_add_account (hex_text id 8) id (hex_text-Writes id 7 (omega arith)) h
parse_response-text (Response.get_account credits debits flags) h =
    parse_get_account (hex_text credits 16) (hex_text debits 16) (hex_text flags 1) credits debits
      flags (hex_text-Writes credits 15 (omega arith)) (hex_text-Writes debits 15 (omega arith))
      (hex_text-Writes flags 0 (omega arith)) h
parse_response-text (Response.count_database accounts entries) h =
    parse_count_database (hex_text accounts 8) (hex_text entries 8) accounts entries
      (hex_text-Writes accounts 7 (omega arith)) (hex_text-Writes entries 7 (omega arith)) h
parse_response-text Response.ok h =
    unfold parse_response trim_left trim_right parse_trimmed split parse_words parse_kind same in
    refl
parse_response-text (Response.error e) h =
    parse_error (hex_text (error_code e) 2) (error_code e)
      (hex_text-Writes (error_code e) 1 (error_code-lt e)) (error_code-lt e)

-- Into a buffer of 73 bytes or more, LetDB encodes a response whose values fit their fields to bytes from
-- which the gateway gets just the response: its kind, every number in it, and the code of its error.
pub parse_response-encode :
    (capacity : ℕ) (r : Response)
    → 73 ≤ capacity
    → ResponseFits r
    → (bytes : List ℕ) × (response_encode capacity r ≡ Result.ok bytes)
      × (parse_response bytes ≡ some (received r))
parse_response-encode capacity r room fits =
    (response_text r, (response_encode_text capacity r room).0, parse_response-text r fits)
