-- ===== src/Network/Request/Decoder.antt =====
-- LetDB/include/let/network/request/decoder.h, LetDB/src/network/request/decoder.c and request.c:
-- the state machine that reads a request byte by byte. A buffer is the list of its bytes; a null
-- buffer is the empty list, which has the same answer. The bytes that the loop has not reached are
-- the list that is left.
pub mod Outcome
pub mod Rejects
pub mod Accepts
pub mod Lines
pub mod RoundTrip
pub mod Inversion
pub mod Exact
use let_dx.Base.{
  ℕ, ◌+◌, ◌-◌, ◌*◌, ◌/◌, ◌%◌, ◌^◌, Bool, true, false, ◌&&◌, List, [], ◌∷◌, ltb, leb, ◌==◌,
  if◌then◌else◌,
}
use let_dx.Error.{
  network, request_empty, request_malformed, request_invalid_command, request_invalid_integer,
  request_integer_overflow, request_expected_new_line, request_arguments_missing,
}
use let_dx.Result.{Result, ok, err, stuck, ◌>>=◌}
use let_dx.Network.Request
use let_dx.Network.Request.{Request}

-- let_network_request_decoder_state_t
pub data DecoderState : Type 0 where
  command argument end : DecoderState

-- let_network_request_decoder_t, without its buffer
pub record Decoder : Type 0 where
  pub request : Request
  pub request_argc : ℕ
  pub state : DecoderState

-- let_network_request_decoder_empty
abbrev pub decoder_empty : Decoder
decoder_empty = record { request = Request.magic; request_argc = 0; state = command }

-- let_network_request_decoder_parse_u128: the arguments left and the value after one more byte
unfoldable pub parse_u128 : ℕ → ℕ → ℕ → Result (ℕ × ℕ)
parse_u128 argc byte output =
    if leb b'0' byte && leb byte b'9'
    then (let digit = byte - b'0' in
        if ltb ((2 ^ 128 - 1) / 10) output
        then err (network request_integer_overflow)
        else let shifted = output * 10 % 2 ^ 128 in
          if ltb (2 ^ 128 - 1 - shifted) digit
          then err (network request_integer_overflow)
          else ok (argc, (shifted + digit) % 2 ^ 128))
    else if byte == b' '
    then ok ((argc + 255) % 2 ^ 8, output)
    else if byte == b'_'
    then ok (argc, output)
    else err (network request_invalid_integer)

-- the last test of `parse_u64` and of `parse_u8`
abbrev pub checked : ℕ → ℕ × ℕ → Result (ℕ × ℕ)
checked max (argc, value) =
    if ltb max value then err (network request_integer_overflow) else ok (argc, value)

-- let_network_request_decoder_parse_u64
unfoldable pub parse_u64 : ℕ → ℕ → ℕ → Result (ℕ × ℕ)
parse_u64 argc byte output = parse_u128 argc byte output >>= checked (2 ^ 64 - 1)

-- let_network_request_decoder_parse_u8
unfoldable pub parse_u8 : ℕ → ℕ → ℕ → Result (ℕ × ℕ)
parse_u8 argc byte output = parse_u128 argc byte output >>= checked (2 ^ 8 - 1)

-- let_network_request_decoder_run_command
unfoldable pub run_command : Decoder → ℕ → Result Decoder
run_command d byte =
    if byte == b';'
    then ok (record d { request = Request.magic; state = argument })
    else if byte == b'+'
    then ok (record { request = Request.add_account 0 0 0 0; request_argc = 4; state = argument })
    else if byte == b'%'
    then ok (record { request = Request.make_transfer 0 0 0 0; request_argc = 4; state = argument })
    else if byte == b'?'
    then ok (record { request = Request.get_account 0; request_argc = 1; state = argument })
    else if byte == b'#'
    then ok (record d { request = Request.count_database; state = argument })
    else if byte == b'='
    then ok (record { request = Request.update_account 0 0 0; request_argc = 3; state = argument })
    else if byte == b'.'
    then ok (record d { request = Request.close; state = argument })
    else err (network request_invalid_command)

-- a value that a parser returns, stored in its field of the request
abbrev pub fill : (ℕ → Request) → Result (ℕ × ℕ) → Result (ℕ × Request)
fill f (ok (argc, v)) = ok (argc, f v)
fill f (err e) = err e
fill f stuck = stuck

-- the field that the number of arguments left selects, after one more byte
unfoldable pub parse_argument : Request → ℕ → ℕ → Result (ℕ × Request)
parse_argument (Request.add_account wal_id credits debits flags) argc byte =
    if argc == 4
    then fill (λ v. Request.add_account v credits debits flags) (parse_u64 argc byte wal_id)
    else if argc == 3
    then fill (λ v. Request.add_account wal_id v debits flags) (parse_u128 argc byte credits)
    else if argc == 2
    then fill (λ v. Request.add_account wal_id credits v flags) (parse_u128 argc byte debits)
    else if argc == 1
    then fill (λ v. Request.add_account wal_id credits debits v) (parse_u8 argc byte flags)
    else ok (argc, Request.add_account wal_id credits debits flags)
parse_argument (Request.make_transfer wal_id from_id to_id amount) argc byte =
    if argc == 4
    then fill (λ v. Request.make_transfer v from_id to_id amount) (parse_u64 argc byte wal_id)
    else if argc == 3
    then fill (λ v. Request.make_transfer wal_id v to_id amount) (parse_u64 argc byte from_id)
    else if argc == 2
    then fill (λ v. Request.make_transfer wal_id from_id v amount) (parse_u64 argc byte to_id)
    else if argc == 1
    then fill (λ v. Request.make_transfer wal_id from_id to_id v) (parse_u128 argc byte amount)
    else ok (argc, Request.make_transfer wal_id from_id to_id amount)
parse_argument (Request.get_account account_id) argc byte =
    if argc == 1
    then fill (λ v. Request.get_account v) (parse_u64 argc byte account_id)
    else ok (argc, Request.get_account account_id)
parse_argument (Request.update_account wal_id account_id flags) argc byte =
    if argc == 3
    then fill (λ v. Request.update_account v account_id flags) (parse_u64 argc byte wal_id)
    else if argc == 2
    then fill (λ v. Request.update_account wal_id v flags) (parse_u64 argc byte account_id)
    else if argc == 1
    then fill (λ v. Request.update_account wal_id account_id v) (parse_u8 argc byte flags)
    else ok (argc, Request.update_account wal_id account_id flags)
parse_argument r argc byte = ok (argc, r)

-- let_network_request_decoder_run_argument
unfoldable pub run_argument : Decoder → ℕ → Result Decoder
run_argument d byte =
    if d.request_argc == 0
    then if byte == b' '
      then ok (record d { state = end })
      else err (network request_expected_new_line)
    else if d.request_argc == 1 && byte == b' '
    then ok (record d { request_argc = d.request_argc - 1; state = end })
    else (do
      (n, r) ← parse_argument d.request d.request_argc byte
      ok (record d { request = r; request_argc = n }))

-- the `switch` on the state
unfoldable pub run_byte : DecoderState → Decoder → ℕ → Result Decoder
run_byte command d byte = run_command d byte
run_byte argument d byte = run_argument d byte
run_byte end d byte = ok d

abbrev pub is_end : DecoderState → Bool
is_end end = true
is_end _ = false

-- the loop of let_network_request_decoder_run: the decoder, and the bytes that are not consumed
unfoldable pub run_loop : Decoder → List ℕ → Result (Decoder × List ℕ)
run_loop d [] = ok (d, [])
run_loop d (byte ∷ rest) =
    if is_end d.state
    then ok (d, byte ∷ rest)
    else (run_byte d.state d byte >>= λ d'. run_loop d' rest)

-- the checks behind the loop
unfoldable pub finish : Decoder × List ℕ → Result Request
finish (d, rest) =
    if d.request_argc == 0
    then if is_end d.state
      then elim rest [ [] ↦ ok d.request | _ ∷ _ ↦ err (network request_malformed) ]
      else err (network request_malformed)
    else err (network request_arguments_missing)

-- let_network_request_decoder_run, and let_network_request_decode around it
unfoldable pub request_decode : List ℕ → Result Request
request_decode [] = err (network request_empty)
request_decode (byte ∷ rest) = run_loop decoder_empty (byte ∷ rest) >>= finish
