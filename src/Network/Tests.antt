-- ===== src/Network/Tests.antt =====
-- Requests and responses on concrete bytes.
use let_dx.Network.Server.Sockets.{ListenDevice, server_init}
use let_dx.Network.Server.Sockets.Closing.{Opened, server_init-Opened}
use let_dx.Base.{zero, suc, true, false, ◌≡◌, ◌↔◌, ◌⊎◌, ℕ, [], ◌∷◌, arith, refl, some}
use let_dx.Error.{Error, guard, same_account}
use let_dx.Error.Report.{reject, error_report}
use let_dx.Error.Codes.{error_code-injective}
use let_dx.Result.{ok, err}
use let_dx.Network.Request.{Request, RequestFits}
use let_dx.Network.Request.Decoder.{
  request_decode, run_loop, run_byte, run_command, run_argument, parse_argument, parse_u64,
  parse_u128, finish,
}
use let_dx.Network.Request.Decoder.Rejects.{request_decode-Rejects}
use let_dx.Network.Request.Decoder.Accepts.{value, value_from}
use let_dx.Network.Request.Decoder.Lines.{IsWritten, Line, line_bytes, line_request}
use let_dx.Network.Request.Decoder.Exact.{request_decode_iff}
use let_dx.Network.Server.{Sending, sent, client_write}
use let_dx.Network.Server.Write.{Sent, client_write_outcome}
use let_dx.Network.Response.{Response}
use let_dx.Network.Response.Encoder.Reply.{response_text}

-- `?1_2 `
abbrev query : Line
query = Line.get_account (b'1' ∷ b'_' ∷ b'2' ∷ [])

query_value : line_request query ≡ Request.get_account 12
unfolding line_request value value_from
query_value = refl

query_decodes : request_decode (b'?' ∷ b'1' ∷ b'_' ∷ b'2' ∷ b' ' ∷ []) ≡ ok (Request.get_account 12)
unfolding request_decode run_loop run_byte run_command run_argument parse_argument parse_u64
    parse_u128 finish
query_decodes = refl

query_fits : RequestFits (line_request query)
unfolding line_request value value_from
query_fits = omega arith

request_decode-Rejects_example :
    ((r : Request) × (request_decode (b'?' ∷ b'x' ∷ []) ≡ ok r))
    ⊎ ((e : Error) × (request_decode (b'?' ∷ b'x' ∷ []) ≡ err e)
        × ((error_report e).action ≡ reject))
request_decode-Rejects_example = request_decode-Rejects (b'?' ∷ b'x' ∷ [])

error_code-injective_example : guard same_account ≡ guard same_account
error_code-injective_example = error_code-injective (guard same_account) (guard same_account) refl

-- A socket that takes two bytes, and then breaks.
abbrev slow : ℕ → Sending
slow zero = sent 2
slow (suc n) = Sending.broken

client_write_outcome_example : Sent (response_text Response.ok) (client_write slow Response.ok)
client_write_outcome_example = client_write_outcome slow Response.ok

-- bind(2) refuses the port
abbrev taken_port : ListenDevice
taken_port = record { socket = some 3; binds = λ port. false; listens = λ backlog. true }

server_init-Opened_example : Opened 55543 [] (server_init taken_port 55543 1 [])
server_init-Opened_example = server_init-Opened taken_port 55543 1 []

-- a line whose only argument is empty
request_decode_iff_example : (request_decode (b'?' ∷ b' ' ∷ []) ≡ ok (Request.get_account 0)) ↔ (
    (line : Line) × (b'?' ∷ b' ' ∷ [] ≡ line_bytes line)
    × IsWritten line
    × RequestFits (line_request line)
    × (line_request line ≡ Request.get_account 0))
request_decode_iff_example = request_decode_iff (b'?' ∷ b' ' ∷ []) (Request.get_account 0)
