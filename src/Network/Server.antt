-- ===== src/Network/Server.antt =====
-- LetDB/include/let/network/server.h and LetDB/src/network/server.c: the loops that read a request
-- from the client's socket and write a response to it. What recv(2) and send(2) return is given for
-- each position of the buffers.
pub mod Read
pub mod Write
pub mod Sockets
pub mod Answers
use let_dx.Base.{
  ℕ, zero, suc, ◌+◌, ◌^◌, Bool, true, false, ◌&&◌, List, [], ◌∷◌, ◌++◌, length, take, drop, leb,
  ◌==◌, if◌then◌else◌,
}
use let_dx.Error.{
  network, client_closed, server_read_timeout, server_write_timeout, server_closed,
  server_read_failed, server_write_failed, request_buffer_overflow,
}
use let_dx.Result.{Result, ok, err, stuck, ◌>>=◌}
use let_dx.Network.Request.{Request}
use let_dx.Network.Request.Decoder.{request_decode}
use let_dx.Network.Response.{Response}
use let_dx.Network.Response.Encoder.{response_encode}

-- LET_NETWORK_BUFFER_LENGTH
abbrev pub buffer_length : ℕ
buffer_length = 128

-- The answer of recv(2) to a read of one byte: the byte, 0, or -1 with EWOULDBLOCK or EAGAIN, with
-- EINTR, or with another error.
pub data Receipt : Type 0 where
  received : ℕ → Receipt
  closed timed_out interrupted broken : Receipt

-- The answer of send(2): how many bytes it took, or -1 in the same three cases.
pub data Sending : Type 0 where
  sent : ℕ → Sending
  timed_out interrupted broken : Sending

-- the loop of let_network_client_read, over the bytes for which the buffer has room: the buffer and
-- the last byte that was read
unfoldable pub read_loop : ℕ → (ℕ → Receipt) → ℕ → List ℕ → Result (List ℕ × ℕ)
read_loop zero recv read_byte buffer = ok (buffer, read_byte)
read_loop (suc room) recv read_byte buffer = elim (recv (length buffer)) [
  | received byte ↦
      let rest = read_loop room recv byte (buffer ++ (byte ∷ [])) in
      if byte == 10 then ok (buffer ++ (b' ' ∷ []), byte) else rest
  | closed ↦ err (network client_closed)
  | timed_out ↦ err (network server_read_timeout)
  | interrupted ↦ err (network server_closed)
  | broken ↦ err (network server_read_failed)
]

-- the part behind the loop
unfoldable pub read_request : List ℕ × ℕ → Result Request
read_request (buffer, read_byte) =
    if length buffer == buffer_length && (if read_byte == 10 then false else true)
    then err (network request_buffer_overflow)
    else request_decode buffer

-- let_network_client_read
unfoldable pub client_read : (ℕ → Receipt) → Result Request
client_read recv = read_loop buffer_length recv 0 [] >>= read_request

-- the loop of let_network_client_write, on fuel: the bytes that the socket has taken
unfoldable pub write_loop : ℕ → (ℕ → Sending) → List ℕ → List ℕ → Result (Unit {0}) × List ℕ
write_loop zero send response taken = (stuck, taken)
write_loop (suc fuel) send response taken =
    let remaining = drop (length taken) response in
    elim remaining [
      | [] ↦ (ok tt, taken)
      | next ∷ more ↦ elim (send (length taken)) [
        | sent zero ↦ (err (network client_closed), taken)
        | sent (suc n) ↦ write_loop fuel send response (taken ++ take (suc n) (next ∷ more))
        | timed_out ↦ (err (network server_write_timeout), taken)
        | interrupted ↦ (err (network server_closed), taken)
        | broken ↦ (err (network server_write_failed), taken)
      ]
    ]

-- the part behind the encoder; a round takes one byte at least
unfoldable pub write_response : (ℕ → Sending) → Result (List ℕ) → Result (Unit {0}) × List ℕ
unfolding write_loop
write_response send (ok response) = write_loop (suc (length response)) send response []
write_response send (err e) = (err e, [])
write_response send stuck = (stuck, [])

-- let_network_client_write: the answer, and the bytes that the socket has taken
unfoldable pub client_write : (ℕ → Sending) → Response → Result (Unit {0}) × List ℕ
unfolding write_response
client_write send r = write_response send (response_encode buffer_length r)
