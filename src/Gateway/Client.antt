-- ===== src/Gateway/Client.antt =====
-- LetDD/tcp/client.go: the client that sends a request to LetDB, and sends it again where the connection
-- fails. What is behind the connection is a parameter: a state, and what its calls do to it.
pub mod Link
pub mod Retry
pub mod Counting
pub mod Stale
pub mod Trials
use let_dx.Base.{
  ℕ, zero, suc, ◌+◌, ◌%◌, ◌^◌, Bool, true, false, ◌&&◌, not, Option, none, some, List,
  if◌then◌else◌,
}
use let_dx.Gateway.Supervisor.{Supervisor, TryDevice, supervisor_try, supervisor_reset}
use let_dx.Gateway.Request
use let_dx.Gateway.Request.{TcpRequest, encode, set_id, is_wal_request}
use let_dx.Gateway.Response
use let_dx.Gateway.Response.{TcpResponse, parse_response}

-- Client, without its buffers: whether there is a connection, and its counter of transactions
pub record Client : Type 0 where
  pub connected : Bool
  pub transactions : ℕ

-- The calls that the client makes: dialing; writing bytes and flushing them; reading to a newline, or
-- a failure; closing the connection; `ctx.Err() != nil`; and what Try learns.
pub record Wire (S : Type 0) : Type 0 where
  pub dial : S → Bool × S
  pub send : List ℕ → S → Bool × S
  pub receive : S → Option (List ℕ) × S
  pub hang_up : S → S
  pub done : S → Bool × S
  pub trial : S → TryDevice × S

-- What Communicate returns: an error for a context that is done, or for the last failure; a response;
-- or neither, where no try was made.
pub data Outcome : Type 0 where
  aborted failed idle : Outcome
  answered : TcpResponse → Outcome

-- the request with the number that it is sent with
abbrev pub numbered : TcpRequest → Client → TcpRequest
numbered request c = if is_wal_request request then set_id c.transactions request else request

-- the response is an ErrorResponse
abbrev pub is_error : TcpResponse → Bool
is_error (TcpResponse.error code) = true
is_error _ = false

module _ {S : Type 0} (wire : Wire S) where
  -- disconnect
  unfoldable pub disconnect : Client → S → Client × S
  disconnect c s = if c.connected then (record c { connected = false }, wire.hang_up s) else (c, s)

  -- receiveResponse
  unfoldable pub parse_received : Option (List ℕ) × S → Option TcpResponse × S
  parse_received (none, s) = (none, s)
  parse_received (some text, s) = (parse_response text, s)

  -- the part of connect behind the response to the handshake
  unfoldable pub on_hello : Client → Option TcpResponse × S → Bool × Client × S
  unfolding disconnect
  on_hello c (some (TcpResponse.count_database accounts transactions), s) =
      (true, record c { transactions = transactions }, s)
  on_hello c (response, s) = let closed = disconnect c s in (false, closed.0, closed.1)

  -- the part behind its request
  unfoldable pub on_hello_sent : Client → Bool × S → Bool × Client × S
  unfolding on_hello parse_received disconnect
  on_hello_sent c (true, s) = on_hello c (parse_received (wire.receive s))
  on_hello_sent c (false, s) = let closed = disconnect c s in (false, closed.0, closed.1)

  -- the part behind the dialing: the context, and whether it succeeded
  unfoldable pub on_dialed : Client → Bool → Bool × S → Bool × Client × S
  unfolding on_hello_sent
  on_dialed c dialed (true, s) = (false, c, s)
  on_dialed c false (false, s) = (false, c, s)
  on_dialed c true (false, s) =
      on_hello_sent (record c { connected = true }) (wire.send (encode TcpRequest.count_database) s)

  -- connect
  unfoldable pub connect : Client → S → Bool × Client × S
  unfolding on_dialed
  connect c s =
      let dialed = wire.dial s in
      let opened = on_dialed c dialed.0 (wire.done dialed.1) in
      if c.connected then (true, c, s) else opened

  -- the part of a try behind the sent request
  unfoldable pub on_received : Client → Option TcpResponse × S → Option TcpResponse × Client × S
  unfolding disconnect
  on_received c (some response, s) = (some response, c, s)
  on_received c (none, s) = let closed = disconnect c s in (none, closed.0, closed.1)

  unfoldable pub on_sent : Client → Bool × S → Option TcpResponse × Client × S
  unfolding on_received parse_received disconnect
  on_sent c (true, s) = on_received c (parse_received (wire.receive s))
  on_sent c (false, s) = let closed = disconnect c s in (none, closed.0, closed.1)

  unfoldable pub on_connected : TcpRequest → Bool × Client × S → Option TcpResponse × Client × S
  unfolding on_sent
  on_connected request (false, c, s) = (none, c, s)
  on_connected request (true, c, s) = on_sent c (wire.send (encode (numbered request c)) s)

  -- the body of the loop: the response, or an error
  unfoldable pub attempt : TcpRequest → Client → S → Option TcpResponse × Client × S
  unfolding on_connected connect
  attempt request c s = on_connected request (connect c s)

  -- the part of the loop behind a try; `again` is the rest of the loop
  unfoldable pub on_attempt :
      (Supervisor → Client → S → Outcome × Client × S)
      → Supervisor
      → Option TcpResponse × Client × S
      → Outcome × Client × S
  on_attempt again v (some response, c, s) = (answered response, c, s)
  on_attempt again v (none, c, s) = again v c s

  unfoldable pub on_try :
      (Supervisor → Client → S → Outcome × Client × S)
      → TcpRequest
      → Outcome
      → Client
      → S
      → Bool × Supervisor
      → Outcome × Client × S
  unfolding on_attempt attempt
  on_try again request last c s (true, v) = on_attempt again v (attempt request c s)
  on_try again request last c s (false, v) = (last, c, s)

  -- the call of Try
  unfoldable pub on_trial :
      (Supervisor → Client → S → Outcome × Client × S)
      → TcpRequest
      → Outcome
      → Supervisor
      → Client
      → TryDevice × S
      → Outcome × Client × S
  unfolding on_try supervisor_try
  on_trial again request last v c (dev, s) = on_try again request last c s (supervisor_try dev v)

  -- the loop of Communicate; `last` is what the last try came to
  unfoldable pub try_loop :
      ℕ → TcpRequest → Outcome → Supervisor → Client → S → Outcome × Client × S
  unfolding on_trial
  try_loop zero request last v c s = (last, c, s)
  try_loop (suc fuel) request last v c s =
      on_trial (try_loop fuel request Outcome.failed) request last v c (wire.trial s)

  -- the part behind the loop
  unfoldable pub finish : TcpRequest → Outcome → Client → Bool × S → Outcome × Client × S
  finish request last c (true, s) = (aborted, c, s)
  finish request (answered response) c (false, s) =
      let counted = record c { transactions = (c.transactions + 1) % 2 ^ 64 } in
      (
        answered response,
        if is_wal_request request && not (is_error response) then counted else c,
        s,
      )
  finish request last c (false, s) = (last, c, s)

  -- Communicate, with fuel for the tries that the supervisor allows. The supervisor was reset when it was
  -- made, or behind the last loop.
  unfoldable pub communicate : Supervisor → TcpRequest → Client → S → Outcome × Client × S
  unfolding try_loop finish
  communicate v request c s =
      let tried = try_loop (v.cancel_after + 2) request idle (supervisor_reset v) c s in
      finish request tried.0 tried.1 (wire.done tried.2)
