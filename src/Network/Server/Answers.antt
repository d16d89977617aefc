-- ===== src/Network/Server/Answers.antt =====
-- Whatever a socket delivers, `let_network_client_read` returns: a request or an error.
use let_dx.Base.{
  ℕ, zero, suc, ◌≡◌, refl, ◌⊎◌, inl, inr, List, [], ◌∷◌, ◌++◌, length, Bool-cases, ◌==◌, ◌&&◌,
  if◌then◌else◌, true, false,
}
use let_dx.Error.{Error}
use let_dx.Result.{Result, ok, err}
use let_dx.Network.Request.{Request, RequestFits}
use let_dx.Network.Request.Decoder.{request_decode}
use let_dx.Network.Request.Decoder.Rejects.{request_decode-Rejects}
use let_dx.Network.Request.Decoder.Outcome.{request_decode-RequestFits}
use let_dx.Network.Server.{
  Receipt, received, closed, timed_out, interrupted, broken, read_loop, read_request, client_read,
  buffer_length,
}

-- A value or an error.
abbrev Returns {ℓ} : {A : Type ℓ} → Result A → Type ℓ
Returns {A = A} m = ((a : A) × (m ≡ ok a)) ⊎ ((e : Error) × (m ≡ err e))

read_loop-answer :
    (room : ℕ) (recv : ℕ → Receipt) (last : ℕ) (buffer : List ℕ) (answer : Receipt)
    → ((byte : ℕ) → Returns (read_loop room recv byte (buffer ++ (byte ∷ []))))
    → recv (length buffer) ≡ answer
    → Returns (read_loop (suc room) recv last buffer)
unfolding read_loop
read_loop-answer room recv last buffer (received byte) more h = elim (Bool-cases (byte == 10)) [
  | inl line ↦ rw (h, read_loop, line) (inl (_, refl))
  | inr other ↦ rw (h, read_loop, other) (more byte)
]
read_loop-answer room recv last buffer closed more h = rw (h, read_loop) (inr (_, refl))
read_loop-answer room recv last buffer timed_out more h = rw (h, read_loop) (inr (_, refl))
read_loop-answer room recv last buffer interrupted more h = rw (h, read_loop) (inr (_, refl))
read_loop-answer room recv last buffer broken more h = rw (h, read_loop) (inr (_, refl))

read_loop-Returns :
    (room : ℕ) (recv : ℕ → Receipt) (last : ℕ) (buffer : List ℕ)
    → Returns (read_loop room recv last buffer)
unfolding read_loop
read_loop-Returns zero recv last buffer = inl (_, refl)
read_loop-Returns (suc room) recv last buffer =
    read_loop-answer room recv last buffer (recv (length buffer))
      (λ byte. read_loop-Returns room recv byte (buffer ++ (byte ∷ []))) refl

-- A request whose values fit, or an error.
pub data Read (m : Result Request) : Type 0 where
  request : (r : Request) → m ≡ ok r → RequestFits r → Read m
  failed : (e : Error) → m ≡ err e → Read m

request_decode-Read : (buffer : List ℕ) → Read (request_decode buffer)
request_decode-Read buffer = elim (request_decode-Rejects buffer) [
  | inl (r, h) ↦ request r h (request_decode-RequestFits buffer r h)
  | inr (e, h, act) ↦ failed e h
]

read_request-Read : (p : List ℕ × ℕ) → Read (read_request p)
unfolding read_request
read_request-Read (buffer, last) =
    elim (Bool-cases (length buffer == buffer_length && (if last == 10 then false else true))) [
      | inl long ↦ rw long (failed _ refl)
      | inr fits ↦ rw fits (request_decode-Read buffer)
    ]

-- Whatever bytes, timeouts or errors the socket delivers, reading comes to an end: with a request
-- whose values fit their fields, or with an error.
pub client_read-Read : (recv : ℕ → Receipt) → Read (client_read recv)
unfolding client_read
client_read-Read recv = elim (read_loop-Returns buffer_length recv 0 []) [
  | inl (p, h) ↦ rw h (read_request-Read p)
  | inr (e, h) ↦ rw h (failed e refl)
]
