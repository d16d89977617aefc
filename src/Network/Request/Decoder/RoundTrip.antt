-- ===== src/Network/Request/Decoder/RoundTrip.antt =====
-- Printing a request in decimal and decoding it gives the request back.
use let_dx.Base.{
  ℕ, zero, suc, ◌+◌, ◌-◌, ◌*◌, ◌/◌, ◌%◌, ◌^◌, ◌<◌, ◌≡◌, inl, inr, refl, ap, ◌∙◌, List, [], ◌∷◌,
  ◌++◌, All, All-append, arith, ltb, if◌then◌else◌, ◌==◌, Bool-cases, ltb→lt, subst, sym,
}
use let_dx.Result.{ok}
use let_dx.Network.Request.{Request, RequestFits}
use let_dx.Network.Request.Decoder.{request_decode}
use let_dx.Network.Request.Decoder.Accepts.{IsArgument, value, value_from}
use let_dx.Network.Request.Decoder.Lines.{
  Line, line_bytes, line_request, IsWritten, request_decode-line,
}

-- The decimal digits of `n`, the highest first, for `n` below 10 ^ (k + 1).
unfoldable pub decimal : ℕ → ℕ → List ℕ
decimal zero n = (n + b'0') ∷ []
decimal (suc k) n =
    let high = decimal k (n / 10) in
    if ltb n 10 then (n + b'0') ∷ [] else high ++ ((n % 10 + b'0') ∷ [])

value_from-append :
    (acc : ℕ) (cs ds : List ℕ) → value_from acc (cs ++ ds) ≡ value_from (value_from acc cs) ds
unfolding value_from
value_from-append acc [] ds = refl
value_from-append acc (c ∷ cs) ds =
    value_from-append (if c == b'_' then acc else acc * 10 + (c - b'0')) cs ds

value-digit : (acc d : ℕ) → d < 10 → value_from acc ((d + b'0') ∷ []) ≡ acc * 10 + d
unfolding value_from
value-digit acc d h = ground arith

value-decimal : (k n : ℕ) → n < 10 ^ suc k → value_from 0 (decimal k n) ≡ n
unfolding decimal
value-decimal zero n h = omega (arith, value-digit 0 n (omega arith))
value-decimal (suc k) n h = elim (Bool-cases (ltb n 10)) [
  | inl one ↦ rw one (omega (arith, value-digit 0 n (ltb→lt n 10 one)))
  | inr more ↦ rw more (
      value_from-append 0 (decimal k (n / 10)) ((n % 10 + b'0') ∷ [])
      ∙ ap (λ v. value_from v ((n % 10 + b'0') ∷ [])) (value-decimal k (n / 10) (omega arith))
      ∙ value-digit (n / 10) (n % 10) (omega arith)
      ∙ omega arith)
]

decimal-IsArgument : (k n : ℕ) → n < 10 ^ suc k → All IsArgument (decimal k n)
unfolding decimal
decimal-IsArgument zero n h = (inl (omega arith), tt)
decimal-IsArgument (suc k) n h = elim (Bool-cases (ltb n 10)) [
  | inl one ↦ rw one (inl (omega (arith, ltb→lt n 10 one)), tt)
  | inr more ↦ rw more (
      All-append IsArgument (decimal k (n / 10)) ((n % 10 + b'0') ∷ [])
        (decimal-IsArgument k (n / 10) (omega arith)) (inl (omega arith), tt))
]

-- 39 digits hold every number of 128 bits.
unfoldable pub print_number : ℕ → List ℕ
print_number n = decimal 38 n

value-print_number : (n : ℕ) → n < 2 ^ 128 → value (print_number n) ≡ n
unfolding value print_number
value-print_number n h = value-decimal 38 n (omega arith)

pub print_number-IsArgument : (n : ℕ) → n < 2 ^ 128 → All IsArgument (print_number n)
unfolding print_number
print_number-IsArgument n h = decimal-IsArgument 38 n (omega arith)

-- A request in the form in which a client sends it, each value in decimal.
unfoldable pub print_request : Request → Line
print_request Request.magic = Line.magic
print_request (Request.add_account w c d f) =
    Line.add_account (print_number w) (print_number c) (print_number d) (print_number f)
print_request (Request.make_transfer w s r a) =
    Line.make_transfer (print_number w) (print_number s) (print_number r) (print_number a)
print_request (Request.get_account i) = Line.get_account (print_number i)
print_request Request.count_database = Line.count_database
print_request (Request.update_account w i f) =
    Line.update_account (print_number w) (print_number i) (print_number f)
print_request Request.close = Line.close

pub print_request-IsWritten : (r : Request) → RequestFits r → IsWritten (print_request r)
unfolding print_request
print_request-IsWritten Request.magic h = tt
print_request-IsWritten (Request.add_account w c d f) h = (
  print_number-IsArgument w (omega arith),
  print_number-IsArgument c (omega arith),
  print_number-IsArgument d (omega arith),
  print_number-IsArgument f (omega arith),
)
print_request-IsWritten (Request.make_transfer w s r a) h = (
  print_number-IsArgument w (omega arith),
  print_number-IsArgument s (omega arith),
  print_number-IsArgument r (omega arith),
  print_number-IsArgument a (omega arith),
)
print_request-IsWritten (Request.get_account i) h = print_number-IsArgument i (omega arith)
print_request-IsWritten Request.count_database h = tt
print_request-IsWritten (Request.update_account w i f) h = (
  print_number-IsArgument w (omega arith),
  print_number-IsArgument i (omega arith),
  print_number-IsArgument f (omega arith),
)
print_request-IsWritten Request.close h = tt

line_request-print : (r : Request) → RequestFits r → line_request (print_request r) ≡ r
unfolding print_request line_request
line_request-print Request.magic h = refl
line_request-print (Request.add_account w c d f) h = cc (
  value-print_number w (omega arith),
  value-print_number c (omega arith),
  value-print_number d (omega arith),
  value-print_number f (omega arith),
)
line_request-print (Request.make_transfer w s r a) h = cc (
  value-print_number w (omega arith),
  value-print_number s (omega arith),
  value-print_number r (omega arith),
  value-print_number a (omega arith),
)
line_request-print (Request.get_account i) h = cc (value-print_number i (omega arith))
line_request-print Request.count_database h = refl
line_request-print (Request.update_account w i f) h = cc (
  value-print_number w (omega arith),
  value-print_number i (omega arith),
  value-print_number f (omega arith),
)
line_request-print Request.close h = refl

-- A request whose values fit their fields, printed in decimal and sent as a line, is decoded to
-- the very same request.
pub request_decode-print :
    (r : Request) → RequestFits r → request_decode (line_bytes (print_request r)) ≡ ok r
request_decode-print r h =
    let same = line_request-print r h in
    request_decode-line (print_request r) (print_request-IsWritten r h)
      (subst RequestFits (sym same) h)
    ∙ ap ok same
