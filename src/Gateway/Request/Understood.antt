-- ===== src/Gateway/Request/Understood.antt =====
-- LetDB reads what LetDD sends: the decoder of LetDB/src/network/request/decoder.c on the bytes of
-- LetDD/tcp/request.go.
use let_dx.Base.{
  ℕ, zero, suc, ◌+◌, ◌/◌, ◌%◌, ◌^◌, ◌≤◌, ◌<◌, ◌≡◌, ◌≢◌, refl, sym, ap, ◌∙◌, List, [], ◌∷◌, ◌++◌,
  length, length-append, append_assoc, All, All-append, arith,
}
use let_dx.Result.{ok}
use let_dx.Network.Request.{Request, RequestFits}
use let_dx.Network.Request.Decoder.{request_decode}
use let_dx.Network.Request.Decoder.Accepts.{IsArgument}
use let_dx.Network.Request.Decoder.Lines.{line_bytes}
use let_dx.Network.Request.Decoder.RoundTrip.{
  decimal, print_number, print_number-IsArgument, print_request, request_decode-print,
}
use let_dx.Network.Server.{client_read}
use let_dx.Network.Server.Read.{delivers, NoNewline, client_read_line}
use let_dx.Gateway.Uint128.{Uint128, to_number}
use let_dx.Gateway.Uint128.Decimal.{WordsFit, decimal-fuel, uint128_bytes-decimal}
use let_dx.Gateway.Request.{TcpRequest, encode}

-- The request that LetDB is meant to read.
unfoldable pub meant : TcpRequest → Request
meant TcpRequest.magic = Request.magic
meant (TcpRequest.add_account w c d f) = Request.add_account w (to_number c) (to_number d) f
meant (TcpRequest.make_transfer w s r a) = Request.make_transfer w s r (to_number a)
meant (TcpRequest.get_account i) = Request.get_account i
meant TcpRequest.count_database = Request.count_database
meant (TcpRequest.update_account w i f) = Request.update_account w i f
meant TcpRequest.close = Request.close

-- The fields of a struct fit their types.
abbrev pub TcpFits : TcpRequest → Type 0
TcpFits (TcpRequest.add_account w c d f) = (w < 2 ^ 64) × WordsFit c × WordsFit d × (f < 2 ^ 8)
TcpFits (TcpRequest.make_transfer w s r a) = (w < 2 ^ 64) × (s < 2 ^ 64) × (r < 2 ^ 64) × WordsFit a
TcpFits (TcpRequest.get_account i) = i < 2 ^ 64
TcpFits (TcpRequest.update_account w i f) = (w < 2 ^ 64) × (i < 2 ^ 64) × (f < 2 ^ 8)
TcpFits _ = Unit

number_fits : (u : Uint128) → WordsFit u → to_number u < 2 ^ 128
number_fits u h = omega (arith, h.high_fits, h.low_fits)

pub meant-RequestFits : (r : TcpRequest) → TcpFits r → RequestFits (meant r)
unfolding meant
meant-RequestFits TcpRequest.magic h = tt
meant-RequestFits (TcpRequest.add_account w c d f) (hw, hc, hd, hf) =
    (hw, number_fits c hc, number_fits d hd, hf)
meant-RequestFits (TcpRequest.make_transfer w s r a) (hw, hs, hr, ha) =
    (hw, hs, hr, number_fits a ha)
meant-RequestFits (TcpRequest.get_account i) h = h
meant-RequestFits TcpRequest.count_database h = tt
meant-RequestFits (TcpRequest.update_account w i f) h = h
meant-RequestFits TcpRequest.close h = tt

-- A line, without its newline.
unfoldable pub body : Request → List ℕ
body Request.magic = b';' ∷ []
body (Request.add_account w c d f) =
    b'+'
    ∷ (print_number w
        ++ (b' ' ∷ (print_number c ++ (b' ' ∷ (print_number d ++ (b' ' ∷ print_number f))))))
body (Request.make_transfer w s r a) =
    b'%'
    ∷ (print_number w
        ++ (b' ' ∷ (print_number s ++ (b' ' ∷ (print_number r ++ (b' ' ∷ print_number a))))))
body (Request.get_account i) = b'?' ∷ print_number i
body Request.count_database = b'#' ∷ []
body (Request.update_account w i f) =
    b'=' ∷ (print_number w ++ (b' ' ∷ (print_number i ++ (b' ' ∷ print_number f))))
body Request.close = b'.' ∷ []

line_bytes-body : (r : Request) → line_bytes (print_request r) ≡ body r ++ (b' ' ∷ [])
unfolding line_bytes print_request body
line_bytes-body Request.magic = refl
line_bytes-body (Request.add_account w c d f) = simp append_assoc
line_bytes-body (Request.make_transfer w s r a) = simp append_assoc
line_bytes-body (Request.get_account i) = refl
line_bytes-body Request.count_database = refl
line_bytes-body (Request.update_account w i f) = simp append_assoc
line_bytes-body Request.close = refl

pub encode-body :
    (r : TcpRequest) (rest : List ℕ) → TcpFits r → encode r ++ rest ≡ body (meant r) ++ (10 ∷ rest)
unfolding encode body meant
encode-body TcpRequest.magic rest h = refl
encode-body (TcpRequest.add_account w c d f) rest (hw, hc, hd, hf) =
    simp (append_assoc, uint128_bytes-decimal c hc, uint128_bytes-decimal d hd)
encode-body (TcpRequest.make_transfer w s r a) rest (hw, hs, hr, ha) =
    simp (append_assoc, uint128_bytes-decimal a ha)
encode-body (TcpRequest.get_account i) rest h = simp append_assoc
encode-body TcpRequest.count_database rest h = refl
encode-body (TcpRequest.update_account w i f) rest h = simp append_assoc
encode-body TcpRequest.close rest h = refl

-- The digits of a number.
digits-NoNewline : (cs : List ℕ) → All IsArgument cs → NoNewline cs
digits-NoNewline [] h = tt
digits-NoNewline (c ∷ cs) (hc, h) = ((λ e. omega arith), digits-NoNewline cs h)

number-NoNewline : (n : ℕ) → n < 2 ^ 128 → NoNewline (print_number n)
number-NoNewline n h = digits-NoNewline (print_number n) (print_number-IsArgument n h)

then_space :
    (n : ℕ) (rest : List ℕ)
    → n < 2 ^ 128
    → NoNewline rest
    → NoNewline (print_number n ++ (b' ' ∷ rest))
then_space n rest h k =
    All-append (λ byte. byte ≢ 10) (print_number n) (b' ' ∷ rest) (number-NoNewline n h)
      ((λ e. omega arith), k)

body-NoNewline : (r : Request) → RequestFits r → NoNewline (body r)
unfolding body
body-NoNewline Request.magic h = ((λ e. omega arith), tt)
body-NoNewline (Request.add_account w c d f) (hw, hc, hd, hf) = (
  (λ e. omega arith),
  then_space w _ (omega arith)
      (then_space c _ hc (then_space d _ hd (number-NoNewline f (omega arith)))),
)
body-NoNewline (Request.make_transfer w s r a) (hw, hs, hr, ha) = (
  (λ e. omega arith),
  then_space w _ (omega arith)
      (then_space s _ (omega arith) (then_space r _ (omega arith) (number-NoNewline a ha))),
)
body-NoNewline (Request.get_account i) h = ((λ e. omega arith), number-NoNewline i (omega arith))
body-NoNewline Request.count_database h = ((λ e. omega arith), tt)
body-NoNewline (Request.update_account w i f) (hw, hi, hf) = (
  (λ e. omega arith),
  then_space w _ (omega arith) (then_space i _ (omega arith) (number-NoNewline f (omega arith))),
)
body-NoNewline Request.close h = ((λ e. omega arith), tt)

-- How long a number gets.
le-length-decimal : (k n : ℕ) → length (decimal k n) ≤ suc k
unfolding decimal
le-length-decimal zero n = omega arith
le-length-decimal (suc k) n =
    ground (
      arith,
      le-length-decimal k (n / 10),
      length-append (decimal k (n / 10)) ((n % 10 + b'0') ∷ []),
    )

le-length-number : (k m n : ℕ) → k + m ≡ 38 → n < 10 ^ suc k → length (print_number n) ≤ suc k
unfolding print_number
le-length-number k m n e h =
    let shorter = ap (λ (f : ℕ). length (decimal f n)) (sym e) ∙ ap length (decimal-fuel k m n h) in
    omega (arith, shorter, le-length-decimal k n)

word_length : (n : ℕ) → n < 2 ^ 64 → length (print_number n) ≤ 20
word_length n h = le-length-number 19 19 n refl (omega arith)

flags_length : (n : ℕ) → n < 2 ^ 8 → length (print_number n) ≤ 3
flags_length n h = le-length-number 2 36 n refl (omega arith)

amount_length : (n : ℕ) → n < 2 ^ 128 → length (print_number n) ≤ 39
amount_length n h = le-length-number 38 0 n refl (omega arith)

then_length :
    (n : ℕ) (rest : List ℕ)
    → length (print_number n ++ (b' ' ∷ rest)) ≡ length (print_number n) + 1 + length rest
then_length n rest = omega (arith, length-append (print_number n) (b' ' ∷ rest))

body-length : (r : Request) → RequestFits r → length (body r) ≤ 105
unfolding body
body-length Request.magic h = omega arith
body-length (Request.add_account w c d f) (hw, hc, hd, hf) = omega (
  arith,
  then_length,
  word_length w hw,
  amount_length c hc,
  amount_length d hd,
  flags_length f hf,
)
body-length (Request.make_transfer w s r a) (hw, hs, hr, ha) =
    omega
      (arith, then_length, word_length w hw, word_length s hs, word_length r hr, amount_length a ha)
body-length (Request.get_account i) h = omega (arith, word_length i h)
body-length Request.count_database h = omega arith
body-length (Request.update_account w i f) (hw, hi, hf) =
    omega (arith, then_length, word_length w hw, word_length i hi, flags_length f hf)
body-length Request.close h = omega arith

pub encode-IsLine :
    (r : TcpRequest) → TcpFits r → NoNewline (body (meant r)) × (length (body (meant r)) < 128)
encode-IsLine r h =
    let fits = meant-RequestFits r h in
    (body-NoNewline (meant r) fits, omega (arith, body-length (meant r) fits))

pub decode-body :
    (r : TcpRequest) → TcpFits r → request_decode (body (meant r) ++ (b' ' ∷ [])) ≡ ok (meant r)
decode-body r h =
    ap request_decode (sym (line_bytes-body (meant r)))
    ∙ request_decode-print (meant r) (meant-RequestFits r h)

-- LetDB reads whatever request LetDD sends, if the fields fit their types: the bytes
-- are a line that fits in the buffer, whatever comes behind it, and it is decoded to the same request.
pub client_read-encode :
    (r : TcpRequest) (rest : List ℕ)
    → TcpFits r
    → client_read (delivers (encode r ++ rest)) ≡ ok (meant r)
client_read-encode r rest h =
    let (plain, short) = encode-IsLine r h in
    ap (λ t. client_read (delivers t)) (encode-body r rest h)
    ∙ client_read_line (body (meant r)) rest plain short
    ∙ decode-body r h
