-- ===== src/Network/Server/Read.antt =====
-- What `let_network_client_read` makes of the bytes that a client sends.
use let_dx.Base.{
  ℕ, zero, suc, ◌<◌, ◌≡◌, ◌≢◌, refl, sym, ap, ◌∙◌, Option, none, some, List, [], ◌∷◌, ◌++◌, length,
  get_elem?, get_elem?-append_length, append_assoc, append-nil, All, arith, Bool-cases, inl, inr,
  replicate, ◌==◌, ne→==_false, subst,
}
use let_dx.Error.{network, request_buffer_overflow}
use let_dx.Result.{ok, err, ◌>>=◌}
use let_dx.Network.Request.Decoder.{request_decode}
use let_dx.Network.Server.{Receipt, received, closed, read_loop, read_request, client_read}

-- A socket that delivers the bytes of a list, and is closed behind them.
abbrev pub receipt : Option ℕ → Receipt
receipt none = closed
receipt (some byte) = received byte

abbrev pub delivers : List ℕ → ℕ → Receipt
delivers bytes i = receipt (get_elem? bytes i)

abbrev pub NoNewline : List ℕ → Type 0
NoNewline bytes = All (λ byte. byte ≢ 10) bytes

-- One round over a byte that is no newline.
read_round :
    (room byte last : ℕ) (buffer rest : List ℕ)
    → byte ≢ 10
    → read_loop (suc room) (delivers (buffer ++ (byte ∷ rest))) last buffer
      ≡ read_loop room (delivers (buffer ++ (byte ∷ rest))) byte (buffer ++ (byte ∷ []))
unfolding read_loop
read_round room byte last buffer rest h =
    rw (ap receipt (get_elem?-append_length buffer rest byte), read_loop, ne→==_false byte 10 h)
      refl

-- The loop reaches the newline that the buffer has room for.
read_loop-line :
    (text : List ℕ) (room last : ℕ) (buffer rest : List ℕ)
    → NoNewline text
    → length text < room
    → read_loop room (delivers (buffer ++ (text ++ (10 ∷ rest)))) last buffer
      ≡ ok (buffer ++ (text ++ (b' ' ∷ [])), 10)
read_loop-line text zero last buffer rest h fits = absurd (omega arith)
read_loop-line [] (suc room) last buffer rest h fits =
    unfold read_loop in rw (ap receipt (get_elem?-append_length buffer rest 10), read_loop) refl
read_loop-line (byte ∷ text) (suc room) last buffer rest (hb, h) fits =
    read_round room byte last buffer (text ++ (10 ∷ rest)) hb
    ∙ subst
        (λ bytes.
          read_loop room (delivers bytes) byte (buffer ++ (byte ∷ []))
          ≡ ok ((buffer ++ (byte ∷ [])) ++ (text ++ (b' ' ∷ [])), 10))
        (append_assoc buffer (byte ∷ []) (text ++ (10 ∷ rest)))
        (read_loop-line text room byte (buffer ++ (byte ∷ [])) rest h (omega arith))
    ∙ ap (λ t. ok (t, 10)) (append_assoc buffer (byte ∷ []) (text ++ (b' ' ∷ [])))

-- The loop fills the buffer where there is no newline.
read_loop-full :
    (text : List ℕ) (last : ℕ) (buffer rest : List ℕ)
    → NoNewline text
    → last ≢ 10
    → (final : ℕ) × (final ≢ 10)
      × (read_loop (length text) (delivers (buffer ++ (text ++ rest))) last buffer
          ≡ ok (buffer ++ text, final))
read_loop-full [] last buffer rest h fine =
    (last, fine, unfold read_loop in ap (λ t. ok (t, last)) (sym (append-nil buffer)))
read_loop-full (byte ∷ text) last buffer rest (hb, h) fine =
    let (final, ends, runs) = read_loop-full text byte (buffer ++ (byte ∷ [])) rest h hb in
    (
      final,
      ends,
      read_round (length text) byte last buffer (text ++ rest) hb
          ∙ subst
              (λ bytes.
                read_loop (length text) (delivers bytes) byte (buffer ++ (byte ∷ []))
                ≡ ok ((buffer ++ (byte ∷ [])) ++ text, final))
              (append_assoc buffer (byte ∷ []) (text ++ rest)) runs
          ∙ ap (λ t. ok (t, final)) (append_assoc buffer (byte ∷ []) text),
    )

read_request-newline : (buffer : List ℕ) → read_request (buffer, 10) ≡ request_decode buffer
unfolding read_request
read_request-newline buffer = elim (Bool-cases (length buffer == 128)) [
  | inl full ↦ rw full refl
  | inr short ↦ rw short refl
]

read_request-full :
    (buffer : List ℕ) (last : ℕ)
    → length buffer ≡ 128
    → last ≢ 10
    → read_request (buffer, last) ≡ err (network request_buffer_overflow)
unfolding read_request
read_request-full buffer last full h = rw (full, ne→==_false last 10 h) refl

-- Where a client sends a line of less than 128 bytes before its newline, those bytes are handed to
-- the decoder with a space in place of the newline, whatever the client sends behind it.
pub client_read_line :
    (text rest : List ℕ)
    → NoNewline text
    → length text < 128
    → client_read (delivers (text ++ (10 ∷ rest))) ≡ request_decode (text ++ (b' ' ∷ []))
unfolding client_read
client_read_line text rest h fits =
    ap (λ m. m >>= read_request) (read_loop-line text 128 0 [] rest h fits)
    ∙ read_request-newline (text ++ (b' ' ∷ []))

-- Where the first 128 bytes that a client sends hold no newline, the request is refused as too
-- long, whatever follows.
pub client_read_overflow :
    (text rest : List ℕ)
    → NoNewline text
    → length text ≡ 128
    → client_read (delivers (text ++ rest)) ≡ err (network request_buffer_overflow)
unfolding client_read
client_read_overflow text rest h full =
    let (final, ends, runs) = read_loop-full text 0 [] rest h (λ e. omega arith) in
    ap (λ m. m >>= read_request)
      (ap (λ (n : ℕ). read_loop n (delivers (text ++ rest)) 0 []) (sym full) ∙ runs)
    ∙ read_request-full text final full ends

-- Bytes without a newline.
pub replicate-NoNewline : (n byte : ℕ) → byte ≢ 10 → NoNewline (replicate n byte)
replicate-NoNewline zero byte h = tt
replicate-NoNewline (suc n) byte h = (h, replicate-NoNewline n byte h)
