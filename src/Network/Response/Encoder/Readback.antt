-- ===== src/Network/Response/Encoder/Readback.antt =====
-- A client reads from the bytes of a response exactly what the server answered.
use let_dx.Base.{
  ℕ, ◌^◌, ◌≤◌, ◌<◌, ◌≡◌, refl, ap, sym, ◌∙◌, Bool, true, false, ◌&&◌, Option, none, some, List, [],
  ◌∷◌, ◌++◌, append_assoc, arith, ◌==◌, if◌then◌else◌, take, drop,
}
use let_dx.Error.{error_code}
use let_dx.Error.Codes.{error_code-injective, error_code-lt}
use let_dx.Result.{Result}
use let_dx.Network.Response.{Response, ResponseFits}
use let_dx.Network.Response.Encoder.{response_encode}
use let_dx.Network.Response.Encoder.Hex.{hex_text}
use let_dx.Network.Response.Encoder.Text.{read_number, read_number-hex_text}
use let_dx.Network.Response.Encoder.Reply.{response_text, response_encode_text}

-- What a client learns: the response, with the code in place of the error.
pub data Reply : Type 0 where
  magic : Reply
  account_id : ℕ → Reply
  account : ℕ → ℕ → ℕ → Reply
  counts : ℕ → ℕ → Reply
  success : Reply
  failure : ℕ → Reply

unfoldable pub reply_of : Response → Reply
reply_of Response.magic = magic
reply_of (Response.add_account id) = account_id id
reply_of (Response.get_account credits debits flags) = account credits debits flags
reply_of (Response.count_database accounts entries) = counts accounts entries
reply_of Response.ok = success
reply_of (Response.error e) = failure (error_code e)

same : List ℕ → List ℕ → Bool
same [] [] = true
same (a ∷ as') (b ∷ bs) = a == b && same as' bs
same _ _ = false

-- The number behind the separator.
abbrev next_number : List ℕ → ℕ × List ℕ
next_number cs = read_number 0 (drop 1 cs)

-- Reading a response line: the tag of three letters, and the numbers behind it.
unfoldable pub read_reply : List ℕ → Option Reply
unfolding same read_number
read_reply cs =
    let tag = take 3 cs in
    let first = next_number (drop 3 cs) in
    let second = next_number first.1 in
    let third = next_number second.1 in
    if same tag (b'L' ∷ b'E' ∷ b'T' ∷ [])
    then some magic
    else if same tag (b'A' ∷ b'I' ∷ b'D' ∷ [])
    then some (account_id first.0)
    else if same tag (b'A' ∷ b'C' ∷ b'C' ∷ [])
    then some (account first.0 second.0 third.0)
    else if same tag (b'L' ∷ b'E' ∷ b'N' ∷ [])
    then some (counts first.0 second.0)
    else if same tag (b'O' ∷ b'K' ∷ b'E' ∷ [])
    then some success
    else if same tag (b'E' ∷ b'R' ∷ b'R' ∷ [])
    then some (failure first.0)
    else none

stop_newline : (v : ℕ) (cs : List ℕ) → read_number v (10 ∷ cs) ≡ (v, 10 ∷ cs)
unfolding read_number
stop_newline v cs = refl

stop_space : (v : ℕ) (cs : List ℕ) → read_number v (b' ' ∷ cs) ≡ (v, b' ' ∷ cs)
unfolding read_number
stop_space v cs = refl

read_before_newline :
    (size v : ℕ) (cs : List ℕ)
    → v < 256 ^ size
    → read_number 0 (hex_text v size ++ (10 ∷ cs)) ≡ (v, 10 ∷ cs)
read_before_newline size v cs h = read_number-hex_text size v (10 ∷ cs) h ∙ stop_newline v cs

read_before_space :
    (size v : ℕ) (cs : List ℕ)
    → v < 256 ^ size
    → read_number 0 (hex_text v size ++ (b' ' ∷ cs)) ≡ (v, b' ' ∷ cs)
read_before_space size v cs h = read_number-hex_text size v (b' ' ∷ cs) h ∙ stop_space v cs

read_reply-text : (r : Response) → ResponseFits r → read_reply (response_text r) ≡ some (reply_of r)
unfolding read_reply response_text reply_of
read_reply-text Response.magic h = refl
read_reply-text (Response.add_account id) h = rw (read_before_newline 8 id [] h)
read_reply-text (Response.get_account credits debits flags) h = simp append_assoc (
    rw (read_before_space 16 credits _ h.0)
      (rw (read_before_space 16 debits _ h.1) (rw (read_before_newline 1 flags [] h.2))))
read_reply-text (Response.count_database accounts entries) h =
    simp append_assoc
      (rw (read_before_space 8 accounts _ h.0) (rw (read_before_newline 8 entries [] h.1)))
read_reply-text Response.ok h = refl
read_reply-text (Response.error e) h =
    rw (read_before_newline 2 (error_code e) [] (error_code-lt e))

-- Into a buffer of 73 bytes or more, a response whose values fit their fields is encoded to bytes
-- that, read as a response line, are the response: its kind, every number in it, and the code of
-- its error.
pub read_reply-encode :
    (capacity : ℕ) (r : Response)
    → 73 ≤ capacity
    → ResponseFits r
    → (bytes : List ℕ) × (response_encode capacity r ≡ Result.ok bytes)
      × (read_reply bytes ≡ some (reply_of r))
read_reply-encode capacity r h fits =
    (response_text r, (response_encode_text capacity r h).0, read_reply-text r fits)

reply_of-injective : (r r' : Response) → reply_of r ≡ reply_of r' → r ≡ r'
unfolding reply_of
reply_of-injective (Response.error e) (Response.error e') h =
    ap Response.error (error_code-injective e e' (ground arith))
reply_of-injective Response.magic r' h = ground arith
reply_of-injective r r' h = ground arith

-- Two responses whose values fit their fields, and that are encoded to the same bytes in a buffer
-- of 73 bytes or more, are the same response, the error of a refusal included.
pub response_encode-injective :
    (capacity : ℕ) (r r' : Response)
    → 73 ≤ capacity
    → ResponseFits r
    → ResponseFits r'
    → response_encode capacity r ≡ response_encode capacity r'
    → r ≡ r'
response_encode-injective capacity r r' h fits fits' e =
    let texts : Result.ok (response_text r) ≡ Result.ok (response_text r') =
      sym (response_encode_text capacity r h).0 ∙ e ∙ (response_encode_text capacity r' h).0 in
    let text : response_text r ≡ response_text r' = cc texts in
    let replies : some (reply_of r) ≡ some (reply_of r') =
      sym (read_reply-text r fits) ∙ ap read_reply text ∙ read_reply-text r' fits' in
    reply_of-injective r r' (cc replies)
