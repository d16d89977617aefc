-- ===== src/Network/Request/Decoder/Exact.antt =====
-- Which bytes the decoder of LetDB/src/network/request/decoder.c accepts. They are more than the lines of
-- docs/LETDB.md, since an argument may be empty.
use let_dx.Base.{
  ℕ, ◌≡◌, ◌↔◌, inl, inr, refl, sym, ap, ◌∙◌, subst, true, List, [], ◌∷◌, ◌++◌, arith, ◌==◌,
  Bool-cases, ==_iff,
}
use let_dx.Result.{ok, ◌>>=◌}
use let_dx.Network.Request.{Request, RequestFits}
use let_dx.Network.Request.Decoder.{
  parse_u128, parse_u64, parse_u8, parse_argument, run_argument, run_byte, run_loop, finish,
  run_command, decoder_empty, request_decode,
}
use let_dx.Network.Request.Decoder.Accepts.{value, reading}
use let_dx.Network.Request.Decoder.Inversion.{
  Inverts-u128, Inverts-u64, Inverts-u8, more_read, last_read_lem,
}
use let_dx.Network.Request.Decoder.Outcome.{request_decode-RequestFits}
use let_dx.Network.Request.Decoder.Lines.{
  Line, line_bytes, line_request, IsWritten, request_decode-line,
}

-- Behind a command without arguments there is one space.
none_read :
    (q : Request) (bytes : List ℕ) (r : Request)
    → (run_loop (reading q 0) bytes >>= finish) ≡ ok r
    → (bytes ≡ b' ' ∷ []) × (q ≡ r)
unfolding run_loop run_byte run_argument finish
none_read q [] r h = cc (h)
none_read q (c ∷ []) r h = ground arith
none_read q (c ∷ d ∷ bytes) r h = ground arith

-- What an accepted line is.
abbrev Accepted : List ℕ → Request → Type 0
Accepted bytes r =
    (line : Line) × (bytes ≡ line_bytes line) × IsWritten line × (line_request line ≡ r)

-- A line from the request that its command begins, with some arguments left.
abbrev Reads : Request → ℕ → ℕ → Type 0
Reads q argc code =
    (rest : List ℕ) (r : Request)
    → (run_loop (reading q argc) rest >>= finish) ≡ ok r
    → Accepted (code ∷ rest) r

magic-Reads : Reads Request.magic 0 b';'
unfolding line_bytes line_request
magic-Reads rest r h =
    let (bytes, same) = none_read Request.magic rest r h in
    (Line.magic, ap (λ t. b';' ∷ t) bytes, tt, same)

count_database-Reads : Reads Request.count_database 0 b'#'
unfolding line_bytes line_request
count_database-Reads rest r h =
    let (bytes, same) = none_read Request.count_database rest r h in
    (Line.count_database, ap (λ t. b'#' ∷ t) bytes, tt, same)

close-Reads : Reads Request.close 0 b'.'
unfolding line_bytes line_request
close-Reads rest r h =
    let (bytes, same) = none_read Request.close rest r h in
    (Line.close, ap (λ t. b'.' ∷ t) bytes, tt, same)

get_account-Reads : Reads (Request.get_account 0) 1 b'?'
unfolding line_bytes line_request parse_argument
get_account-Reads rest r h =
    let (i, bytes, all, same) =
      last_read_lem parse_u64 1 Request.get_account Inverts-u64 (omega arith) (λ v b. refl) rest r
        refl h in
    (Line.get_account i, ap (λ t. b'?' ∷ t) bytes, all, same)

update_account-Reads : Reads (Request.update_account 0 0 0) 3 b'='
unfolding line_bytes line_request parse_argument
update_account-Reads rest r h =
    let (w, rest1, bytes, hw, h1) =
      more_read parse_u64 3 (λ v. Request.update_account v 0 0) Inverts-u64 (omega arith)
        (λ v b. refl) rest r (omega arith) h in
    let (i, rest2, bytes1, hi, h2) =
      more_read parse_u64 2 (λ v. Request.update_account (value w) v 0) Inverts-u64 (omega arith)
        (λ v b. refl) rest1 r (omega arith) h1 in
    let (f, bytes2, hf, same) =
      last_read_lem parse_u8 1 (λ v. Request.update_account (value w) (value i) v) Inverts-u8
        (omega arith) (λ v b. refl) rest2 r refl h2 in
    (
      Line.update_account w i f,
      ap (λ t. b'=' ∷ t)
          (bytes ∙ ap (λ t. w ++ (b' ' ∷ t)) (bytes1 ∙ ap (λ t. i ++ (b' ' ∷ t)) bytes2)),
      (hw, hi, hf),
      same,
    )

add_account-Reads : Reads (Request.add_account 0 0 0 0) 4 b'+'
unfolding line_bytes line_request parse_argument
add_account-Reads rest r h =
    let (w, rest1, bytes, hw, h1) =
      more_read parse_u64 4 (λ v. Request.add_account v 0 0 0) Inverts-u64 (omega arith)
        (λ v b. refl) rest r (omega arith) h in
    let (c, rest2, bytes1, hc, h2) =
      more_read parse_u128 3 (λ v. Request.add_account (value w) v 0 0) Inverts-u128 (omega arith)
        (λ v b. refl) rest1 r (omega arith) h1 in
    let (d, rest3, bytes2, hd, h3) =
      more_read parse_u128 2 (λ v. Request.add_account (value w) (value c) v 0) Inverts-u128
        (omega arith) (λ v b. refl) rest2 r (omega arith) h2 in
    let (f, bytes3, hf, same) =
      last_read_lem parse_u8 1 (λ v. Request.add_account (value w) (value c) (value d) v) Inverts-u8
        (omega arith) (λ v b. refl) rest3 r refl h3 in
    (
      Line.add_account w c d f,
      ap (λ t. b'+' ∷ t)
          (bytes
            ∙ ap (λ t. w ++ (b' ' ∷ t))
                (bytes1 ∙ ap (λ t. c ++ (b' ' ∷ t)) (bytes2 ∙ ap (λ t. d ++ (b' ' ∷ t)) bytes3))),
      (hw, hc, hd, hf),
      same,
    )

make_transfer-Reads : Reads (Request.make_transfer 0 0 0 0) 4 b'%'
unfolding line_bytes line_request parse_argument
make_transfer-Reads rest r h =
    let (w, rest1, bytes, hw, h1) =
      more_read parse_u64 4 (λ v. Request.make_transfer v 0 0 0) Inverts-u64 (omega arith)
        (λ v b. refl) rest r (omega arith) h in
    let (s, rest2, bytes1, hs, h2) =
      more_read parse_u64 3 (λ v. Request.make_transfer (value w) v 0 0) Inverts-u64 (omega arith)
        (λ v b. refl) rest1 r (omega arith) h1 in
    let (t, rest3, bytes2, ht, h3) =
      more_read parse_u64 2 (λ v. Request.make_transfer (value w) (value s) v 0) Inverts-u64
        (omega arith) (λ v b. refl) rest2 r (omega arith) h2 in
    let (a, bytes3, ha, same) =
      last_read_lem parse_u128 1 (λ v. Request.make_transfer (value w) (value s) (value t) v)
        Inverts-u128 (omega arith) (λ v b. refl) rest3 r refl h3 in
    (
      Line.make_transfer w s t a,
      ap (λ u. b'%' ∷ u)
          (bytes
            ∙ ap (λ u. w ++ (b' ' ∷ u))
                (bytes1 ∙ ap (λ u. s ++ (b' ' ∷ u)) (bytes2 ∙ ap (λ u. t ++ (b' ' ∷ u)) bytes3))),
      (hw, hs, ht, ha),
      same,
    )

at_code :
    (c code : ℕ) (rest : List ℕ) (r q : Request) (argc : ℕ)
    → (c == code) ≡ true
    → Reads q argc code
    → (run_loop (reading q argc) rest >>= finish) ≡ ok r
    → Accepted (c ∷ rest) r
at_code c code rest r q argc same reads h =
    subst (λ (c : ℕ). Accepted (c ∷ rest) r) (sym ((==_iff c code).0 same)) (reads rest r h)

command_read :
    (c : ℕ) (rest : List ℕ) (r : Request)
    → (run_loop decoder_empty (c ∷ rest) >>= finish) ≡ ok r
    → Accepted (c ∷ rest) r
unfolding run_loop run_byte run_command
command_read c rest r h = elim (Bool-cases (c == b';')) [
  | inl a ↦ at_code c b';' rest r _ _ a magic-Reads (rw (a) at h)
  | inr n0 ↦ elim (Bool-cases (c == b'+')) [
    | inl a ↦ at_code c b'+' rest r _ _ a add_account-Reads (rw (n0, a) at h)
    | inr n1 ↦ elim (Bool-cases (c == b'%')) [
      | inl a ↦ at_code c b'%' rest r _ _ a make_transfer-Reads (rw (n0, n1, a) at h)
      | inr n2 ↦ elim (Bool-cases (c == b'?')) [
        | inl a ↦ at_code c b'?' rest r _ _ a get_account-Reads (rw (n0, n1, n2, a) at h)
        | inr n3 ↦ elim (Bool-cases (c == b'#')) [
          | inl a ↦ at_code c b'#' rest r _ _ a count_database-Reads (rw (n0, n1, n2, n3, a) at h)
          | inr n4 ↦ elim (Bool-cases (c == b'=')) [
            | inl a ↦
                at_code c b'=' rest r _ _ a update_account-Reads (rw (n0, n1, n2, n3, n4, a) at h)
            | inr n5 ↦ elim (Bool-cases (c == b'.')) [
              | inl a ↦
                  at_code c b'.' rest r _ _ a close-Reads (rw (n0, n1, n2, n3, n4, n5, a) at h)
              | inr n6 ↦ cc (rw (n0, n1, n2, n3, n4, n5, n6) at h)
            ]
          ]
        ]
      ]
    ]
  ]
]

request_decode-Accepted :
    (bytes : List ℕ) (r : Request) → request_decode bytes ≡ ok r → Accepted bytes r
unfolding request_decode
request_decode-Accepted [] r h = cc (h)
request_decode-Accepted (c ∷ rest) r h = command_read c rest r h

-- The decoder accepts some bytes, and gives a request for them, exactly when they are the byte of a
-- command and, with a space behind each, as many arguments as the command has (a space alone, where it
-- has none), whose values fit their fields, and the request is that of the command with these values.
-- An argument is any number of digits and underscores, also none: its value is that of the digits, and 0
-- where there are none, so a line that lacks a number which docs/LETDB.md asks for, such as `?`, is
-- accepted as one with 0 in its place.
pub request_decode_iff :
    (bytes : List ℕ) (r : Request)
    → ((request_decode bytes ≡ ok r) ↔ (
        (line : Line) × (bytes ≡ line_bytes line)
        × IsWritten line
        × RequestFits (line_request line)
        × (line_request line ≡ r)))
request_decode_iff bytes r = (
  (λ h.
      let (line, same, is_written, request) = request_decode-Accepted bytes r h in
      (
        line,
        same,
        is_written,
        subst RequestFits (sym request) (request_decode-RequestFits bytes r h),
        request,
      )),
  (λ l. ap request_decode l.1 ∙ request_decode-line l.0 l.2 l.3 ∙ ap ok l.4),
)
