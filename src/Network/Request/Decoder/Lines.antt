-- ===== src/Network/Request/Decoder/Lines.antt =====
-- Request lines, and what the decoder makes of them.
use let_dx.Base.{ℕ, ◌^◌, ◌<◌, ◌≡◌, refl, ap, ◌∙◌, List, [], ◌∷◌, ◌++◌, All, arith}
use let_dx.Result.{Result, ok, ◌>>=◌}
use let_dx.Network.Request.{Request, RequestFits}
use let_dx.Network.Request.Decoder.{
  Decoder, end, parse_u128, parse_u64, parse_u8, run_command, parse_argument, run_argument,
  run_byte, run_loop, finish, request_decode,
}
use let_dx.Network.Request.Decoder.Accepts.{
  IsArgument, value, Reads-u64, Reads-u128, Reads-u8, reading, run_argument_more, run_argument_last,
}

-- A request as it is written: the characters of each argument.
pub data Line : Type 0 where
  magic : Line
  add_account : List ℕ → List ℕ → List ℕ → List ℕ → Line
  make_transfer : List ℕ → List ℕ → List ℕ → List ℕ → Line
  get_account : List ℕ → Line
  count_database : Line
  update_account : List ℕ → List ℕ → List ℕ → Line
  close : Line

-- The bytes that reach the decoder: the newline has become a space.
unfoldable pub line_bytes : Line → List ℕ
line_bytes magic = b';' ∷ b' ' ∷ []
line_bytes (add_account w c d f) =
    b'+' ∷ (w ++ (b' ' ∷ (c ++ (b' ' ∷ (d ++ (b' ' ∷ (f ++ (b' ' ∷ []))))))))
line_bytes (make_transfer w s r a) =
    b'%' ∷ (w ++ (b' ' ∷ (s ++ (b' ' ∷ (r ++ (b' ' ∷ (a ++ (b' ' ∷ []))))))))
line_bytes (get_account i) = b'?' ∷ (i ++ (b' ' ∷ []))
line_bytes count_database = b'#' ∷ b' ' ∷ []
line_bytes (update_account w i f) = b'=' ∷ (w ++ (b' ' ∷ (i ++ (b' ' ∷ (f ++ (b' ' ∷ []))))))
line_bytes close = b'.' ∷ b' ' ∷ []

unfoldable pub line_request : Line → Request
line_request magic = Request.magic
line_request (add_account w c d f) = Request.add_account (value w) (value c) (value d) (value f)
line_request (make_transfer w s r a) = Request.make_transfer (value w) (value s) (value r) (value a)
line_request (get_account i) = Request.get_account (value i)
line_request count_database = Request.count_database
line_request (update_account w i f) = Request.update_account (value w) (value i) (value f)
line_request close = Request.close

-- Every argument is made of digits and underscores; it may be empty.
abbrev pub IsWritten : Line → Type 0
IsWritten (add_account w c d f) =
    All IsArgument w × All IsArgument c × All IsArgument d × All IsArgument f
IsWritten (make_transfer w s r a) =
    All IsArgument w × All IsArgument s × All IsArgument r × All IsArgument a
IsWritten (get_account i) = All IsArgument i
IsWritten (update_account w i f) = All IsArgument w × All IsArgument i × All IsArgument f
IsWritten _ = Unit

run_add_account :
    (w c d f : List ℕ)
    → IsWritten (add_account w c d f)
    → RequestFits (line_request (add_account w c d f))
    → run_loop
        (reading (Request.add_account 0 0 0 0) 4)
        (w ++ (b' ' ∷ (c ++ (b' ' ∷ (d ++ (b' ' ∷ (f ++ (b' ' ∷ []))))))))
      ≡ ok (
        record { request = line_request (add_account w c d f); request_argc = 0; state = end },
        [],
      )
unfolding parse_argument line_request
run_add_account w c d f (hw, hc, hd, hf) (bw, bc, bd, bf) =
    run_argument_more parse_u64 (2 ^ 64) 4 (λ v. Request.add_account v 0 0 0) Reads-u64
      (omega arith) (λ v b. refl) w _ hw bw (omega arith)
    ∙ run_argument_more parse_u128 (2 ^ 128) 3 (λ v. Request.add_account (value w) v 0 0) Reads-u128
        (omega arith) (λ v b. refl) c _ hc bc (omega arith)
    ∙ run_argument_more parse_u128 (2 ^ 128) 2 (λ v. Request.add_account (value w) (value c) v 0)
        Reads-u128 (omega arith) (λ v b. refl) d _ hd bd (omega arith)
    ∙ run_argument_last parse_u8 (2 ^ 8) 1
        (λ v. Request.add_account (value w) (value c) (value d) v) Reads-u8 (omega arith)
        (λ v b. refl) f hf bf refl

run_make_transfer :
    (w s r a : List ℕ)
    → IsWritten (make_transfer w s r a)
    → RequestFits (line_request (make_transfer w s r a))
    → run_loop
        (reading (Request.make_transfer 0 0 0 0) 4)
        (w ++ (b' ' ∷ (s ++ (b' ' ∷ (r ++ (b' ' ∷ (a ++ (b' ' ∷ []))))))))
      ≡ ok (
        record { request = line_request (make_transfer w s r a); request_argc = 0; state = end },
        [],
      )
unfolding parse_argument line_request
run_make_transfer w s r a (hw, hs, hr, ha) (bw, bs, br, ba) =
    run_argument_more parse_u64 (2 ^ 64) 4 (λ v. Request.make_transfer v 0 0 0) Reads-u64
      (omega arith) (λ v b. refl) w _ hw bw (omega arith)
    ∙ run_argument_more parse_u64 (2 ^ 64) 3 (λ v. Request.make_transfer (value w) v 0 0) Reads-u64
        (omega arith) (λ v b. refl) s _ hs bs (omega arith)
    ∙ run_argument_more parse_u64 (2 ^ 64) 2 (λ v. Request.make_transfer (value w) (value s) v 0)
        Reads-u64 (omega arith) (λ v b. refl) r _ hr br (omega arith)
    ∙ run_argument_last parse_u128 (2 ^ 128) 1
        (λ v. Request.make_transfer (value w) (value s) (value r) v) Reads-u128 (omega arith)
        (λ v b. refl) a ha ba refl

run_get_account :
    (i : List ℕ)
    → All IsArgument i
    → value i < 2 ^ 64
    → run_loop (reading (Request.get_account 0) 1) (i ++ (b' ' ∷ []))
      ≡ ok (record { request = Request.get_account (value i); request_argc = 0; state = end }, [])
unfolding parse_argument
run_get_account i hi bi =
    run_argument_last parse_u64 (2 ^ 64) 1 Request.get_account Reads-u64 (omega arith) (λ v b. refl)
      i hi bi refl

run_update_account :
    (w i f : List ℕ)
    → IsWritten (update_account w i f)
    → RequestFits (line_request (update_account w i f))
    → run_loop
        (reading (Request.update_account 0 0 0) 3)
        (w ++ (b' ' ∷ (i ++ (b' ' ∷ (f ++ (b' ' ∷ []))))))
      ≡ ok (
        record { request = line_request (update_account w i f); request_argc = 0; state = end },
        [],
      )
unfolding parse_argument line_request
run_update_account w i f (hw, hi, hf) (bw, bi, bf) =
    run_argument_more parse_u64 (2 ^ 64) 3 (λ v. Request.update_account v 0 0) Reads-u64
      (omega arith) (λ v b. refl) w _ hw bw (omega arith)
    ∙ run_argument_more parse_u64 (2 ^ 64) 2 (λ v. Request.update_account (value w) v 0) Reads-u64
        (omega arith) (λ v b. refl) i _ hi bi (omega arith)
    ∙ run_argument_last parse_u8 (2 ^ 8) 1 (λ v. Request.update_account (value w) (value i) v)
        Reads-u8 (omega arith) (λ v b. refl) f hf bf refl

-- What is left of the decoding once the loop has ended.
finishing : {m m' : Result (Decoder × List ℕ)} → m ≡ m' → (m >>= finish) ≡ (m' >>= finish)
finishing e = ap (λ m. m >>= finish) e

-- Every request line whose arguments are digits and underscores, if any, and whose values fit their
-- fields, is decoded to the request that it writes.
pub request_decode-line :
    (line : Line)
    → IsWritten line
    → RequestFits (line_request line)
    → request_decode (line_bytes line) ≡ ok (line_request line)
unfolding request_decode line_bytes run_loop run_byte run_command run_argument finish line_request
request_decode-line magic h fits = refl
request_decode-line (add_account w c d f) h fits = finishing (run_add_account w c d f h fits)
request_decode-line (make_transfer w s r a) h fits = finishing (run_make_transfer w s r a h fits)
request_decode-line (get_account i) h fits = finishing (run_get_account i h fits)
request_decode-line count_database h fits = refl
request_decode-line (update_account w i f) h fits = finishing (run_update_account w i f h fits)
request_decode-line close h fits = refl
