-- ===== src/Network/Request/Decoder/Rejects.antt =====
-- The decoder answers every input, and every refusal is one that the server reports to its client.
use let_dx.Base.{
  ℕ, ◌≡◌, ◌⊎◌, inl, inr, refl, Bool, true, false, List, [], ◌∷◌, arith, if◌then◌else◌, ◌==◌, ◌&&◌,
}
use let_dx.Error.{Error}
use let_dx.Error.Report.{reject, error_report}
use let_dx.Result.{Result, ok, err, stuck, ◌>>=◌}
use let_dx.Network.Request.{Request}
use let_dx.Network.Request.Decoder.{
  Decoder, DecoderState, command, argument, end, decoder_empty, is_end, fill, checked, parse_u128,
  parse_u64, parse_u8, run_command, parse_argument, run_argument, run_byte, run_loop, finish,
  request_decode,
}

-- What the decoder answers to bytes that it does not accept.
abbrev pub Rejects {ℓ} : {A : Type ℓ} → Result A → Type 0
Rejects (ok a) = Unit
Rejects (err e) = (error_report e).action ≡ reject
Rejects stuck = ⊥

-- The two answers, read off the predicate.
answer {ℓ} :
    {A : Type ℓ} (m : Result A)
    → Rejects m
    → ((a : A) × (m ≡ ok a)) ⊎ ((e : Error) × (m ≡ err e) × ((error_report e).action ≡ reject))
answer (ok a) h = inl (a, refl)
answer (err e) h = inr (e, refl, h)
answer stuck h = absurd h

Rejects-bind {ℓ κ} :
    {A : Type ℓ} {B : Type κ} (m : Result A) (f : A → Result B)
    → Rejects m
    → ((a : A) → Rejects (f a))
    → Rejects (m >>= f)
Rejects-bind (ok a) f h k = k a
Rejects-bind (err e) f h k = h
Rejects-bind stuck f h k = h

Rejects-fill : (f : ℕ → Request) (m : Result (ℕ × ℕ)) → Rejects m → Rejects (fill f m)
Rejects-fill f (ok p) h = tt
Rejects-fill f (err e) h = h
Rejects-fill f stuck h = h

Rejects-if {ℓ} :
    {A : Type ℓ} (b : Bool) (m m' : Result A)
    → Rejects m
    → Rejects m'
    → Rejects (if b then m else m')
Rejects-if true m m' h k = h
Rejects-if false m m' h k = k

parse_u128-Rejects : (argc byte v : ℕ) → Rejects (parse_u128 argc byte v)
unfolding parse_u128 error_report
parse_u128-Rejects argc byte v = ground arith

checked-Rejects : (max : ℕ) (p : ℕ × ℕ) → Rejects (checked max p)
unfolding error_report
checked-Rejects max (argc, v) = ground arith

parse_u64-Rejects : (argc byte v : ℕ) → Rejects (parse_u64 argc byte v)
unfolding parse_u64
parse_u64-Rejects argc byte v =
    Rejects-bind (parse_u128 argc byte v) (checked _) (parse_u128-Rejects argc byte v)
      (checked-Rejects _)

parse_u8-Rejects : (argc byte v : ℕ) → Rejects (parse_u8 argc byte v)
unfolding parse_u8
parse_u8-Rejects argc byte v =
    Rejects-bind (parse_u128 argc byte v) (checked _) (parse_u128-Rejects argc byte v)
      (checked-Rejects _)

ruleset rejects_rules =
    (Rejects-if, Rejects-fill, parse_u128-Rejects, parse_u64-Rejects, parse_u8-Rejects)

parse_argument-Rejects : (r : Request) (argc byte : ℕ) → Rejects (parse_argument r argc byte)
unfolding parse_argument
parse_argument-Rejects (Request.add_account w c d f) argc byte = search rejects_rules depth 9
parse_argument-Rejects _ argc byte = search rejects_rules depth 9

run_command-Rejects : (d : Decoder) (byte : ℕ) → Rejects (run_command d byte)
unfolding run_command error_report
run_command-Rejects d byte = ground arith

run_argument-Rejects : (d : Decoder) (byte : ℕ) → Rejects (run_argument d byte)
unfolding run_argument error_report
run_argument-Rejects d byte = Rejects-if (d.request_argc == 0) _ _ (ground arith) (
    Rejects-if (d.request_argc == 1 && byte == b' ') _ _ tt (
      Rejects-bind (parse_argument d.request d.request_argc byte) _
        (parse_argument-Rejects d.request d.request_argc byte) (λ p. tt)))

run_byte-Rejects : (s : DecoderState) (d : Decoder) (byte : ℕ) → Rejects (run_byte s d byte)
unfolding run_byte
run_byte-Rejects command d byte = run_command-Rejects d byte
run_byte-Rejects argument d byte = run_argument-Rejects d byte
run_byte-Rejects end d byte = tt

run_loop-Rejects : (d : Decoder) (bytes : List ℕ) → Rejects (run_loop d bytes)
unfolding run_loop
run_loop-Rejects d [] = tt
run_loop-Rejects d (byte ∷ bytes) = Rejects-if (is_end d.state) (ok (d, byte ∷ bytes)) _ tt (
    Rejects-bind (run_byte d.state d byte) (λ d'. run_loop d' bytes)
      (run_byte-Rejects d.state d byte) (λ d'. run_loop-Rejects d' bytes))

finish-Rejects : (p : Decoder × List ℕ) → Rejects (finish p)
unfolding finish error_report
finish-Rejects (d, []) = ground arith
finish-Rejects (d, byte ∷ rest) = ground arith

-- On any bytes at all the decoder returns a request, or an error whose action is to reject: it
-- never gets stuck, and never answers with an error that closes the connection or stops the server.
pub request_decode-Rejects :
    (buffer : List ℕ)
    → ((r : Request) × (request_decode buffer ≡ ok r))
      ⊎ ((e : Error) × (request_decode buffer ≡ err e) × ((error_report e).action ≡ reject))
unfolding request_decode error_report
request_decode-Rejects [] = inr (_, refl, refl)
request_decode-Rejects (byte ∷ bytes) = answer (run_loop decoder_empty (byte ∷ bytes) >>= finish) (
    Rejects-bind (run_loop decoder_empty (byte ∷ bytes)) finish
      (run_loop-Rejects decoder_empty (byte ∷ bytes)) finish-Rejects)
