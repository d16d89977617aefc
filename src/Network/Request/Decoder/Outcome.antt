-- ===== src/Network/Request/Decoder/Outcome.antt =====
-- What the decoder can answer on any bytes.
use let_dx.Base.{
  ℕ, ◌^◌, ◌<◌, ◌≡◌, refl, List, [], ◌∷◌, arith, subst, Bool, Bool-cases, inl, inr, ◌==◌, ◌&&◌, true,
  false, if◌then◌else◌,
}
use let_dx.Result.{Result, ok, err, stuck, ◌>>=◌, >>=-eq-ok}
use let_dx.Network.Request.{Request, RequestFits}
use let_dx.Network.Request.Decoder.{
  Decoder, DecoderState, command, argument, end, decoder_empty, parse_u128, parse_u64, parse_u8,
  is_end, fill, run_command, parse_argument, run_argument, run_byte, run_loop, finish,
  request_decode,
}

parse_u128_fits :
    (argc byte v n w : ℕ) → v < 2 ^ 128 → parse_u128 argc byte v ≡ ok (n, w) → w < 2 ^ 128
unfolding parse_u128
parse_u128_fits argc byte v n w fits h = ground arith

parse_u64_fits : (argc byte v n w : ℕ) → parse_u64 argc byte v ≡ ok (n, w) → w < 2 ^ 64
unfolding parse_u64
parse_u64_fits argc byte v n w h = ground arith

parse_u8_fits : (argc byte v n w : ℕ) → parse_u8 argc byte v ≡ ok (n, w) → w < 2 ^ 8
unfolding parse_u8
parse_u8_fits argc byte v n w h = ground arith

-- Whatever request a step returns, its values fit.
record Fits (m : Result (ℕ × Request)) : Type 0 where
  at : (n : ℕ) (r : Request) → m ≡ ok (n, r) → RequestFits r

Fits-ok : (n : ℕ) (r : Request) → RequestFits r → Fits (ok (n, r))
Fits-ok n r fits = record { at = λ n' r' e. subst RequestFits (cc) fits }

Fits-if : (b : Bool) (m m' : Result (ℕ × Request)) → Fits m → Fits m' → Fits (if b then m else m')
Fits-if true m m' h k = h
Fits-if false m m' h k = k

Fits-fill :
    (bound : ℕ) (f : ℕ → Request) (m : Result (ℕ × ℕ))
    → ((n v : ℕ) → m ≡ ok (n, v) → v < bound)
    → ((v : ℕ) → v < bound → RequestFits (f v))
    → Fits (fill f m)
Fits-fill bound f (ok (n, v)) below keeps = Fits-ok n (f v) (keeps v (below n v refl))
Fits-fill bound f (err e) below keeps = record { at = λ n r h. cc }
Fits-fill bound f stuck below keeps = record { at = λ n r h. cc }

module _ (f : ℕ → Request) (argc byte v : ℕ) where
  Fits-u64 : ((w : ℕ) → w < 2 ^ 64 → RequestFits (f w)) → Fits (fill f (parse_u64 argc byte v))
  Fits-u64 = Fits-fill (2 ^ 64) f (parse_u64 argc byte v) (parse_u64_fits argc byte v)

  Fits-u8 : ((w : ℕ) → w < 2 ^ 8 → RequestFits (f w)) → Fits (fill f (parse_u8 argc byte v))
  Fits-u8 = Fits-fill (2 ^ 8) f (parse_u8 argc byte v) (parse_u8_fits argc byte v)

  Fits-u128 :
      v < 2 ^ 128
      → ((w : ℕ) → w < 2 ^ 128 → RequestFits (f w))
      → Fits (fill f (parse_u128 argc byte v))
  Fits-u128 h =
      Fits-fill (2 ^ 128) f (parse_u128 argc byte v) (λ n w. parse_u128_fits argc byte v n w h)

abbrev add : ℕ → ℕ → ℕ → ℕ → Request
add = Request.add_account

abbrev move : ℕ → ℕ → ℕ → ℕ → Request
move = Request.make_transfer

abbrev update : ℕ → ℕ → ℕ → Request
update = Request.update_account

parse_argument-RequestFits :
    (r : Request) (argc byte : ℕ) → RequestFits r → Fits (parse_argument r argc byte)
unfolding parse_argument
parse_argument-RequestFits (Request.add_account w c d f) argc byte h =
    Fits-if (argc == 4) _ _ (Fits-u64 (λ v. add v c d f) argc byte w (λ v b. (b, h.1, h.2, h.3))) (
      Fits-if (argc == 3) _ _
        (Fits-u128 (λ v. add w v d f) argc byte c h.1 (λ v b. (h.0, b, h.2, h.3)))
        (Fits-if (argc == 2) _ _
          (Fits-u128 (λ v. add w c v f) argc byte d h.2 (λ v b. (h.0, h.1, b, h.3)))
          (Fits-if (argc == 1) _ _
            (Fits-u8 (λ v. add w c d v) argc byte f (λ v b. (h.0, h.1, h.2, b)))
            (Fits-ok argc (add w c d f) h))))
parse_argument-RequestFits (Request.make_transfer w from to a) argc byte h =
    Fits-if (argc == 4) _ _
      (Fits-u64 (λ v. move v from to a) argc byte w (λ v b. (b, h.1, h.2, h.3)))
      (Fits-if (argc == 3) _ _
        (Fits-u64 (λ v. move w v to a) argc byte from (λ v b. (h.0, b, h.2, h.3)))
        (Fits-if (argc == 2) _ _
          (Fits-u64 (λ v. move w from v a) argc byte to (λ v b. (h.0, h.1, b, h.3)))
          (Fits-if (argc == 1) _ _
            (Fits-u128 (λ v. move w from to v) argc byte a h.3 (λ v b. (h.0, h.1, h.2, b)))
            (Fits-ok argc (move w from to a) h))))
parse_argument-RequestFits (Request.get_account id) argc byte h =
    Fits-if (argc == 1) _ _ (Fits-u64 Request.get_account argc byte id (λ v b. b))
      (Fits-ok argc _ h)
parse_argument-RequestFits (Request.update_account w id f) argc byte h =
    Fits-if (argc == 3) _ _ (Fits-u64 (λ v. update v id f) argc byte w (λ v b. (b, h.1, h.2))) (
      Fits-if (argc == 2) _ _ (Fits-u64 (λ v. update w v f) argc byte id (λ v b. (h.0, b, h.2))) (
        Fits-if (argc == 1) _ _ (Fits-u8 (λ v. update w id v) argc byte f (λ v b. (h.0, h.1, b)))
          (Fits-ok argc (update w id f) h)))
parse_argument-RequestFits Request.magic argc byte h = Fits-ok _ _ h
parse_argument-RequestFits Request.count_database argc byte h = Fits-ok _ _ h
parse_argument-RequestFits Request.close argc byte h = Fits-ok _ _ h

run_command-RequestFits :
    (d : Decoder) (byte : ℕ) (d' : Decoder) → run_command d byte ≡ ok d' → RequestFits d'.request
unfolding run_command
run_command-RequestFits d byte d' h = ground arith

filled-RequestFits :
    (d : Decoder) (m : Result (ℕ × Request)) (d' : Decoder)
    → Fits m
    → (m >>= λ p. ok (record d { request = p.1; request_argc = p.0 })) ≡ ok d'
    → RequestFits d'.request
filled-RequestFits d (ok (n, r)) d' h e =
    let same : r ≡ d'.request = ground arith in subst RequestFits same (h.at n r refl)
filled-RequestFits d (err x) d' h e = cc
filled-RequestFits d stuck d' h e = cc

run_argument-RequestFits :
    (d : Decoder) (byte : ℕ) (d' : Decoder)
    → RequestFits d.request
    → run_argument d byte ≡ ok d'
    → RequestFits d'.request
unfolding run_argument
run_argument-RequestFits d byte d' fits h = elim (Bool-cases (d.request_argc == 0)) [
  | inl done ↦ ground arith
  | inr more ↦ elim (Bool-cases (d.request_argc == 1 && byte == b' ')) [
    | inl last ↦ ground arith
    | inr inside ↦
        filled-RequestFits d (parse_argument d.request d.request_argc byte) d'
          (parse_argument-RequestFits d.request d.request_argc byte fits) (rw (more, inside) at h)
  ]
]

run_byte-RequestFits :
    (state : DecoderState) (d : Decoder) (byte : ℕ) (d' : Decoder)
    → RequestFits d.request
    → run_byte state d byte ≡ ok d'
    → RequestFits d'.request
unfolding run_byte
run_byte-RequestFits command d byte d' fits h = run_command-RequestFits d byte d' h
run_byte-RequestFits argument d byte d' fits h = run_argument-RequestFits d byte d' fits h
run_byte-RequestFits end d byte d' fits h = ground arith

run_loop-RequestFits :
    (d : Decoder) (bytes : List ℕ) (d' : Decoder) (rest : List ℕ)
    → RequestFits d.request
    → run_loop d bytes ≡ ok (d', rest)
    → RequestFits d'.request
unfolding run_loop
run_loop-RequestFits d [] d' rest fits h = ground arith
run_loop-RequestFits d (byte ∷ bytes) d' rest fits h = elim (Bool-cases (is_end d.state)) [
  | inl done ↦ ground arith
  | inr more ↦
      let (d1, e, tail) =
        >>=-eq-ok (run_byte d.state d byte) (λ d1. run_loop d1 bytes) (rw more at h) in
      run_loop-RequestFits d1 bytes d' rest (run_byte-RequestFits d.state d byte d1 fits e) tail
]

finish-request : (p : Decoder × List ℕ) (r : Request) → finish p ≡ ok r → p.0.request ≡ r
unfolding finish
finish-request (d, []) r h = ground arith
finish-request (d, byte ∷ rest) r h = ground arith

-- Every value of a decoded request fits the field that holds it, whatever bytes were received.
pub request_decode-RequestFits :
    (buffer : List ℕ) (r : Request) → request_decode buffer ≡ ok r → RequestFits r
unfolding request_decode
request_decode-RequestFits [] r h = cc
request_decode-RequestFits (byte ∷ bytes) r h =
    let (p, e, tail) = >>=-eq-ok (run_loop decoder_empty (byte ∷ bytes)) finish h in
    subst RequestFits (finish-request p r tail)
      (run_loop-RequestFits decoder_empty (byte ∷ bytes) p.0 p.1 tt e)
