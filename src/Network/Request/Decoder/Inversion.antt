-- ===== src/Network/Request/Decoder/Inversion.antt =====
-- Back from a request that the decoder of LetDB/src/network/request/decoder.c has read to the bytes of
-- its arguments.
use let_dx.Base.{
  ℕ, ◌+◌, ◌-◌, ◌%◌, ◌^◌, ◌≤◌, ◌<◌, ◌≡◌, ◌≢◌, ◌⊎◌, inl, inr, refl, sym, ap, ◌∙◌, subst, false, List,
  [], ◌∷◌, ◌++◌, All, arith, ◌==◌, ◌&&◌, Bool-cases, ==_iff,
}
use let_dx.Result.{Result, ok, err, stuck, ◌>>=◌}
use let_dx.Network.Request.{Request}
use let_dx.Network.Request.Decoder.{
  Decoder, fill, checked, parse_u128, parse_u64, parse_u8, parse_argument, run_argument, run_byte,
  run_loop, finish,
}
use let_dx.Network.Request.Decoder.Accepts.{IsArgument, value, value_from, next_value, reading}

-- What a byte that a parser accepts has been, and what the parser made of it.
pub record Inverts (parse : ℕ → ℕ → ℕ → Result (ℕ × ℕ)) : Type 0 where
  pub char :
      (argc c v n w : ℕ)
      → c ≢ b' '
      → parse argc c v ≡ ok (n, w)
      → (n ≡ argc) × (w ≡ next_value v c) × IsArgument c
  pub space :
      (argc v n w : ℕ) → parse argc b' ' v ≡ ok (n, w) → (n ≡ (argc + 255) % 2 ^ 8) × (w ≡ v)

pub Inverts-u128 : Inverts parse_u128
unfolding parse_u128 next_value
Inverts-u128 = record {
  char = λ argc c v n w other h. ground arith;
  space = λ argc v n w h. ground arith;
}

Inverts-checked : (max : ℕ) → Inverts (λ argc byte v. parse_u128 argc byte v >>= checked max)
Inverts-checked max = record {
  char = λ argc c v n w other h. ground (arith, Inverts-u128.char argc c v n w other);
  space = λ argc v n w h. ground (arith, Inverts-u128.space argc v n w);
}

-- The loop behind a byte of an argument.
proceed : Result (ℕ × Request) → List ℕ → Result (Decoder × List ℕ)
proceed (ok (n, q)) rest = run_loop (reading q n) rest
proceed (err e) rest = err e
proceed stuck rest = stuck

proceed_lem :
    (m : Result (ℕ × Request)) (rest : List ℕ)
    → ((m >>= λ p. ok (reading p.1 p.0)) >>= λ d. run_loop d rest) ≡ proceed m rest
unfolding proceed
proceed_lem (ok (n, q)) rest = refl
proceed_lem (err e) rest = refl
proceed_lem stuck rest = refl

nothing_read :
    (q : Request) (argc : ℕ) (r : Request)
    → 1 ≤ argc
    → (run_loop (reading q argc) [] >>= finish) ≢ ok r
unfolding run_loop finish
nothing_read q argc r h = ground arith

-- A space behind the last argument is the last byte.
last_read :
    (q : Request) (rest : List ℕ) (r : Request)
    → (run_loop (reading q 1) (b' ' ∷ rest) >>= finish) ≡ ok r
    → (rest ≡ []) × (q ≡ r)
unfolding run_loop run_byte run_argument finish
last_read q [] r h = (refl, cc (h))
last_read q (c ∷ rest) r h = cc (h)

-- A byte that does not end the arguments.
inside_read :
    (q : Request) (argc c : ℕ) (rest : List ℕ)
    → 1 ≤ argc
    → (argc == 1 && c == b' ') ≡ false
    → run_loop (reading q argc) (c ∷ rest) ≡ proceed (parse_argument q argc c) rest
unfolding run_loop run_byte run_argument
inside_read q argc c rest h inside =
    let some_left : (argc == 0) ≡ false = ground arith in
    rw (some_left, inside) (proceed_lem (parse_argument q argc c) rest)

-- The field of a request that is read while some arguments are left.
module _ (parse : ℕ → ℕ → ℕ → Result (ℕ × ℕ)) (argc : ℕ) (f : ℕ → Request) (inverts : Inverts parse)
    (some_left : (1 ≤ argc) × (argc ≤ 4))
    (slot : (v byte : ℕ) → parse_argument (f v) argc byte ≡ fill f (parse argc byte v)) where
  byte_read :
      (c v : ℕ) (rest : List ℕ) (r : Request) (m : Result (ℕ × ℕ))
      → parse argc c v ≡ m
      → c ≢ b' '
      → (proceed (fill f m) rest >>= finish) ≡ ok r
      → IsArgument c × ((run_loop (reading (f (next_value v c)) argc) rest >>= finish) ≡ ok r)
  unfolding proceed
  byte_read c v rest r (ok (n, w)) e other h =
      let (same_argc, same_value, is_argument) = inverts.char argc c v n w other e in
      (
        is_argument,
        ap (λ (n : ℕ). run_loop (reading (f (next_value v c)) n) rest >>= finish) (sym same_argc)
            ∙ ap (λ (w : ℕ). run_loop (reading (f w) n) rest >>= finish) (sym same_value)
            ∙ h,
      )
  byte_read c v rest r (err x) e other h = cc (h)
  byte_read c v rest r stuck e other h = cc (h)

  space_read :
      (v : ℕ) (rest : List ℕ) (r : Request) (m : Result (ℕ × ℕ))
      → parse argc b' ' v ≡ m
      → (proceed (fill f m) rest >>= finish) ≡ ok r
      → (run_loop (reading (f v) (argc - 1)) rest >>= finish) ≡ ok r
  unfolding proceed
  space_read v rest r (ok (n, w)) e h =
      let (same_argc, same_value) = inverts.space argc v n w e in
      let left : argc - 1 ≡ n = omega arith in
      ap (λ (n : ℕ). run_loop (reading (f v) n) rest >>= finish) left
      ∙ ap (λ (w : ℕ). run_loop (reading (f w) n) rest >>= finish) (sym same_value)
      ∙ h
  space_read v rest r (err x) e h = cc (h)
  space_read v rest r stuck e h = cc (h)

  -- What the bytes of an argument have been, and what is left behind its space.
  abbrev Argument : ℕ → List ℕ → Request → Type 0
  Argument v bytes r =
      (cs : List ℕ) × (rest : List ℕ) × (bytes ≡ cs ++ (b' ' ∷ rest))
      × All IsArgument cs
      × ((argc ≡ 1) × (rest ≡ []) × (f (value_from v cs) ≡ r)
          ⊎ (1 < argc)
            × ((run_loop (reading (f (value_from v cs)) (argc - 1)) rest >>= finish) ≡ ok r))

  run_loop-Argument :
      (bytes : List ℕ) (v : ℕ) (r : Request)
      → (run_loop (reading (f v) argc) bytes >>= finish) ≡ ok r
      → Argument v bytes r
  unfolding value_from next_value
  run_loop-Argument [] v r h = absurd (nothing_read (f v) argc r some_left.0 h)
  run_loop-Argument (c ∷ bytes) v r h = elim (Bool-cases (c == b' ')) [
    | inl space ↦
        let is_space : c ≡ b' ' = (==_iff c b' ').0 space in
        let h' : (run_loop (reading (f v) argc) (b' ' ∷ bytes) >>= finish) ≡ ok r =
          subst (λ (c : ℕ). (run_loop (reading (f v) argc) (c ∷ bytes) >>= finish) ≡ ok r) is_space
            h in
        elim (Bool-cases (argc == 1)) [
          | inl last ↦
              let one : argc ≡ 1 = (==_iff argc 1).0 last in
              let (ends, same) = last_read (f v) bytes r (
                subst (λ (n : ℕ). (run_loop (reading (f v) n) (b' ' ∷ bytes) >>= finish) ≡ ok r) one
                  h') in
              ([], bytes, ap (λ (c : ℕ). c ∷ bytes) is_space, tt, inl (one, ends, same))
          | inr more ↦
              let inside = inside_read (f v) argc b' ' bytes some_left.0 (rw more refl) in
              let steps =
                ap (λ m. m >>= finish) (inside ∙ ap (λ m. proceed m bytes) (slot v b' ')) in
              (
                [],
                bytes,
                ap (λ (c : ℕ). c ∷ bytes) is_space,
                tt,
                inr (ground arith, space_read v bytes r _ refl (sym steps ∙ h')),
              )
        ]
    | inr other ↦
        let no_space : c ≢ b' ' = λ e. ground arith in
        let inside = inside_read (f v) argc c bytes some_left.0 (ground arith) in
        let steps = ap (λ m. m >>= finish) (inside ∙ ap (λ m. proceed m bytes) (slot v c)) in
        let (is_argument, goes_on) = byte_read c v bytes r _ refl no_space (sym steps ∙ h) in
        let (cs, rest, split, all, behind) = run_loop-Argument bytes (next_value v c) r goes_on in
        (c ∷ cs, rest, ap (λ t. c ∷ t) split, (is_argument, all), behind)
  ]

-- An argument behind which there are others, and the last one.
module _ (parse : ℕ → ℕ → ℕ → Result (ℕ × ℕ)) (argc : ℕ) (f : ℕ → Request) (inverts : Inverts parse)
    (some_left : (1 ≤ argc) × (argc ≤ 4))
    (slot : (v byte : ℕ) → parse_argument (f v) argc byte ≡ fill f (parse argc byte v)) where
  pub more_read :
      (bytes : List ℕ) (r : Request)
      → 1 < argc
      → (run_loop (reading (f 0) argc) bytes >>= finish) ≡ ok r
      → (cs : List ℕ) × (rest : List ℕ) × (bytes ≡ cs ++ (b' ' ∷ rest))
        × All IsArgument cs
        × ((run_loop (reading (f (value cs)) (argc - 1)) rest >>= finish) ≡ ok r)
  unfolding value
  more_read bytes r more h =
      let (cs, rest, split, all, behind) =
        run_loop-Argument parse argc f inverts some_left slot bytes 0 r h in
      elim behind [
        | inl (one, ends, same) ↦ absurd (omega arith)
        | inr (several, goes_on) ↦ (cs, rest, split, all, goes_on)
      ]

  pub last_read_lem :
      (bytes : List ℕ) (r : Request)
      → argc ≡ 1
      → (run_loop (reading (f 0) argc) bytes >>= finish) ≡ ok r
      → (cs : List ℕ) × (bytes ≡ cs ++ (b' ' ∷ [])) × All IsArgument cs × (f (value cs) ≡ r)
  unfolding value
  last_read_lem bytes r one h =
      let (cs, rest, split, all, behind) =
        run_loop-Argument parse argc f inverts some_left slot bytes 0 r h in
      elim behind [
        | inl (one, ends, same) ↦ (cs, split ∙ ap (λ rest. cs ++ (b' ' ∷ rest)) ends, all, same)
        | inr (several, goes_on) ↦ absurd (omega arith)
      ]

pub Inverts-u64 : Inverts parse_u64
unfolding parse_u64
Inverts-u64 = Inverts-checked (2 ^ 64 - 1)

pub Inverts-u8 : Inverts parse_u8
unfolding parse_u8
Inverts-u8 = Inverts-checked (2 ^ 8 - 1)
