-- ===== src/Gateway/Client/Trials.antt =====
-- The loop of Communicate in LetDD/tcp/client.go ends, whatever the calls behind it answer.
use let_dx.Base.{
  ℕ, zero, suc, ◌+◌, ◌%◌, ◌^◌, ◌<◌, ◌≤◌, ◌≡◌, ◌⊎◌, inl, inr, refl, sym, ap, ◌∙◌, true, false,
  Option, none, some, arith, Bool-cases, ==_iff, leb, ◌==◌,
}
use let_dx.Gateway.Supervisor.{Supervisor, TryDevice, supervisor_try}
use let_dx.Gateway.Request.{TcpRequest}
use let_dx.Gateway.Response.{TcpResponse}
use let_dx.Gateway.Client.{Client, Wire, Outcome, attempt, on_attempt, on_try, on_trial, try_loop}

-- The fuel is enough for the tries that are left, and for the call of Try that ends the loop.
record Enough (fuel : ℕ) (v : Supervisor) : Type 0 where
  limit : v.cancel_after < 2 ^ 64
  within : (v.current_try ≤ v.cancel_after) ⊎ (v.current_try ≤ 1)
  left : v.cancel_after + 2 ≤ fuel + v.current_try

-- What Try answers: the loop goes on with one try less, or it ends.
Try-cases :
    (dev : TryDevice) (fuel : ℕ) (v : Supervisor)
    → Enough (suc fuel) v
    → ((v' : Supervisor) × (supervisor_try dev v ≡ (true, v')) × Enough fuel v')
      ⊎ (supervisor_try dev v ≡ (false, v))
unfolding supervisor_try
Try-cases dev fuel v h =
    let v' = record v { current_try = (v.current_try + 1) % 2 ^ 64 } in
    elim (Bool-cases dev.done) [
      | inl done ↦ inr (rw done refl)
      | inr going ↦ elim (Bool-cases (v.current_try == 0)) [
        | inl first ↦
            let none_yet : v.current_try ≡ 0 = (==_iff v.current_try 0).0 first in
            inl (
              v',
              rw (going, first) refl,
              record { limit = h.limit; within = inr (omega arith); left = omega (arith, h.left) },
            )
        | inr later ↦ elim (Bool-cases (leb v.cancel_after v.current_try)) [
          | inl over ↦ inr (rw (going, later, over) refl)
          | inr under ↦ elim (Bool-cases dev.fires) [
            | inl fires ↦
                let some_left : v.current_try < v.cancel_after = ground arith in
                inl (
                  v',
                  rw (going, later, under, fires) refl,
                  record {
                    limit = h.limit;
                    within = inl (omega (arith, h.limit));
                    left = omega (arith, h.left, h.limit);
                  },
                )
            | inr waits ↦ inr (rw (going, later, under, waits) refl)
          ]
        ]
      ]
    ]

overdue : (v : Supervisor) → ¬ Enough 0 v
overdue v h = elim h.within [ inl few ↦ omega (arith, h.left) | inr one ↦ omega (arith, h.left) ]

module _ {S : Type 0} (wire : Wire S) (request : TcpRequest) where
  -- Where two ways to go on agree for a supervisor, so do the attempts before them.
  attempts_agree :
      (f g : Supervisor → Client → S → Outcome × Client × S) (v : Supervisor)
      (r : Option TcpResponse × Client × S)
      → ((c : Client) (s : S) → f v c s ≡ g v c s)
      → on_attempt wire f v r ≡ on_attempt wire g v r
  unfolding on_attempt
  attempts_agree f g v (some response, c, s) h = refl
  attempts_agree f g v (none, c, s) h = h c s

  trials_agree :
      (f g : Supervisor → Client → S → Outcome × Client × S) (last : Outcome) (fuel : ℕ)
      (v : Supervisor) (c : Client) (dev : TryDevice) (s : S)
      → Enough (suc fuel) v
      → ((v' : Supervisor) (c : Client) (s : S) → Enough fuel v' → f v' c s ≡ g v' c s)
      → on_trial wire f request last v c (dev, s) ≡ on_trial wire g request last v c (dev, s)
  unfolding on_trial on_try
  trials_agree f g last fuel v c dev s h same = elim (Try-cases dev fuel v h) [
    | inl (v', goes_on, enough) ↦
        ap (on_try wire f request last c s) goes_on
        ∙ attempts_agree f g v' (attempt wire request c s) (λ c s. same v' c s enough)
        ∙ ap (on_try wire g request last c s) (sym goes_on)
    | inr ends ↦
        ap (on_try wire f request last c s) ends ∙ ap (on_try wire g request last c s) (sym ends)
  ]

  loop_more :
      (fuel more : ℕ) (last : Outcome) (v : Supervisor) (c : Client) (s : S)
      → Enough fuel v
      → try_loop wire (fuel + more) request last v c s ≡ try_loop wire fuel request last v c s
  unfolding try_loop
  loop_more zero more last v c s h = absurd (overdue v h)
  loop_more (suc fuel) more last v c s h =
      let next : suc fuel + more ≡ suc (fuel + more) = omega arith in
      let trial = wire.trial s in
      ap (λ (f : ℕ). try_loop wire f request last v c s) next
      ∙ trials_agree (try_loop wire (fuel + more) request Outcome.failed)
          (try_loop wire fuel request Outcome.failed) last fuel v c trial.0 trial.1 h
          (λ v' c s enough. loop_more fuel more Outcome.failed v' c s enough)

  -- The fuel of the loop of Communicate is enough, whatever the calls behind the client
  -- and the context answer: with more of it, the loop comes to the same outcome, with the same client. It begins
  -- with a supervisor that is reset, whose limit is a number of 64 bits.
  pub try_loop-ends :
      (more : ℕ) (last : Outcome) (v : Supervisor) (c : Client) (s : S)
      → v.cancel_after < 2 ^ 64
      → v.current_try ≡ 0
      → try_loop wire (v.cancel_after + 2 + more) request last v c s
        ≡ try_loop wire (v.cancel_after + 2) request last v c s
  try_loop-ends more last v c s limit reset =
      loop_more (v.cancel_after + 2) more last v c s
        (record { limit = limit; within = inr (omega arith); left = omega arith })
