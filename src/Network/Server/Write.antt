-- ===== src/Network/Server/Write.antt =====
-- What `let_network_client_write` sends.
use Prim.Native.Nat.{min}
use let_dx.Base.{
  ℕ, zero, suc, ◌+◌, ◌≤◌, ◌<◌, ◌≡◌, ◌≢◌, ◌⊎◌, inl, inr, refl, sym, ap, ◌∙◌, List, [], ◌∷◌, ◌++◌,
  length, length-drop, length-take, take, drop, take_all, arith, subst,
}
use let_dx.Error.{
  Error, network, client_closed, server_write_timeout, server_closed, server_write_failed,
}
use let_dx.Error.Report.{reject, error_report}
use let_dx.Result.{Result, ok, err}
use let_dx.Network.Response.{Response}
use let_dx.Network.Response.Encoder.Reply.{response_text, response_encode_text}
use let_dx.Network.Server.{
  Sending, sent, timed_out, interrupted, broken, write_loop, write_response, client_write,
}

-- What sending a response can come to, where `text` is all of it.
pub data Sent (text : List ℕ) (r : Result (Unit {0}) × List ℕ) : Type 0 where
  whole : r ≡ (ok tt, text) → Sent text r
  stopped :
      (n : ℕ) (x : Error)
      → (error_report x).action ≢ reject
      → r ≡ (err x, take n text)
      → Sent text r

-- The bytes taken so far and those of the next call are first bytes of the text again.
take-more :
    (n k : ℕ) (text : List ℕ)
    → n ≤ length text
    → take n text ++ take k (drop n text) ≡ take (n + k) text
take-more zero k text h = ap (λ (m : ℕ). take m text) (omega arith)
take-more (suc n) k [] h = absurd (omega arith)
take-more (suc n) k (x ∷ text) h =
    let next : suc n + k ≡ suc (n + k) = omega arith in
    ap (λ t. x ∷ t) (take-more n k text (omega arith))
    ∙ sym (ap (λ (m : ℕ). take m (x ∷ text)) next)

-- No more bytes are taken than there are.
take-min : (k : ℕ) (text : List ℕ) → take k text ≡ take (min k (length text)) text
take-min zero text =
    let none : min 0 (length text) ≡ 0 = omega arith in sym (ap (λ (m : ℕ). take m text) none)
take-min (suc k) [] =
    let none : min (suc k) 0 ≡ 0 = omega arith in sym (ap (λ (m : ℕ). take {A = ℕ} m []) none)
take-min (suc k) (x ∷ text) =
    let next : min (suc k) (suc (length text)) ≡ suc (min k (length text)) = omega arith in
    ap (λ t. x ∷ t) (take-min k text) ∙ sym (ap (λ (m : ℕ). take m (x ∷ text)) next)

-- The loop from the first `n` bytes, for a fuel that is enough for the rest.
abbrev Sends : ℕ → (ℕ → Sending) → List ℕ → Type 0
Sends fuel send text =
    (n : ℕ)
    → n ≤ length text
    → length text < fuel + n
    → Sent text (write_loop fuel send text (take n text))

-- One round with bytes left, by the answer of the call.
write_round :
    (fuel n : ℕ) (send : ℕ → Sending) (text : List ℕ) (next : ℕ) (more : List ℕ) (answer : Sending)
    → Sends fuel send text
    → n ≤ length text
    → length text < suc fuel + n
    → length (take n text) ≡ n
    → drop (length (take n text)) text ≡ next ∷ more
    → send (length (take n text)) ≡ answer
    → Sent text (write_loop (suc fuel) send text (take n text))
unfolding write_loop error_report
write_round fuel n send text next more (sent zero) ih h enough counted left said =
    rw (write_loop, left, said) (stopped n (network client_closed) (λ e. cc) refl)
write_round fuel n send text next more (sent (suc k)) ih h enough counted left said =
    let m = min (n + suc k) (length text) in
    let longer : take n text ++ take (suc k) (next ∷ more) ≡ take m text =
      ap (λ t. take n text ++ take (suc k) t) (sym left ∙ ap (λ (m : ℕ). drop m text) counted)
      ∙ take-more n (suc k) text h
      ∙ take-min (n + suc k) text in
    let some_left : n < length text =
      omega (arith, length-drop (length (take n text)) text, ap length left) in
    rw (write_loop, left, said)
      (subst (λ t. Sent text (write_loop fuel send text t)) (sym longer)
        (ih m (omega arith) (omega arith)))
write_round fuel n send text next more timed_out ih h enough counted left said =
    rw (write_loop, left, said) (stopped n (network server_write_timeout) (λ e. cc) refl)
write_round fuel n send text next more interrupted ih h enough counted left said =
    rw (write_loop, left, said) (stopped n (network server_closed) (λ e. cc) refl)
write_round fuel n send text next more broken ih h enough counted left said =
    rw (write_loop, left, said) (stopped n (network server_write_failed) (λ e. cc) refl)

List-cases : (xs : List ℕ) → (xs ≡ []) ⊎ ((y : ℕ) × (ys : List ℕ) × (xs ≡ y ∷ ys))
List-cases [] = inl refl
List-cases (y ∷ ys) = inr (y, ys, refl)

write_loop-Sent : (fuel : ℕ) (send : ℕ → Sending) (text : List ℕ) → Sends fuel send text
unfolding write_loop
write_loop-Sent zero send text n h enough = absurd (omega arith)
write_loop-Sent (suc fuel) send text n h enough =
    let counted : length (take n text) ≡ n = omega (arith, length-take n text) in
    elim (List-cases (drop (length (take n text)) text)) [
      | inl left ↦
          rw (write_loop, left)
            (whole (
              ap (λ t. (ok tt, t))
                (take_all n text
                  (omega (arith, length-drop (length (take n text)) text, ap length left)))))
      | inr (next, more, left) ↦
          write_round fuel n send text next more (send (length (take n text)))
            (write_loop-Sent fuel send text) h enough counted left refl
    ]

-- Whatever the socket answers, writing a response comes to an end: all the bytes of the response
-- are sent, or an error that is not reported to the client stops it behind some first bytes.
pub client_write_outcome :
    (send : ℕ → Sending) (r : Response) → Sent (response_text r) (client_write send r)
unfolding client_write write_response
client_write_outcome send r = rw (response_encode_text 128 r (omega arith)).0 (
    write_loop-Sent (suc (length (response_text r))) send (response_text r) 0 (omega arith)
      (omega arith))

-- A socket that takes some bytes whenever it is given some.
abbrev pub IsWilling : (ℕ → Sending) → Type 0
IsWilling send = (n : ℕ) → (k : ℕ) × (send n ≡ sent (suc k))

-- A round of the loop does not fail there.
willing_round :
    (fuel : ℕ) (send : ℕ → Sending) (response taken remaining : List ℕ) (x : Error) (t : List ℕ)
    → ((more : List ℕ) → write_loop fuel send response more ≢ (err x, t))
    → IsWilling send
    → drop (length taken) response ≡ remaining
    → write_loop (suc fuel) send response taken ≢ (err x, t)
unfolding write_loop
willing_round fuel send response taken [] x t later willing same h =
    let ends : write_loop (suc fuel) send response taken ≡ (ok tt, taken) =
      rw (write_loop, same) refl in
    cc (ends, h)
willing_round fuel send response taken (next ∷ more) x t later willing same h =
    let (k, answer) = willing (length taken) in
    let goes_on : write_loop (suc fuel) send response taken
        ≡ write_loop fuel send response (taken ++ take (suc k) (next ∷ more)) =
      rw (write_loop, same, answer) refl in
    later (taken ++ take (suc k) (next ∷ more)) (sym goes_on ∙ h)

write_loop-willing :
    (fuel : ℕ) (send : ℕ → Sending) (response taken : List ℕ) (x : Error) (t : List ℕ)
    → IsWilling send
    → write_loop fuel send response taken ≢ (err x, t)
unfolding write_loop
write_loop-willing zero send response taken x t willing h = cc h
write_loop-willing (suc fuel) send response taken x t willing h =
    willing_round fuel send response taken (drop (length taken) response) x t
      (λ more. write_loop-willing fuel send response more x t willing) willing refl h

-- Such a socket takes the whole response.
pub client_write-willing :
    (send : ℕ → Sending) (r : Response)
    → IsWilling send
    → client_write send r ≡ (ok tt, response_text r)
unfolding client_write write_response
client_write-willing send r willing = elim (client_write_outcome send r) [
  | whole same ↦ same
  | stopped n x act same ↦
      let encoded = (response_encode_text 128 r (omega arith)).0 in
      absurd (
        write_loop-willing (suc (length (response_text r))) send (response_text r) [] x _ willing
          (sym (ap (write_response send) encoded) ∙ same))
]
