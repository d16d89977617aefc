-- ===== src/Gateway/Supervisor.antt =====
-- LetDD/supervisor/supervisor.go: how often an operation is tried, and how long the pauses are. A
-- time.Duration is the 64-bit pattern of a signed number.
use let_dx.Base.{
  ℕ, ◌+◌, ◌-◌, ◌*◌, ◌%◌, ◌^◌, ◌≤◌, ◌<◌, Bool, true, false, arith, leb, ltb, ◌==◌, if◌then◌else◌,
}

-- Supervisor, the delays as their patterns
pub record Supervisor : Type 0 where
  pub cancel_after : ℕ
  pub current_try : ℕ
  pub maximum_delay : ℕ
  pub minimum_delay : ℕ

-- NewSupervisor
abbrev pub new_supervisor : ℕ → ℕ → ℕ → Supervisor
new_supervisor cancel_after maximum_delay minimum_delay = record {
  cancel_after = cancel_after;
  current_try = 0;
  maximum_delay = maximum_delay;
  minimum_delay = minimum_delay;
}

-- the order of signed numbers, on their patterns
abbrev pub sign_moved : ℕ → ℕ
sign_moved x = (x + 2 ^ 63) % 2 ^ 64

unfoldable pub signed_min : ℕ → ℕ → ℕ
signed_min x y = if ltb (sign_moved y) (sign_moved x) then y else x

unfoldable pub signed_max : ℕ → ℕ → ℕ
signed_max x y = if ltb (sign_moved x) (sign_moved y) then y else x

-- CalculateBackoff; the shift and the product wrap
unfoldable pub calculate_backoff : Supervisor → ℕ
unfolding signed_min signed_max
calculate_backoff s =
    let shift = (s.current_try + (2 ^ 64 - 1)) % 2 ^ 64 in
    let factor = if ltb shift 64 then 2 ^ shift else 0 in
    let backoff = factor * s.minimum_delay % 2 ^ 64 in
    signed_min (signed_max backoff s.minimum_delay) s.maximum_delay

-- What ctx and the timer answer to one call of Try.
pub record TryDevice : Type 0 where
  pub done : Bool
  pub fires : Bool

-- Try
unfoldable pub supervisor_try : TryDevice → Supervisor → Bool × Supervisor
supervisor_try dev s =
    if dev.done
    then (false, s)
    else if s.current_try == 0
    then (true, record s { current_try = (s.current_try + 1) % 2 ^ 64 })
    else if leb s.cancel_after s.current_try
    then (false, s)
    else if dev.fires
    then (true, record s { current_try = (s.current_try + 1) % 2 ^ 64 })
    else (false, s)

-- Reset
abbrev pub supervisor_reset : Supervisor → Supervisor
supervisor_reset s = record s { current_try = 0 }

-- A pause is never shorter than the shortest delay, nor longer than the longest, whatever the number of
-- the try, even where the product has wrapped; both delays are not negative, in order.
pub calculate_backoff-bounds :
    (s : Supervisor)
    → s.maximum_delay < 2 ^ 63
    → s.minimum_delay ≤ s.maximum_delay
    → (s.minimum_delay ≤ calculate_backoff s) × (calculate_backoff s ≤ s.maximum_delay)
unfolding calculate_backoff
calculate_backoff-bounds s h k =
    let shift = (s.current_try + (2 ^ 64 - 1)) % 2 ^ 64 in
    bounds ((if ltb shift 64 then 2 ^ shift else 0) * s.minimum_delay % 2 ^ 64) s.minimum_delay
      s.maximum_delay (omega arith) h k
  where
    bounds :
        (b mn mx : ℕ)
        → b < 2 ^ 64
        → mx < 2 ^ 63
        → mn ≤ mx
        → (mn ≤ signed_min (signed_max b mn) mx) × (signed_min (signed_max b mn) mx ≤ mx)
    bounds b mn mx f h k = ground arith
