-- ===== src/Base/Tables.antt =====
-- A test that every number of a small range passes, by evaluation.
use let_dx.Base.{
  ℕ, zero, suc, ◌<◌, ◌≡◌, subst, sym, Bool, true, false, arith, ◌==◌, ==_iff, Bool-cases, inl, inr,
  if◌then◌else◌,
}

unfoldable pub passes_below : (ℕ → Bool) → ℕ → Bool
passes_below test zero = true
passes_below test (suc top) = if test top then passes_below test top else false

pub passes_at :
    (test : ℕ → Bool) (top y : ℕ) → passes_below test top ≡ true → y < top → test y ≡ true
unfolding passes_below
passes_at test zero y table below = absurd (omega arith)
passes_at test (suc top) y table below = elim (Bool-cases (test top)) [
  | inr fails ↦ ground arith
  | inl passes ↦ elim (Bool-cases (y == top)) [
    | inl last ↦ subst (λ (k : ℕ). test k ≡ true) (sym ((==_iff y top).0 last)) passes
    | inr earlier ↦ passes_at test top y (ground arith) (ground arith)
  ]
]

-- Two functions that agree below the bound.
pub eq_below :
    (f g : ℕ → ℕ) (top y : ℕ) → passes_below (λ k. f k == g k) top ≡ true → y < top → f y ≡ g y
eq_below f g top y table below =
    (==_iff (f y) (g y)).0 (passes_at (λ k. f k == g k) top y table below)
