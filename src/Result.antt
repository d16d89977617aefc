-- ===== src/Result.antt =====
-- What a function that returns `let_error_t` answers: `ok` is `let_error_none()` with the values of
-- the output parameters. `stuck` is no answer of the program: it stands for an access outside an
-- array, or for a loop whose fuel ran out.
use let_dx.Base.{Option, none, some, ◌≡◌, refl, ◌⊎◌, inl, inr}
use let_dx.Error.{Error}

pub data Result {ℓ} (A : Type ℓ) : Type ℓ where
  stuck : Result A
  err : Error → Result A
  ok : A → Result A

-- The code that follows a call whose error is returned at once.
infixl 5 ◌>>=◌
abbrev pub ◌>>=◌ {ℓ κ} : {A : Type ℓ} {B : Type κ} → Result A → (A → Result B) → Result B
stuck >>= next = stuck
err x >>= next = err x
ok value >>= next = next value

-- The same behind a call without output parameters.
infixl 5 ◌>>◌
abbrev pub ◌>>◌ {κ} : {B : Type κ} → Result (Unit {0}) → Result B → Result B
call >> after = call >>= λ done. after

-- A read through an index: nothing there is an access outside the array.
abbrev pub in_bounds {ℓ} : {A : Type ℓ} → Option A → Result A
in_bounds none = stuck
in_bounds (some a) = ok a

-- A successful chain went through its first part.
pub >>=-eq-ok {ℓ κ} :
    {A : Type ℓ} {B : Type κ} (call : Result A) (next : A → Result B) {b : B}
    → (call >>= next) ≡ ok b
    → (value : A) × (call ≡ ok value) × (next value ≡ ok b)
>>=-eq-ok stuck next through = cc
>>=-eq-ok (err x) next through = cc
>>=-eq-ok (ok value) next through = (value, refl, through)

-- A chain whose first two parts fail together fails with their error.
pub >>=-eq-err {ℓ κ μ} :
    {A : Type ℓ} {B : Type κ} {C : Type μ} (m : Result A) (f : A → Result B) (g : A → B → Result C)
    {e : Error}
    → (m >>= f) ≡ err e
    → (m >>= λ a. f a >>= g a) ≡ err e
>>=-eq-err (ok a) f g {e} h = rw h refl
>>=-eq-err (err x) f g {e} h = cc
>>=-eq-err stuck f g {e} h = cc

pub Result-cases {ℓ} :
    {A : Type ℓ} (m : Result A)
    → (((a : A) × (m ≡ ok a)) ⊎ ((e : Error) × (m ≡ err e))) ⊎ (m ≡ stuck)
Result-cases (ok a) = inl (inl (a, refl))
Result-cases (err e) = inl (inr (e, refl))
Result-cases stuck = inr refl
