-- ===== src/App/Machine/Distance.antt =====
-- How far let_run of LetDB/src/let.c is from its end once it accepts no client any more.
use let_dx.Base.{ℕ, ◌≤◌, ◌≡◌, ◌≢◌, refl, Bool, true, false, arith}
use let_dx.App.Machine
use let_dx.App.Machine.{
  Location, awaiting, listening, accepted, serving, closing, finished, responding,
}

-- How many steps the program is away from its end, at most, for the value of `executing`.
unfoldable pub left : Location → Bool → ℕ
left finished executing = 0
left awaiting executing = 1
left closing executing = 2
left serving false = 3
left serving true = 4
left accepted executing = 5
left (responding close response) executing = 5
left listening executing = 6
left Machine.broken executing = 7

pub left-false : (at : Location) (executing : Bool) → left at false ≤ left at executing
unfolding left
left-false serving true = omega arith
left-false serving false = omega arith
left-false finished executing = omega arith
left-false awaiting executing = omega arith
left-false closing executing = omega arith
left-false accepted executing = omega arith
left-false (responding is_last response) executing = omega arith
left-false listening executing = omega arith
left-false Machine.broken executing = omega arith

pub left-serving : (executing : Bool) → left serving executing ≤ 4
unfolding left
left-serving true = omega arith
left-serving false = omega arith

pub at_end : (at : Location) (executing : Bool) → left at executing ≤ 0 → at ≡ finished
unfolding left
at_end finished executing h = refl
at_end serving true h = absurd (omega (arith, h))
at_end serving false h = absurd (omega (arith, h))
at_end awaiting executing h = absurd (omega (arith, h))
at_end closing executing h = absurd (omega (arith, h))
at_end accepted executing h = absurd (omega (arith, h))
at_end (responding is_last response) executing h = absurd (omega (arith, h))
at_end listening executing h = absurd (omega (arith, h))
at_end Machine.broken executing h = absurd (omega (arith, h))

pub begins_near : (at : Location) (executing : Bool) → at ≢ Machine.broken → left at executing ≤ 6
unfolding left
begins_near finished executing h = omega arith
begins_near serving true h = omega arith
begins_near serving false h = omega arith
begins_near awaiting executing h = omega arith
begins_near closing executing h = omega arith
begins_near accepted executing h = omega arith
begins_near (responding is_last response) executing h = omega arith
begins_near listening executing h = omega arith
begins_near Machine.broken executing h = absurd (h refl)
