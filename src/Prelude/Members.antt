-- ===== src/Prelude/Members.antt =====
-- Members of a list of numbers, and how often they stand in it.
use Prim.Native.Nat.{ℕ, zero, suc, ◌+◌, ◌≤◌}
use mathlib.Core.Path.{◌≡◌, refl, ap}
use mathlib.Core.Logic.{◌⊎◌}
use mathlib.Core.List.{List, [], ◌∷◌, ◌++◌}
use native.Mathlib.Omega.{arith}
use mathlib.Core.Option.{some}
use fuxi_n.Prelude.Tests.{◌==◌, if◌then◌else◌, ==_refl}
use fuxi_n.Prelude.Lists.{get_elem?}

-- The id is on the list.
abbrev pub IsOn : ℕ → List ℕ → Type 0
IsOn i [] = ⊥
IsOn i (x ∷ xs) = (i ≡ x) ⊎ IsOn i xs

-- No id is on the list twice.
abbrev pub IsDistinct : List ℕ → Type 0
IsDistinct [] = Unit
IsDistinct (x ∷ xs) = (IsOn x xs → ⊥) × IsDistinct xs

abbrev pub tally : ℕ → ℕ → ℕ
tally i x = if x == i then 1 else 0

pub tally_self : (i : ℕ) → tally i i ≡ 1
tally_self i = rw (==_refl i)

-- How often a number stands in a list
abbrev pub count : ℕ → List ℕ → ℕ
count i [] = 0
count i (x ∷ xs) = tally i x + count i xs

pub count-append : (i : ℕ) (xs ys : List ℕ) → count i (xs ++ ys) ≡ count i xs + count i ys
count-append i [] ys = omega arith
count-append i (x ∷ xs) ys = omega (arith, count-append i xs ys)

pub count-get_elem? : (i : ℕ) (xs : List ℕ) (j : ℕ) → get_elem? xs j ≡ some i → 1 ≤ count i xs
count-get_elem? i [] j h = absurd (cc h)
count-get_elem? i (x ∷ xs) zero h = ground arith
count-get_elem? i (x ∷ xs) (suc j) h = omega (arith, count-get_elem? i xs j h)

-- A number that two places hold is counted twice.
pub count_places :
    (x : ℕ) (xs : List ℕ) (i j : ℕ)
    → count x xs ≤ 1
    → get_elem? xs i ≡ some x
    → get_elem? xs j ≡ some x
    → i ≡ j
count_places x [] i j once hi hj = absurd (cc hi)
count_places x (y ∷ ys) zero zero once hi hj = refl
count_places x (y ∷ ys) zero (suc j) once hi hj =
    let later : 1 ≤ count x ys = count-get_elem? x ys j hj in absurd (ground arith)
count_places x (y ∷ ys) (suc i) zero once hi hj =
    let later : 1 ≤ count x ys = count-get_elem? x ys i hi in absurd (ground arith)
count_places x (y ∷ ys) (suc i) (suc j) once hi hj =
    ap suc (count_places x ys i j (omega (arith, once)) hi hj)

-- Two lists of which the second goes on from the first
abbrev pub Prefix {ℓ} : {A : Type ℓ} → List A → List A → Type ℓ
Prefix {A} xs ys = (zs : List A) × (ys ≡ xs ++ zs)
