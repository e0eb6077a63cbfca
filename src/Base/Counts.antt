-- ===== src/Base/Counts.antt =====
-- How often a number occurs in a list, and Python's set and sorted on lists of numbers.
use Prim.Native.Nat.{ℕ, suc, ◌+◌, ◌≤◌}
use mathlib.Core.Path.{◌≡◌, refl}
use mathlib.Core.Logic.{inl, inr}
use mathlib.Core.List.{List, [], ◌∷◌, ◌++◌}
use native.Mathlib.Omega.{arith}
use event_vision_pipeline.Base.Tests.{◌==◌, leb, if◌then◌else◌, Bool-cases}

abbrev pub occurrences : ℕ → List ℕ → ℕ
occurrences a [] = 0
occurrences a (x ∷ xs) = let n = occurrences a xs in if a == x then suc n else n

-- set.add, on a list without repetition
abbrev pub add : ℕ → List ℕ → List ℕ
add x xs = if leb 1 (occurrences x xs) then xs else x ∷ xs

-- set.update
abbrev pub update : List ℕ → List ℕ → List ℕ
update [] s = s
update (x ∷ xs) s = update xs (add x s)

-- list(set(xs))
abbrev pub distinct : List ℕ → List ℕ
distinct [] = []
distinct (x ∷ xs) = add x (distinct xs)

abbrev pub insert : ℕ → List ℕ → List ℕ
insert x [] = x ∷ []
insert x (y ∷ ys) = let rest = insert x ys in if leb x y then x ∷ y ∷ ys else y ∷ rest

abbrev pub sorted : List ℕ → List ℕ
sorted [] = []
sorted (x ∷ xs) = insert x (sorted xs)

pub occurrences-append :
    (a : ℕ) (xs ys : List ℕ) → occurrences a (xs ++ ys) ≡ occurrences a xs + occurrences a ys
occurrences-append a [] ys = omega arith
occurrences-append a (x ∷ xs) ys = ground (arith, occurrences-append a xs ys)

occurrences-insert : (a x : ℕ) (xs : List ℕ) → occurrences a (insert x xs) ≡ occurrences a (x ∷ xs)
occurrences-insert a x [] = refl
occurrences-insert a x (y ∷ ys) = ground (arith, occurrences-insert a x ys)

pub occurrences-sorted : (a : ℕ) (xs : List ℕ) → occurrences a (sorted xs) ≡ occurrences a xs
occurrences-sorted a [] = refl
occurrences-sorted a (x ∷ xs) =
    ground (arith, occurrences-insert a x (sorted xs), occurrences-sorted a xs)

-- What a set holds after an update with new elements that are not repeated.
pub occurrences-update :
    (a : ℕ) (xs s : List ℕ)
    → occurrences a xs + occurrences a s ≤ 1
    → occurrences a (update xs s) ≡ occurrences a xs + occurrences a s
occurrences-update a [] s h = omega arith
occurrences-update a (x ∷ xs) s h = elim (Bool-cases (a == x)) [
  | inl e ↦ ground (arith, occurrences-update a xs (add x s))
  | inr e ↦ ground (arith, occurrences-update a xs (add x s))
]

pub occurrences-distinct :
    (a : ℕ) (xs : List ℕ)
    → occurrences a (distinct xs) ≡ (if leb 1 (occurrences a xs) then 1 else 0)
occurrences-distinct a [] = refl
occurrences-distinct a (x ∷ xs) =
    ground (arith, occurrences-distinct a xs, occurrences-distinct x xs)
