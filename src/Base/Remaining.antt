-- ===== src/Base/Remaining.antt =====
-- A measure for loops that take up each identifier once: how many are left.
use Prim.Native.Nat.{ℕ, suc, ◌≤◌, ◌<◌}
use mathlib.Core.Path.{◌≡◌}
use mathlib.Core.Logic.{inl, inr}
use mathlib.Core.List.{List, [], ◌∷◌, ◌++◌}
use native.Mathlib.Omega.{arith}
use event_vision_pipeline.Base.Tests.{leb, ◌==◌, if◌then◌else◌, Bool-cases}
use event_vision_pipeline.Base.Lists.{length}
use event_vision_pipeline.Base.Counts.{occurrences, occurrences-append}

-- How many of the ids are not among those attempted.
abbrev pub left : List ℕ → List ℕ → ℕ
left attempted [] = 0
left attempted (i ∷ rest) =
    let n = left attempted rest in if leb 1 (occurrences i attempted) then n else suc n

pub left-le : (a ks ids : List ℕ) → left (a ++ ks) ids ≤ left a ids
left-le a ks [] = omega arith
left-le a ks (i ∷ rest) = ground (arith, left-le a ks rest, occurrences-append i a ks)

-- Fewer are left where one of the ids is attempted for the first time.
pub left-lt :
    (k : ℕ) (a ks ids : List ℕ)
    → 0 < occurrences k ids
    → 0 < occurrences k ks
    → occurrences k a ≡ 0
    → left (a ++ ks) ids < left a ids
left-lt k a ks [] h i n = absurd (omega arith)
left-lt k a ks (j ∷ rest) h i n = elim (Bool-cases (k == j)) [
  | inl e ↦ ground (arith, left-le a ks rest, occurrences-append j a ks)
  | inr e ↦ ground (arith, left-lt k a ks rest, occurrences-append j a ks)
]

pub left_none : (ids : List ℕ) → left [] ids ≡ length ids
left_none [] = omega arith
left_none (i ∷ rest) = omega (arith, left_none rest)
