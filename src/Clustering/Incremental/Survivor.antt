-- ===== src/Clustering/Incremental/Survivor.antt =====
-- `_select_surviving_cluster` of ml/clustering/incremental_clusterer.py.
use event_vision_pipeline.Base.{
  ◌<◌, ◌⊎◌, inr, ℕ, ◌≤◌, true, List, [], ◌∷◌, min, ◌≡◌, refl, subst, inl, inr, arith, leb, ◌==◌,
  ◌⊎◌, Bool-cases,
}
use event_vision_pipeline.Base.Effect.{ok}
use event_vision_pipeline.Clustering.Members.{max_size, tied, least, least_of, survivor}

-- A cluster and its size among the candidates.
abbrev pub Among : ℕ → ℕ → List (ℕ × ℕ) → Type 0
Among id size [] = ⊥
Among id size ((i, n) ∷ rest) = ((i ≡ id) × (n ≡ size)) ⊎ Among id size rest

-- The number is among the numbers.
abbrev OneOf : ℕ → List ℕ → Type 0
OneOf a [] = ⊥
OneOf a (b ∷ rest) = (b ≡ a) ⊎ OneOf a rest

max_size-Bound : (cs : List (ℕ × ℕ)) (id size : ℕ) → Among id size cs → size ≤ max_size cs
max_size-Bound [] id size a = absurd a
max_size-Bound ((i, n) ∷ rest) id size (inl (p, q)) = omega arith
max_size-Bound ((i, n) ∷ rest) id size (inr a) = omega (arith, max_size-Bound rest id size a)

tied-Among : (n : ℕ) (cs : List (ℕ × ℕ)) (id : ℕ) → OneOf id (tied n cs) → Among id n cs
tied-Among n [] id a = absurd a
tied-Among n ((i, s) ∷ rest) id a = elim (Bool-cases (s == n)) [
  | inl e ↦ elim (rw e at a) [
    | inl p ↦ inl (p, ground arith)
    | inr q ↦ inr (tied-Among n rest id q)
  ]
  | inr e ↦ inr (tied-Among n rest id (rw e at a))
]

Among-tied : (n : ℕ) (cs : List (ℕ × ℕ)) (id : ℕ) → Among id n cs → OneOf id (tied n cs)
Among-tied n [] id a = absurd a
Among-tied n ((i, s) ∷ rest) id (inl (p, q)) =
    let same : (s == n) ≡ true = ground arith in rw same (inl p)
Among-tied n ((i, s) ∷ rest) id (inr a) = elim (Bool-cases (s == n)) [
  | inl e ↦ rw e (inr (Among-tied n rest id a))
  | inr e ↦ rw e (Among-tied n rest id a)
]

least-Start : (a : ℕ) (ids : List ℕ) → least a ids ≤ a
least-Start a [] = omega arith
least-Start a (b ∷ rest) = omega (arith, least-Start (min a b) rest)

least-Bound : (a : ℕ) (ids : List ℕ) (id : ℕ) → OneOf id ids → least a ids ≤ id
least-Bound a [] id p = absurd p
least-Bound a (b ∷ rest) id (inl e) = omega (arith, least-Start (min a b) rest)
least-Bound a (b ∷ rest) id (inr p) = least-Bound (min a b) rest id p

least-OneOf : (a : ℕ) (ids : List ℕ) → OneOf (least a ids) (a ∷ ids)
least-OneOf a [] = inl refl
least-OneOf a (b ∷ rest) = elim (least-OneOf (min a b) rest) [
  | inr p ↦ inr (inr p)
  | inl e ↦ elim (Bool-cases (leb a b)) [
    | inl h ↦ inl (ground arith)
    | inr h ↦ inr (inl (ground arith))
  ]
]

least_of-Least :
    (ids : List ℕ) (s : ℕ) → least_of ids ≡ ok s → OneOf s ids × ((id : ℕ) → OneOf id ids → s ≤ id)
least_of-Least [] s e = cc
least_of-Least (a ∷ rest) s e =
    let same : least a rest ≡ s = cc in
    let facts : OneOf (least a rest) (a ∷ rest)
        × ((id : ℕ) → OneOf id (a ∷ rest) → least a rest ≤ id) =
      (
        least-OneOf a rest,
        λ id p. elim p [
          | inl q ↦ omega (arith, least-Start a rest)
          | inr q ↦ least-Bound a rest id q
        ],
      ) in
    subst (λ x. OneOf x (a ∷ rest) × ((id : ℕ) → OneOf id (a ∷ rest) → x ≤ id)) same facts

-- The survivor of a merge is one of the candidates, and each candidate is smaller, or it is of the same
-- size and its identifier is not smaller.
pub survivor_largest :
    (candidates : List (ℕ × ℕ)) (surviving id n : ℕ)
    → survivor candidates ≡ ok surviving
    → Among id n candidates
    → (size : ℕ) × Among surviving size candidates × ((n < size) ⊎ ((n ≡ size) × (surviving ≤ id)))
survivor_largest candidates surviving id n e a =
    let top = max_size candidates in
    let (one, low) = least_of-Least (tied top candidates) surviving e in
    let bound = max_size-Bound candidates id n a in
    (
      top,
      tied-Among top candidates surviving one,
      elim (Bool-cases (n == top)) [
        | inl h ↦
            let same : n ≡ top = ground arith in
            inr (
              same,
              low id (Among-tied top candidates id (subst (λ x. Among id x candidates) same a)),
            )
        | inr h ↦ inl (ground arith)
      ],
    )
