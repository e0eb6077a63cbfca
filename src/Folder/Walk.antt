-- ===== src/Folder/Walk.antt =====
-- The walk over parents of `_ensure_not_descendant` (services/folder_service.py): it ends, and what it
-- answers.
use event_vision_pipeline.Base.{
  ℕ, zero, suc, ◌<◌, false, none, some, List, [], ◌∷◌, ◌++◌, ◌≡◌, ◌⊎◌, refl, subst, sym, inl, inr,
  arith, ◌==◌, length, occurrences, occurrences-append, leb, Bool-cases, Option-cases,
}
use event_vision_pipeline.Base.Remaining.{left, left-lt, left_none}
use event_vision_pipeline.Base.Effect.{Result, ok, err}
use event_vision_pipeline.Folder.{Folder, FolderError, conflict, Table, find, ensure_not_descendant}
use event_vision_pipeline.Folder.Tree.{Rooted, missing, root, under, IsForest}

-- The second folder is the parent of the first, or of one above it.
pub data Climbs (t : Table) : ℕ → ℕ → Type 0 where
  parent : {i p : ℕ} (f : Folder) → find i t ≡ some f → f.parent_id ≡ some p → Climbs t i p
  above :
      {i p q : ℕ} (f : Folder)
      → Climbs t i p
      → find p t ≡ some f
      → f.parent_id ≡ some q
      → Climbs t i q

abbrev pub HasNoCycle : Table → Type 0
HasNoCycle t = (i : ℕ) → ¬ Climbs t i i

-- The folder lies on the way up from another one, through folders of the event.
pub data OnWay (t : Table) (event_id folder_id : ℕ) : ℕ → Type 0 where
  here : {id : ℕ} → id ≡ folder_id → OnWay t event_id folder_id id
  up :
      {id p : ℕ} (f : Folder)
      → find id t ≡ some f
      → f.event_id ≡ event_id
      → f.parent_id ≡ some p
      → OnWay t event_id folder_id p
      → OnWay t event_id folder_id id

first_step :
    (t : Table) (i j : ℕ)
    → Climbs t i j
    → (f : Folder) × (p : ℕ) × (find i t ≡ some f)
      × (f.parent_id ≡ some p)
      × ((p ≡ j) ⊎ Climbs t p j)
first_step t i j (parent f e q) = (f, j, e, q, inl refl)
first_step t i j (above {p = k} g c e q) =
    let (f, p, e', q', more) = first_step t i k c in
    elim more [
      | inl s ↦
          let last : find p t ≡ some g = subst (λ (x : ℕ). find x t ≡ some g) (sym s) e in
          (f, p, e', q', inr (parent g last q))
      | inr c' ↦ (f, p, e', q', inr (above g c' e q))
    ]

-- Where the way up from a folder ends, the folder does not lie above itself.
Rooted-acyclic : (t : Table) (i : ℕ) → Rooted t i → ¬ Climbs t i i
Rooted-acyclic t i (missing e) c = let (f, p, e', q, more) = first_step t i i c in cc
Rooted-acyclic t i (root g e n) c = let (f, p, e', q, more) = first_step t i i c in cc
Rooted-acyclic t i (under g p' e n r) c =
    let (f, p, e', q, more) = first_step t i i c in
    let same : p ≡ p' = cc in
    let turned : Climbs t p p = elim more [
      | inl s ↦ subst (λ (x : ℕ). Climbs t x x) (sym s) c
      | inr c' ↦ above f c' e' q
    ] in
    Rooted-acyclic t p' r (subst (λ (x : ℕ). Climbs t x x) same turned)

pub IsForest-acyclic : (t : Table) → IsForest t → HasNoCycle t
IsForest-acyclic t forest i = Rooted-acyclic t i (forest.rooted i)

abbrev ids : Table → List ℕ
ids [] = []
ids (f ∷ rest) = f.id ∷ ids rest

length-ids : (t : Table) → length (ids t) ≡ length t
length-ids [] = refl
length-ids (f ∷ rest) = omega (arith, length-ids rest)

find-occurs : (id : ℕ) (t : Table) (f : Folder) → find id t ≡ some f → 0 < occurrences id (ids t)
find-occurs id [] f e = cc
find-occurs id (g ∷ rest) f e = elim (Bool-cases (g.id == id)) [
  | inl h ↦ ground arith
  | inr h ↦ ground (arith, find-occurs id rest f (rw h at e))
]

module _ (event_id folder_id : ℕ) (t : Table) where
  abbrev walk : ℕ → ℕ → Result FolderError Unit
  walk fuel id = ensure_not_descendant fuel event_id folder_id (some id) t

  abbrev On : ℕ → Type 0
  On id = OnWay t event_id folder_id id

  -- A conflict where the moved folder is on the way up, and else none.
  abbrev pub Decides : ℕ → Result FolderError Unit → Type 0
  Decides id answer = ((answer ≡ err conflict) × On id) ⊎ ((answer ≡ ok tt) × (¬ On id))

  next_up :
      (id : ℕ) (f : Folder)
      → (id == folder_id) ≡ false
      → find id t ≡ some f
      → On id
      → (f.event_id ≡ event_id) × (p : ℕ) × (f.parent_id ≡ some p) × On p
  next_up id f n e (here s) = absurd (ground arith)
  next_up id f n e (up {p = p} g e' i q on) =
      let same : g ≡ f = cc in
      (
        subst (λ (x : Folder). x.event_id ≡ event_id) same i,
        p,
        subst (λ (x : Folder). x.parent_id ≡ some p) same q,
        on,
      )

  not_missing : (id : ℕ) → (id == folder_id) ≡ false → find id t ≡ none → ¬ On id
  not_missing id n e (here s) = ground arith
  not_missing id n e (up f e' i q on) = cc

  higher :
      (id p : ℕ) (f : Folder) (answer : Result FolderError Unit)
      → (id == folder_id) ≡ false
      → find id t ≡ some f
      → f.event_id ≡ event_id
      → f.parent_id ≡ some p
      → Decides p answer
      → Decides id answer
  higher id p f answer n e i q (inl (a, on)) = inl (a, up f e i q on)
  higher id p f answer n e i q (inr (a, off)) = inr (
    a,
    λ on.
        let (i', p', q', on') = next_up id f n e on in
        let same : p' ≡ p = cc in off (subst On same on'),
  )

  fewer :
      (id : ℕ) (seen : List ℕ) (f : Folder) {fuel : ℕ}
      → find id t ≡ some f
      → HasNoCycle t
      → ((v : ℕ) → 0 < occurrences v seen → Climbs t v id)
      → left seen (ids t) < suc fuel
      → left (seen ++ (id ∷ [])) (ids t) < fuel
  fewer id seen f e acyclic climbs h = elim (Bool-cases (leb 1 (occurrences id seen))) [
    | inl s ↦ absurd (acyclic id (climbs id (ground arith)))
    | inr n ↦ omega (
      arith,
      left-lt id seen (id ∷ []) (ids t) (find-occurs id t f e) (ground arith) (ground arith),
    )
  ]

  seen_below :
      (id p : ℕ) (seen : List ℕ) (f : Folder)
      → find id t ≡ some f
      → f.parent_id ≡ some p
      → ((v : ℕ) → 0 < occurrences v seen → Climbs t v id)
      → (v : ℕ) → 0 < occurrences v (seen ++ (id ∷ []))
      → Climbs t v p
  seen_below id p seen f e q climbs v h = elim (Bool-cases (v == id)) [
    | inl s ↦
        let same : v ≡ id = ground arith in
        subst (λ (x : ℕ). Climbs t x p) (sym same) (parent f e q)
    | inr n ↦ above f (climbs v (ground (arith, occurrences-append v seen (id ∷ [])))) e q
  ]

  -- `seen` are the folders that the walk has passed.
  walk_from :
      (fuel id : ℕ) (seen : List ℕ)
      → HasNoCycle t
      → left seen (ids t) < fuel
      → ((v : ℕ) → 0 < occurrences v seen → Climbs t v id)
      → Decides id (walk fuel id)
  unfolding ensure_not_descendant
  walk_from zero id seen acyclic h climbs = absurd (omega arith)
  walk_from (suc fuel) id seen acyclic h climbs = elim (Bool-cases (id == folder_id)) [
    | inl s ↦ rw s (inl (refl, here (ground arith)))
    | inr n ↦ rw n (elim (Option-cases (find id t)) [
      | inl e ↦ rw e (inr (refl, not_missing id n e))
      | inr (f, e) ↦ rw e (elim (Bool-cases (f.event_id == event_id)) [
        | inr o ↦
            rw o
              (inr (refl, λ on. let (i, p, q, more) = next_up id f n e on in absurd (ground arith)))
        | inl i ↦ rw i (elim (Option-cases f.parent_id) [
          | inl q ↦ rw q (inr (refl, λ on. let (i', p, q', more) = next_up id f n e on in cc))
          | inr (p, q) ↦ rw q (
              higher id p f (walk fuel p) n e (ground arith) q (
                walk_from fuel p (seen ++ (id ∷ [])) acyclic (fewer id seen f e acyclic climbs h)
                  (seen_below id p seen f e q climbs)))
        ])
      ])
    ])
  ]

  -- In a table without a cycle of parents the walk ends, with one unit of fuel more than there are
  -- folders, and refuses with a conflict exactly where the moved folder lies on the way up from the new
  -- parent through folders of the event (or is it); else it lets the move pass.
  pub walk_decides :
      (fuel id : ℕ)
      → HasNoCycle t
      → length t < fuel
      → let answer = ensure_not_descendant fuel event_id folder_id (some id) t in
        ((answer ≡ err conflict) × OnWay t event_id folder_id id)
        ⊎ ((answer ≡ ok tt) × (¬ OnWay t event_id folder_id id))
  walk_decides fuel id acyclic h =
      walk_from fuel id [] acyclic (omega (arith, left_none (ids t), length-ids t))
        (λ v none. absurd (omega arith))
