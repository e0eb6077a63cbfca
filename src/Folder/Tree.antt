-- ===== src/Folder/Tree.antt =====
-- The way up from a folder to its parents, in a table and after a change of one of its rows.
use event_vision_pipeline.Base.{
  ℕ, zero, suc, true, false, none, some, [], ◌∷◌, ◌≡◌, ◌≢◌, refl, sym, ap, subst, ◌∙◌, ◌⊎◌, inl,
  inr, arith, ◌==◌, Bool-cases, Option-cases, ==_refl,
}
use event_vision_pipeline.Base.Effect.{ok}
use event_vision_pipeline.Folder.{Folder, Table, find, ensure_not_descendant, replace}

-- The way up from a folder's identifier ends: at a missing row, at a row without a parent, or above it.
pub data Rooted (t : Table) : ℕ → Type 0 where
  missing : {id : ℕ} → find id t ≡ none → Rooted t id
  root : {id : ℕ} (f : Folder) → find id t ≡ some f → f.parent_id ≡ none → Rooted t id
  under :
      {id : ℕ} (f : Folder) (p : ℕ)
      → find id t ≡ some f
      → f.parent_id ≡ some p
      → Rooted t p
      → Rooted t id

-- All ways up end, and no folder lies under a folder of another event.
pub record IsForest (t : Table) : Type 0 where
  pub rooted : (id : ℕ) → Rooted t id
  pub same_event :
      (id p : ℕ) (f g : Folder)
      → find id t ≡ some f
      → f.parent_id ≡ some p
      → find p t ≡ some g
      → g.event_id ≡ f.event_id

pub find_id : (id : ℕ) (t : Table) (f : Folder) → find id t ≡ some f → f.id ≡ id
find_id id [] f e = cc
find_id id (g ∷ rest) f e = elim (Bool-cases (g.id == id)) [
  | inl h ↦ let same = rw h at e in let fst : g ≡ f = cc in rw (← fst) (ground arith)
  | inr h ↦ find_id id rest f (rw h at e)
]

find-replace_other :
    (f : Folder) (id : ℕ) (t : Table) → (f.id == id) ≡ false → find id (replace f t) ≡ find id t
find-replace_other f id [] n = refl
find-replace_other f id (g ∷ rest) n = elim (Bool-cases (g.id == f.id)) [
  | inl h ↦
      let other : (g.id == id) ≡ false = ground arith in
      rw h (rw n (rw other (find-replace_other f id rest n)))
  | inr h ↦ rw h (elim (Bool-cases (g.id == id)) [
    | inl k ↦ rw k refl
    | inr k ↦ rw k (find-replace_other f id rest n)
  ])
]

find-replace_self :
    (f g : Folder) (t : Table) → find f.id t ≡ some g → find f.id (replace f t) ≡ some f
find-replace_self f g [] e = cc
find-replace_self f g (h ∷ rest) e = elim (Bool-cases (h.id == f.id)) [
  | inl k ↦ rw k (rw ==_refl refl)
  | inr k ↦ rw k (rw k (find-replace_self f g rest (rw k at e)))
]

-- The walk of `ensure_not_descendant` is over: at a folder that is missing or of another event, or at
-- a folder without a parent, and it has not met the folder that is moved.
module _ (event_id : ℕ) (moved : Folder) (t : Table) (forest : IsForest t) where
  abbrev pub InEvent : ℕ → Type 0
  InEvent id = (f : Folder) → find id t ≡ some f → f.event_id ≡ event_id

  pub walk-Rooted :
      (fuel id : ℕ)
      → InEvent id
      → ensure_not_descendant fuel event_id moved.id (some id) t ≡ ok tt
      → Rooted (replace moved t) id
  unfolding ensure_not_descendant
  walk-Rooted zero id i e = cc
  walk-Rooted (suc fuel) id i e = elim (Bool-cases (id == moved.id)) [
    | inl h ↦ let never = rw h at e in cc
    | inr h ↦
        let apart : (moved.id == id) ≡ false = ground arith in
        let kept = find-replace_other moved id t apart in
        elim (Option-cases (find id t)) [
          | inl k ↦ missing (kept ∙ k)
          | inr (f, k) ↦ elim (Option-cases f.parent_id) [
            | inl q ↦ root f (kept ∙ k) q
            | inr (p, q) ↦
                let inside : (f.event_id == event_id) ≡ true = ground (arith, i f k) in
                under f p (kept ∙ k) q (
                  walk-Rooted fuel p (λ g s. forest.same_event id p f g k q s ∙ i f k)
                    (rw (h, k, inside, q) at e))
          ]
        ]
  ]

module _ (moved old : Folder) (t : Table) (here : find moved.id t ≡ some old) where
  abbrev pub t' : Table
  t' = replace moved t

  some_row : (id : ℕ) → moved.id ≡ id → find id t ≢ none
  some_row id s e = let found : find id t ≡ some old = subst (λ x. find x t ≡ some old) s here in cc

  row_of : (id : ℕ) → moved.id ≡ id → (f : Folder) → find id t ≡ some f → old ≡ f
  row_of id s f e = let found : find id t ≡ some old = subst (λ x. find x t ≡ some old) s here in cc

  at_moved : (id : ℕ) → (moved.id == id) ≡ true → Rooted t' moved.id → Rooted t' id
  at_moved id h up = let same : moved.id ≡ id = ground arith in subst (Rooted t') same up

  -- Where the way up from the changed row ends, all do.
  keep-Rooted : (id : ℕ) → Rooted t' moved.id → Rooted t id → Rooted t' id
  keep-Rooted id up (missing e) = elim (Bool-cases (moved.id == id)) [
    | inl h ↦ at_moved id h up
    | inr h ↦ missing (find-replace_other moved id t h ∙ e)
  ]
  keep-Rooted id up (root f e p) = elim (Bool-cases (moved.id == id)) [
    | inl h ↦ at_moved id h up
    | inr h ↦ root f (find-replace_other moved id t h ∙ e) p
  ]
  keep-Rooted id up (under f p e q r) = elim (Bool-cases (moved.id == id)) [
    | inl h ↦ at_moved id h up
    | inr h ↦ under f p (find-replace_other moved id t h ∙ e) q (keep-Rooted p up r)
  ]

  pub moved_row : find moved.id t' ≡ some moved
  moved_row = find-replace_self moved old t here

  -- The way up from the changed row, where its parent is the same.
  pub same_parent-Rooted : (id : ℕ) → moved.parent_id ≡ old.parent_id → Rooted t id → Rooted t' id
  same_parent-Rooted id s (missing e) = elim (Bool-cases (moved.id == id)) [
    | inl h ↦ let same : moved.id ≡ id = ground arith in absurd (some_row id same e)
    | inr h ↦ missing (find-replace_other moved id t h ∙ e)
  ]
  same_parent-Rooted id s (root f e p) = elim (Bool-cases (moved.id == id)) [
    | inl h ↦
        let same : moved.id ≡ id = ground arith in
        let first : old ≡ f = row_of id same f e in
        at_moved id h (root moved moved_row (s ∙ ap (λ x. x.parent_id) first ∙ p))
    | inr h ↦ root f (find-replace_other moved id t h ∙ e) p
  ]
  same_parent-Rooted id s (under f p e q r) = elim (Bool-cases (moved.id == id)) [
    | inl h ↦
        let same : moved.id ≡ id = ground arith in
        let first : old ≡ f = row_of id same f e in
        at_moved id h
          (under moved p moved_row (s ∙ ap (λ x. x.parent_id) first ∙ q) (same_parent-Rooted p s r))
    | inr h ↦ under f p (find-replace_other moved id t h ∙ e) q (same_parent-Rooted p s r)
  ]

  -- A row of the new table is the changed one, or was there before.
  row_after :
      (id : ℕ) (f : Folder)
      → find id t' ≡ some f
      → ((moved.id ≡ id) × (f ≡ moved)) ⊎ (find id t ≡ some f)
  row_after id f e = elim (Bool-cases (moved.id == id)) [
    | inl h ↦
        let same : moved.id ≡ id = ground arith in
        let found : find id t' ≡ some moved = subst (λ x. find x t' ≡ some moved) same moved_row in
        inl (same, cc)
    | inr h ↦ inr (sym (find-replace_other moved id t h) ∙ e)
  ]

  -- A changed row that stays in its event, under a parent of the event.
  pub replace-IsForest :
      moved.event_id ≡ old.event_id
      → ((p : ℕ) (g : Folder)
          → moved.parent_id ≡ some p
          → find p t ≡ some g
          → g.event_id ≡ moved.event_id)
      → IsForest t
      → Rooted t' moved.id
      → IsForest t'
  replace-IsForest stays inside forest up = record {
    rooted = λ id. keep-Rooted id up (forest.rooted id);
    same_event = λ id p f g e q s. elim (row_after id f e) [
      | inl (c, m) ↦ elim (row_after p g s) [
        | inl (d, n) ↦ rw (m, n) refl
        | inr k ↦ rw m (inside p g (ap (λ x. x.parent_id) (sym m) ∙ q) k)
      ]
      | inr h ↦ elim (row_after p g s) [
        | inl (d, n) ↦ rw n (stays ∙ forest.same_event id p f old h q (rw (← d) here))
        | inr k ↦ forest.same_event id p f g h q k
      ]
    ];
  }
