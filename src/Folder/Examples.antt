-- ===== src/Folder/Examples.antt =====
-- A table of three folders of one event: a ceremony with its vows, and a party.
use event_vision_pipeline.Base.{
  ℕ, ◌⊎◌, arith, Option, none, some, [], ◌∷◌, ◌≡◌, refl, inl, inr, ◌==◌, Bool-cases, ◌∙◌, sym,
}
use event_vision_pipeline.Base.Effect.{ok, err}
use event_vision_pipeline.Folder.{
  Folder, UpdateFolderRequest, conflict, Table, find, update_folder, ensure_not_descendant,
}
use event_vision_pipeline.Folder.Tree.{Rooted, missing, root, under, IsForest}
use event_vision_pipeline.Folder.Moves.{update_folder-IsForest}
use event_vision_pipeline.Folder.Refusal.{descendant_refused}
use event_vision_pipeline.Folder.Walk.{OnWay, here, up, IsForest-acyclic, walk_decides}

abbrev folder : ℕ → Option ℕ → Folder
folder id parent = record {
  id = id;
  event_id = 7;
  parent_id = parent;
  name = "Folder";
  sort_order = 0;
}

abbrev table : Table
table = folder 1 none ∷ folder 2 (some 1) ∷ folder 3 none ∷ []

abbrev AllOf : ℕ → Table → Type 0
AllOf event [] = Unit
AllOf event (f ∷ rest) = (f.event_id ≡ event) × AllOf event rest

find_event :
    (event id : ℕ) (t : Table) (f : Folder)
    → AllOf event t
    → find id t ≡ some f
    → f.event_id ≡ event
find_event event id [] f a e = cc
find_event event id (g ∷ rest) f a e = elim (Bool-cases (g.id == id)) [
  | inl h ↦ let same = rw h at e in let first : g ≡ f = cc in rw (← first) a.0
  | inr h ↦ find_event event id rest f a.1 (rw h at e)
]

table-Rooted : (id : ℕ) → Rooted table id
table-Rooted id = elim (Bool-cases (1 == id)) [
  | inl h ↦ root (folder 1 none) (rw h refl) refl
  | inr h ↦ elim (Bool-cases (2 == id)) [
    | inl k ↦ under (folder 2 (some 1)) 1 (rw (h, k) refl) refl (root (folder 1 none) refl refl)
    | inr k ↦ elim (Bool-cases (3 == id)) [
      | inl l ↦ root (folder 3 none) (rw (h, k, l) refl) refl
      | inr l ↦ missing (rw (h, k, l) refl)
    ]
  ]
]

table-IsForest : IsForest table
table-IsForest = record {
  rooted = table-Rooted;
  same_event = λ id p f g e q s.
      find_event 7 p table g (refl, (refl, (refl, tt))) s
      ∙ sym (find_event 7 id table f (refl, (refl, (refl, tt))) e);
}

-- The ceremony goes under the party, as "Vows".
abbrev request : UpdateFolderRequest
request = record { parent_id = some (some 3); name = some "Vows"; sort_order = none }

update_folder-IsForest_example : IsForest (update_folder 4 7 1 request table).1
unfolding update_folder
update_folder-IsForest_example =
    update_folder-IsForest 4 7 1 request table (record (folder 1 (some 3)) { name = "Vows" })
      table-IsForest refl

walk_decides_example :
    let answer = ensure_not_descendant 4 7 1 (some 2) table in
    ((answer ≡ err conflict) × OnWay table 7 1 2) ⊎ ((answer ≡ ok tt) × (¬ OnWay table 7 1 2))
walk_decides_example =
    walk_decides 7 1 table 4 2 (IsForest-acyclic table table-IsForest) (omega arith)

-- The ceremony under its own vows.
abbrev below : UpdateFolderRequest
below = record { parent_id = some (some 2); name = some "Day"; sort_order = some 3 }

descendant_refused_example : update_folder 4 7 1 below table ≡ (err conflict, table)
descendant_refused_example =
    descendant_refused 4 7 table (IsForest-acyclic table table-IsForest) (omega arith)
      (folder 1 none) 2 1 below refl refl refl (up (folder 2 (some 1)) refl refl refl (here refl))
