-- ===== src/Folder.antt =====
-- services/folder_service.py: the folders of an event, created under a parent, renamed and moved. The
-- folder table is a list of rows. Names are as they are after strip(), and a failed flush leaves the
-- table as it was, since the transaction is rolled back. The proofs are in the modules below.
pub mod Tree
pub mod Moves
pub mod Walk
pub mod Refusal
mod Examples
use event_vision_pipeline.Base.{
  ℕ, zero, suc, ◌+◌, String, Bool, true, false, not, ◌&&◌, Option, none, some, List, [], ◌∷◌, leb,
  ltb, ◌==◌, str_eq, if◌then◌else◌, occurrences,
}
use event_vision_pipeline.Base.Effect.{
  Result, ok, err, Effect, pure, raise, gets, modify, ◌>>=◌, ◌>>◌,
}

abbrev pub max_folder_depth : ℕ
max_folder_depth = 10

-- models/folder.py
pub record Folder : Type 0 where
  pub id : ℕ
  pub event_id : ℕ
  pub parent_id : Option ℕ
  pub name : String
  pub sort_order : ℕ

pub record CreateFolderRequest : Type 0 where
  pub name : String
  pub parent_id : Option ℕ

-- `parent_id` is none where the request does not set the field.
pub record UpdateFolderRequest : Type 0 where
  pub parent_id : Option (Option ℕ)
  pub name : Option String
  pub sort_order : Option ℕ

-- NotFoundError and ConflictError; `out_of_fuel` stands for a walk over parents that does not end.
pub data FolderError : Type 0 where
  not_found conflict out_of_fuel : FolderError

abbrev pub Table : Type 0
Table = List Folder

abbrev pub Method : Type 0 → Type 0
Method A = Effect Table FolderError A

-- db.get(Folder, id)
abbrev pub find : ℕ → Table → Option Folder
find id [] = none
find id (f ∷ rest) = let found = find id rest in if f.id == id then some f else found

abbrev in_event : ℕ → Option Folder → Result FolderError Folder
in_event event_id none = err not_found
in_event event_id (some f) = if f.event_id == event_id then ok f else err not_found

pub get_folder : ℕ → ℕ → Method Folder
get_folder event_id folder_id t = (in_event event_id (find folder_id t), t)

-- The parents above a folder, at most `remaining` of them; `seen` are the folders on the way.
abbrev pub climb : ℕ → List ℕ → Table → Folder → ℕ
climb zero seen t current = 0
climb (suc remaining) seen t current = elim current.parent_id [
  | none ↦ 0
  | some p ↦ if leb 1 (occurrences current.id seen) then 0 else elim (find p t) [
    | none ↦ 0
    | some parent ↦ suc (climb remaining (current.id ∷ seen) t parent)
  ]
]

pub depth : Folder → Table → ℕ
depth folder t = suc (climb 9 [] t folder)

-- `_ensure_not_descendant`, from a folder on.
pub ensure_not_descendant : ℕ → ℕ → ℕ → Option ℕ → Table → Result FolderError Unit
ensure_not_descendant fuel event_id folder_id none t = ok tt
ensure_not_descendant zero event_id folder_id (some current) t = err out_of_fuel
ensure_not_descendant (suc fuel) event_id folder_id (some current) t =
    if current == folder_id then err conflict else elim (find current t) [
      | none ↦ ok tt
      | some f ↦
          if f.event_id == event_id
          then ensure_not_descendant fuel event_id folder_id f.parent_id t
          else ok tt
    ]

abbrev same_parent : Option ℕ → Option ℕ → Bool
same_parent none none = true
same_parent (some p) (some q) = p == q
same_parent _ _ = false

-- Another row of the event has the name at the same level, which the unique indexes refuse.
abbrev pub name_taken : Folder → Table → Bool
name_taken f [] = false
name_taken f (g ∷ rest) =
    let later = name_taken f rest in
    if not (g.id == f.id)
      && (g.event_id == f.event_id)
      && same_parent g.parent_id f.parent_id
      && str_eq g.name f.name
    then true
    else later

-- The row with the identifier of `f` becomes `f`.
abbrev pub replace : Folder → Table → Table
replace f [] = []
replace f (g ∷ rest) =
    let others = replace f rest in if g.id == f.id then f ∷ others else g ∷ others

abbrev pub or_keep : {A : Type 0} → A → Option A → A
or_keep old none = old
or_keep old (some new) = new

-- A parent that lies too deep, or does not exist.
pub check_parent : ℕ → Option ℕ → Method Unit
unfolding get_folder depth
check_parent event_id none = pure tt
check_parent event_id (some p) = do
  parent ← get_folder event_id p
  d ← gets (depth parent)
  if ltb max_folder_depth (d + 1) then raise conflict else pure tt

-- `id` is the identifier that the database gives to the new row.
unfoldable pub create_folder : ℕ → ℕ → CreateFolderRequest → Method Folder
unfolding check_parent
create_folder id event_id request = do
  check_parent event_id request.parent_id
  let folder : Folder = record {
    id = id;
    event_id = event_id;
    parent_id = request.parent_id;
    name = request.name;
    sort_order = 0;
  }
  taken ← gets (name_taken folder)
  if taken then raise conflict else do modify (λ t. folder ∷ t); pure folder

-- The part of `update_folder` for a request that sets the parent.
pub move : ℕ → ℕ → Folder → Option ℕ → Method (Option ℕ)
unfolding check_parent ensure_not_descendant
move fuel event_id folder none = pure none
move fuel event_id folder (some p) = if p == folder.id then raise conflict else do
  checked ← gets (ensure_not_descendant fuel event_id folder.id (some p))
  (λ t. (checked, t))
  check_parent event_id (some p)
  pure (some p)

pub new_parent : ℕ → ℕ → Folder → Option (Option ℕ) → Method (Option ℕ)
unfolding move
new_parent fuel event_id folder none = pure folder.parent_id
new_parent fuel event_id folder (some p) = move fuel event_id folder p

-- The flush of a changed row.
pub save : Folder → Method Folder
save changed = do
  taken ← gets (name_taken changed)
  if taken then raise conflict else do modify (replace changed); pure changed

-- `fuel` bounds the walk over parents.
unfoldable pub update_folder : ℕ → ℕ → ℕ → UpdateFolderRequest → Method Folder
unfolding get_folder new_parent save
update_folder fuel event_id folder_id request = do
  folder ← get_folder event_id folder_id
  parent_id ← new_parent fuel event_id folder request.parent_id
  save (record folder {
    parent_id = parent_id;
    name = or_keep folder.name request.name;
    sort_order = or_keep folder.sort_order request.sort_order;
  })
