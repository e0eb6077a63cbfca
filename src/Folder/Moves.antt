-- ===== src/Folder/Moves.antt =====
-- `update_folder` of services/folder_service.py on tables whose folders form a forest.
use event_vision_pipeline.Base.{
  ℕ, Option, none, some, ◌≡◌, refl, sym, ap, ◌∙◌, inl, inr, arith, ◌==◌, Bool-cases, Option-cases,
}
use event_vision_pipeline.Base.Effect.{ok, after_ok, same_answer}
use event_vision_pipeline.Folder.{
  Folder, UpdateFolderRequest, Table, find, get_folder, ensure_not_descendant, check_parent, move,
  new_parent, or_keep, save, replace, name_taken, update_folder,
}
use event_vision_pipeline.Folder.Tree.{
  root, under, IsForest, find_id, walk-Rooted, moved_row, same_parent-Rooted, replace-IsForest,
}

get_folder_row :
    (event_id id : ℕ) (t : Table) (f : Folder)
    → (get_folder event_id id t).0 ≡ ok f
    → (find id t ≡ some f) × (f.event_id ≡ event_id)
unfolding get_folder
get_folder_row event_id id t f e = elim (Option-cases (find id t)) [
  | inl h ↦ let never = rw h at e in cc
  | inr (g, h) ↦ elim (Bool-cases (g.event_id == event_id)) [
    | inr k ↦ let never = rw (h, k) at e in cc
    | inl k ↦
        let row : g ≡ f = same_answer (get_folder event_id id t).0 g f (rw (h, k) refl) e in
        (rw (← row) h, rw (← row) (ground arith))
  ]
]

check_parent_row :
    (event_id p : ℕ) (t : Table)
    → (check_parent event_id (some p) t).0 ≡ ok tt
    → (g : Folder) × (find p t ≡ some g) × (g.event_id ≡ event_id)
unfolding check_parent
check_parent_row event_id p t e =
    let (g, read, rest) = after_ok (get_folder event_id p t) _ tt e in
    let (row, event) = get_folder_row event_id p t g read in (g, row, event)

check_parent_table : (event_id : ℕ) (o : Option ℕ) (t : Table) → (check_parent event_id o t).1 ≡ t
unfolding check_parent get_folder
check_parent_table event_id none t = refl
check_parent_table event_id (some p) t = ground arith

some_same : (p q : ℕ) → some p ≡ some q → p ≡ q
some_same p q e = cc

-- What a move has checked where it is let through: the new parent is none, or it is a folder of the
-- event that the walk over parents has cleared.
abbrev IsCleared : ℕ → ℕ → Folder → Option ℕ → Table → Type 0
IsCleared fuel event_id folder none t = Unit
IsCleared fuel event_id folder (some p) t =
    (ensure_not_descendant fuel event_id folder.id (some p) t ≡ ok tt)
    × ((g : Folder) × (find p t ≡ some g) × (g.event_id ≡ event_id))

move-IsCleared :
    (fuel event_id : ℕ) (folder : Folder) (o parent : Option ℕ) (t : Table)
    → (move fuel event_id folder o t).0 ≡ ok parent
    → ((move fuel event_id folder o t).1 ≡ t) × (parent ≡ o) × IsCleared fuel event_id folder o t
unfolding move
move-IsCleared fuel event_id folder none parent t e = (refl, cc, tt)
move-IsCleared fuel event_id folder (some p) parent t e = elim (Bool-cases (p == folder.id)) [
  | inl h ↦ let never = rw h at e in cc
  | inr h ↦
      let walk = ensure_not_descendant fuel event_id folder.id (some p) t in
      let (u, walked, rest) = after_ok (walk, t) _ parent (rw h at e) in
      let (v, checked, last) =
        after_ok (check_parent event_id (some p) t) _ parent (rw rest at (rw h at e)) in
      let answered = rw last at (rw rest at (rw h at e)) in
      (
        rw h (rw (walked, checked) (check_parent_table event_id (some p) t)),
        cc,
        (walked, check_parent_row event_id p t checked),
      )
]

-- What the new parent of an update has passed.
abbrev IsAllowed : ℕ → ℕ → Folder → Option (Option ℕ) → Option ℕ → Table → Type 0
IsAllowed fuel event_id folder none parent t = parent ≡ folder.parent_id
IsAllowed fuel event_id folder (some o) parent t = (parent ≡ o) × IsCleared fuel event_id folder o t

new_parent-IsAllowed :
    (fuel event_id : ℕ) (folder : Folder) (request : Option (Option ℕ)) (parent : Option ℕ)
    (t : Table)
    → (new_parent fuel event_id folder request t).0 ≡ ok parent
    → ((new_parent fuel event_id folder request t).1 ≡ t)
      × IsAllowed fuel event_id folder request parent t
unfolding new_parent
new_parent-IsAllowed fuel event_id folder none parent t e = (refl, cc)
new_parent-IsAllowed fuel event_id folder (some o) parent t e =
    let (same, is_o, cleared) = move-IsCleared fuel event_id folder o parent t e in
    (same, (is_o, cleared))

-- The row that an update writes leaves a forest.
allowed-IsForest :
    (fuel event_id : ℕ) (folder changed : Folder) (request : Option (Option ℕ)) (parent : Option ℕ)
    (t : Table)
    → IsForest t
    → find changed.id t ≡ some folder
    → folder.id ≡ changed.id
    → folder.event_id ≡ event_id
    → changed.event_id ≡ folder.event_id
    → changed.parent_id ≡ parent
    → IsAllowed fuel event_id folder request parent t
    → IsForest (replace changed t)
allowed-IsForest fuel event_id folder changed none parent t forest row id event stays named a =
    replace-IsForest changed folder t row stays
      (λ p g q s. forest.same_event changed.id p folder g row (sym a ∙ sym named ∙ q) s ∙ sym stays)
      forest
      (same_parent-Rooted changed folder t row changed.id (named ∙ a) (forest.rooted changed.id))
allowed-IsForest fuel event_id folder changed (some none) parent t forest row id event stays named
      a =
    replace-IsForest changed folder t row stays (λ p g q s. let top = a.0 in cc) forest
      (root changed (moved_row changed folder t row) (named ∙ a.0))
allowed-IsForest fuel event_id folder changed (some (some p)) parent t forest row id event stays
      named a =
    let (is_p, (walked, (g, there, inside))) = a in
    replace-IsForest changed folder t row stays
      (λ q f n s.
        let same : p ≡ q = some_same p q (sym is_p ∙ sym named ∙ n) in
        let found : find q t ≡ some g = rw (← same) there in
        let one : g ≡ f = cc in rw (← one) (inside ∙ sym event ∙ sym stays))
      forest
      (under changed p (moved_row changed folder t row) (named ∙ is_p) (
        walk-Rooted event_id changed t forest fuel p
          (λ f s. let one : g ≡ f = cc in rw (← one) inside) (rw id at walked)))

save-IsForest :
    (changed : Folder) (t : Table)
    → IsForest t
    → IsForest (replace changed t)
    → IsForest (save changed t).1
unfolding save
save-IsForest changed t before changed_too = elim (Bool-cases (name_taken changed t)) [
  | inl h ↦ rw h before
  | inr h ↦ rw h changed_too
]

-- An update that is let through keeps the folders a forest: whatever its request renames, reorders or
-- moves, each way up from a folder to its parents ends, and no folder comes to lie under a folder of
-- another event.
pub update_folder-IsForest :
    (fuel event_id folder_id : ℕ) (request : UpdateFolderRequest) (t : Table) (f : Folder)
    → IsForest t
    → (update_folder fuel event_id folder_id request t).0 ≡ ok f
    → IsForest (update_folder fuel event_id folder_id request t).1
unfolding update_folder get_folder
update_folder-IsForest fuel event_id folder_id request t f forest e =
    let (folder, read, rest) = after_ok (get_folder event_id folder_id t) _ f e in
    let (row, event) = get_folder_row event_id folder_id t folder read in
    let id = find_id folder_id t folder row in
    let (parent, answered, last) =
      after_ok (new_parent fuel event_id folder request.parent_id t) _ f (rw rest at e) in
    let (same, allowed) =
      new_parent-IsAllowed fuel event_id folder request.parent_id parent t answered in
    let changed : Folder = record folder {
      parent_id = parent;
      name = or_keep folder.name request.name;
      sort_order = or_keep folder.sort_order request.sort_order;
    } in
    let saved : update_folder fuel event_id folder_id request t ≡ save changed t =
      rest ∙ last ∙ ap (save changed) same in
    rw saved (
      save-IsForest changed t forest (
        allowed-IsForest fuel event_id folder changed request.parent_id parent t forest (rw id row)
          refl event refl refl allowed))
