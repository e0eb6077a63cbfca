-- ===== src/Folder/Refusal.antt =====
-- `update_folder` of services/folder_service.py where a folder is to be moved below itself.
use event_vision_pipeline.Base.{
  ℕ, ◌<◌, true, some, ◌≡◌, refl, sym, subst, inl, inr, arith, ◌==◌, Bool-cases, length,
}
use event_vision_pipeline.Base.Effect.{err}
use event_vision_pipeline.Folder.{
  Folder, UpdateFolderRequest, conflict, Table, find, get_folder, move, new_parent, update_folder,
}
use event_vision_pipeline.Folder.Tree.{find_id}
use event_vision_pipeline.Folder.Walk.{HasNoCycle, OnWay, walk_decides}

module _ (fuel event_id : ℕ) (t : Table) (acyclic : HasNoCycle t) (enough : length t < fuel) where
  move_refused :
      (folder : Folder) (p : ℕ)
      → OnWay t event_id folder.id p
      → move fuel event_id folder (some p) t ≡ (err conflict, t)
  unfolding move
  move_refused folder p below = elim (Bool-cases (p == folder.id)) [
    | inl s ↦ rw s refl
    | inr n ↦ rw n (elim (walk_decides event_id folder.id t fuel p acyclic enough) [
      | inl (refused, on) ↦ rw refused refl
      | inr (passed, off) ↦ absurd (off below)
    ])
  ]

  -- In a table without a cycle of parents, and whatever else it asks for, a request to move a folder of
  -- the event under itself or under a folder that lies below it, through folders of the event, is refused
  -- with a conflict, and the table stays as it is.
  pub descendant_refused :
      (folder : Folder) (p folder_id : ℕ) (request : UpdateFolderRequest)
      → find folder_id t ≡ some folder
      → folder.event_id ≡ event_id
      → request.parent_id ≡ some (some p)
      → OnWay t event_id folder_id p
      → update_folder fuel event_id folder_id request t ≡ (err conflict, t)
  unfolding update_folder get_folder new_parent
  descendant_refused folder p folder_id request found inside asked below =
      let own : folder.id ≡ folder_id = find_id folder_id t folder found in
      let same : (folder.event_id == event_id) ≡ true = ground arith in
      let refused =
        move_refused folder p (subst (λ (x : ℕ). OnWay t event_id x p) (sym own) below) in
      rw (found, same, asked, refused) refl
