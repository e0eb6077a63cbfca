-- ===== src/Archival/Faces.antt =====
-- `archive_event` and `restore_event` of services/archival_service.py, and the faces of the event.
use event_vision_pipeline.Base.{
  ℕ, Option, none, some, List, [], ◌∷◌, ◌≡◌, refl, inl, inr, arith, ◌==◌, Bool-cases, occurrences,
}
use event_vision_pipeline.Base.Effect.{ok}
use event_vision_pipeline.FaceProcessing.{Event, PhotoRow, pending_face_photo_count}
use event_vision_pipeline.Archival.{
  Photo, Storage, State, glacier_ir, of_event, without, strip_photos, move_all, finish_archive,
  archive_found, archive_event, restore_found, restore_event,
}

-- The photo table as the face job reads it.
abbrev pub face_rows : List Photo → List PhotoRow
face_rows [] = []
face_rows (p ∷ rest) =
    record { event_id = p.event_id; faces_processed = p.faces_processed } ∷ face_rows rest

without_none : (event_id : ℕ) (xs : List ℕ) → occurrences event_id (without event_id xs) ≡ 0
without_none event_id [] = refl
without_none event_id (x ∷ rest) = ground (arith, without_none event_id rest)

strip_photos_pending :
    (id event_id : ℕ) (ps : List Photo)
    → pending_face_photo_count id (face_rows (strip_photos event_id ps))
      ≡ pending_face_photo_count id (face_rows ps)
unfolding pending_face_photo_count
strip_photos_pending id event_id [] = refl
strip_photos_pending id event_id (p ∷ rest) =
    let later = strip_photos_pending id event_id rest in
    elim (Bool-cases (p.event_id == event_id)) [
      | inl e ↦ rw e (rw later refl)
      | inr e ↦ rw e (rw later refl)
    ]

module _ (storage : Storage) where
  finish_archive_faces :
      (event_id : ℕ) (event : Event) (failed : List ℕ) (s : State storage.World)
      → (finish_archive storage event_id event failed s).0 ≡ ok tt
      → (occurrences event_id (finish_archive storage event_id event failed s).1.embeddings ≡ 0)
        × (pending_face_photo_count event_id
              (face_rows (finish_archive storage event_id event failed s).1.photos)
            ≡ pending_face_photo_count event_id (face_rows s.photos))
  unfolding finish_archive
  finish_archive_faces event_id event (p ∷ failed) s e = cc
  finish_archive_faces event_id event [] s e =
      (without_none event_id s.embeddings, strip_photos_pending event_id event_id s.photos)

  archive_found_faces :
      (event_id : ℕ) (o : Option Event) (s : State storage.World)
      → (archive_found storage event_id o s).0 ≡ ok tt
      → (occurrences event_id (archive_found storage event_id o s).1.embeddings ≡ 0)
        × (pending_face_photo_count event_id
              (face_rows (archive_found storage event_id o s).1.photos)
            ≡ pending_face_photo_count event_id (face_rows s.photos))
  unfolding archive_found
  archive_found_faces event_id none s e = cc
  archive_found_faces event_id (some event) s e =
      let moved = move_all storage glacier_ir (of_event event_id s.photos) s.world in
      finish_archive_faces event_id event moved.0 (record s { world = moved.1 }) e

  restore_found_faces :
      (event_id : ℕ) (o : Option Event) (s : State storage.World)
      → ((restore_found storage event_id o s).1.embeddings ≡ s.embeddings)
        × ((restore_found storage event_id o s).1.photos ≡ s.photos)
  unfolding restore_found
  restore_found_faces event_id none s = (refl, refl)
  restore_found_faces event_id (some event) s = (refl, refl)

  -- After an event is archived and then restored, no face embedding of it is left, but as many of its
  -- photos wait for face extraction as before the archival.
  pub restored_without_faces :
      (event_id : ℕ) (s : State storage.World)
      → (archive_event storage event_id s).0 ≡ ok tt
      → let restored = (restore_event storage event_id (archive_event storage event_id s).1).1 in
        (occurrences event_id restored.embeddings ≡ 0)
        × (pending_face_photo_count event_id (face_rows restored.photos)
            ≡ pending_face_photo_count event_id (face_rows s.photos))
  unfolding archive_event restore_event
  restored_without_faces event_id s e =
      let archived = archive_found storage event_id s.event s in
      let (gone, same) = archive_found_faces event_id s.event s e in
      let (kept, rows) = restore_found_faces event_id archived.1.event archived.1 in
      rw (kept, rows) (gone, same)
