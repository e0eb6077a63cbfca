-- ===== src/Archival/Examples.antt =====
-- Two photos of the event 7 and one of another, with a store that counts its calls.
use event_vision_pipeline.Base.{
  ℕ, suc, String, true, not, none, some, [], ◌∷◌, ◌≡◌, refl, str_eq, occurrences,
}
use event_vision_pipeline.Base.Effect.{err}
use event_vision_pipeline.FaceProcessing.{Event, ready, pending_face_photo_count}
use event_vision_pipeline.Archival.{
  Photo, status_completed, Storage, State, move_failed, archive_event, restore_event,
}
use event_vision_pipeline.Archival.Faces.{face_rows, restored_without_faces}

-- A store that refuses to move one key.
abbrev store : String → Storage
store refused = record {
  World = ℕ;
  change_storage_class = λ key class n. (not (str_eq key refused), suc n);
  delete_objects = λ keys n. suc n;
}

abbrev event : Event
event = record { id = 7; status = ready; total_photos = 2; total_faces = 4; updated_at = none }

abbrev photo : ℕ → ℕ → String → Photo
photo id event_id key = record {
  id = id;
  event_id = event_id;
  original_s3_key = key;
  proxy_s3_key = some "proxy";
  thumb_s3_key = none;
  micro_thumb_s3_key = none;
  preview_s3_key = none;
  blurhash = none;
  derivative_file_size_bytes = 9;
  face_count = 2;
  faces_processed = true;
  processing_status = status_completed;
}

abbrev shoot : State ℕ
shoot = record {
  world = 0;
  event = some event;
  processed_photos = 2;
  photos = photo 1 7 "a" ∷ photo 2 8 "b" ∷ photo 3 7 "c" ∷ [];
  embeddings = 7 ∷ 8 ∷ 7 ∷ [];
  clusters = 7 ∷ 8 ∷ [];
  notices = [];
  photo_jobs = [];
}

restored_without_faces_example :
    let restored = (restore_event (store "x") 7 (archive_event (store "x") 7 shoot).1).1 in
    (occurrences 7 restored.embeddings ≡ 0)
    × (pending_face_photo_count 7 (face_rows restored.photos)
        ≡ pending_face_photo_count 7 (face_rows shoot.photos))
unfolding archive_event
restored_without_faces_example = restored_without_faces (store "x") 7 shoot refl

aborted : archive_event (store "c") 7 shoot ≡ (err move_failed, record shoot { world = 2 })
unfolding archive_event
aborted = refl
