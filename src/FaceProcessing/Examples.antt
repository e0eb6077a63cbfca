-- ===== src/FaceProcessing/Examples.antt =====
-- A start of the face job of an event with two waiting photos, on the server in memory.
use event_vision_pipeline.Base.{Bool, true, false, none, some, [], ◌∷◌, ◌≡◌, refl, arith}
use event_vision_pipeline.Base.Effect.{ok}
use event_vision_pipeline.Redis.{face_give_up}
use event_vision_pipeline.Redis.Memory.{memory, empty, Store}
use event_vision_pipeline.Progress.{status_processing}
use event_vision_pipeline.Watch
use event_vision_pipeline.FaceProcessing.{
  Event, FaceConfig, App, PhotoRow, uploading, processing, pending_face_photo_count,
  pipeline_lock_held, start_face_processing, get_progress,
}
use event_vision_pipeline.FaceProcessing.Begin.{start_begins_anew}

abbrev config : FaceConfig
config = record { face_processing_enabled = true; processing_progress_ttl_seconds = 86400 }

abbrev event : Event
event = record { id = 7; status = uploading; total_photos = 3; total_faces = 0; updated_at = none }

abbrev photo : Bool → PhotoRow
photo processed = record { event_id = 7; faces_processed = processed }

abbrev app : App Store
app = record {
  redis = empty;
  photos = photo false ∷ photo true ∷ photo false ∷ [];
  face_jobs = [];
  gpu_jobs = 0;
}

start_begins_anew_example :
    let (answer, after) = start_face_processing memory config 1000000 event app in
    (answer
      ≡ ok (
        record { event_id = 7; status = processing; already_running = false; photos_queued = 2 },
        record event { status = processing },
      ))
    × (after.face_jobs ≡ 7 ∷ [])
    × (get_progress memory config 9000000 (record event { status = processing }) after ≡ record {
      event_id = 7;
      event_status = processing;
      pipeline_status = status_processing;
      total_photos = 2;
      processed_photos = 0;
      failed_photos = 0;
      total_faces = 0;
      embedded_faces = 0;
      started_at = some 1000000;
      eta_seconds = none;
    })
    × (Watch.read memory 7 86400 9000000 after.redis
        ≡ some (record { started_at = 1000000; last_heartbeat_at = none }))
    × (memory.entry after.redis (face_give_up 7) ≡ none)
unfolding pending_face_photo_count pipeline_lock_held
start_begins_anew_example =
    start_begins_anew memory config 1000000 9000000 event app refl (λ e. cc) refl (omega arith)
