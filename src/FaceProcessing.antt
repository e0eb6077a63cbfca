-- ===== src/FaceProcessing.antt =====
-- services/face_processing_service.py: the photographer's start of the face job, and its revert.
pub mod Begin
mod Examples
use event_vision_pipeline.Base.{
  String, some, ℕ, suc, Bool, true, false, ◌&&◌, not, Option, none, List, [], ◌∷◌, ◌==◌,
  if◌then◌else◌,
}
use event_vision_pipeline.Base.Effect.{ok, err, Effect}
use event_vision_pipeline.Redis.{Redis, Progress}
use event_vision_pipeline.Lock.{face_pipeline, lock_held}
use event_vision_pipeline.Watch
use event_vision_pipeline.Progress

-- models/enums.py
pub data EventStatus : Type 0 where
  draft uploading processing ready archived : EventStatus

abbrev pub is_processing : EventStatus → Bool
is_processing processing = true
is_processing _ = false

-- The columns that the face job reads and writes.
pub record Event : Type 0 where
  pub id : ℕ
  pub status : EventStatus
  pub total_photos : ℕ
  pub total_faces : ℕ
  pub updated_at : Option ℕ

pub record PhotoRow : Type 0 where
  pub event_id : ℕ
  pub faces_processed : Bool

-- The settings of MLConfig that the service reads.
pub record FaceConfig : Type 0 where
  pub face_processing_enabled : Bool
  pub processing_progress_ttl_seconds : ℕ

-- Redis, the photo table, and the queues that jobs are put on, newest first.
pub record App (Db : Type 0) : Type 0 where
  pub redis : Db
  pub photos : List PhotoRow
  pub face_jobs : List ℕ
  pub gpu_jobs : ℕ

pub data FaceError : Type 0 where
  face_processing_disabled no_photos_waiting : FaceError

pub record StartResponse : Type 0 where
  pub event_id : ℕ
  pub status : EventStatus
  pub already_running : Bool
  pub photos_queued : ℕ

pub record ProgressResponse : Type 0 where
  pub event_id : ℕ
  pub event_status : EventStatus
  pub pipeline_status : String
  pub total_photos : ℕ
  pub processed_photos : ℕ
  pub failed_photos : ℕ
  pub total_faces : ℕ
  pub embedded_faces : ℕ
  pub started_at : Option ℕ
  pub eta_seconds : Option ℕ

abbrev pub progress_response : Event → Option Progress → ProgressResponse
progress_response event none = record {
  event_id = event.id;
  event_status = event.status;
  pipeline_status = if is_processing event.status then "processing" else "idle";
  total_photos = event.total_photos;
  processed_photos = 0;
  failed_photos = 0;
  total_faces = event.total_faces;
  embedded_faces = 0;
  started_at = none;
  eta_seconds = none;
}
progress_response event (some p) = record {
  event_id = event.id;
  event_status = event.status;
  pipeline_status = p.status;
  total_photos = p.total_photos;
  processed_photos = p.processed_photos;
  failed_photos = p.failed_photos;
  total_faces = p.total_faces;
  embedded_faces = p.embedded_faces;
  started_at = p.started_at;
  eta_seconds = p.eta_seconds;
}

-- The number of photos of an event that have not completed face extraction.
unfoldable pub pending_face_photo_count : ℕ → List PhotoRow → ℕ
pending_face_photo_count event_id [] = 0
pending_face_photo_count event_id (p ∷ rest) =
    let n = pending_face_photo_count event_id rest in
    if p.event_id == event_id && not p.faces_processed then suc n else n

module _ (r : Redis) (config : FaceConfig) where
  unfoldable pub pipeline_lock_held : ℕ → ℕ → r.Db → Bool
  unfolding lock_held
  pipeline_lock_held now event_id db = lock_held r now face_pipeline event_id db

  -- The rest of `start_face_processing` where no worker holds the lock: the event is committed as
  -- processing, progress and watch begin anew, and the two jobs are queued.
  unfoldable pub enqueue : ℕ → Event → ℕ → App r.Db → (StartResponse × Event) × App r.Db
  enqueue now event pending app =
      let ttl = config.processing_progress_ttl_seconds in
      let tracker : Progress.Tracked r.Db = record { db = app.redis; started_at = none } in
      let started = (Progress.start r event.id ttl now pending tracker).db in
      (
        (
          record {
            event_id = event.id;
            status = processing;
            already_running = false;
            photos_queued = pending;
          },
          record event { status = processing },
        ),
        record app {
          redis = Watch.mark_started r event.id ttl now none started;
          face_jobs = event.id ∷ app.face_jobs;
          gpu_jobs = suc app.gpu_jobs;
        },
      )

  unfoldable pub start_face_processing :
      ℕ → Event → Effect (App r.Db) FaceError (StartResponse × Event)
  unfolding enqueue pipeline_lock_held
  start_face_processing now event app =
      let pending = pending_face_photo_count event.id app.photos in
      if not config.face_processing_enabled
      then (err face_processing_disabled, app)
      else if pending == 0
      then (err no_photos_waiting, app)
      else if pipeline_lock_held now event.id app.redis
      then (
        ok (
          record {
            event_id = event.id;
            status = event.status;
            already_running = true;
            photos_queued = pending;
          },
          event,
        ),
        app,
      )
      else let (response, app') = enqueue now event pending app in (ok response, app')

  unfoldable pub get_progress : ℕ → Event → App r.Db → ProgressResponse
  get_progress now event app =
      progress_response event
        (Progress.read r event.id config.processing_progress_ttl_seconds now app.redis)

  -- The event after `revert_stalled_processing`, and Redis with the progress hash in error.
  unfoldable pub revert_stalled_processing : ℕ → Event → App r.Db → Event × App r.Db
  revert_stalled_processing now event app =
      let tracker : Progress.Tracked r.Db = record { db = app.redis; started_at = none } in
      (
        record event {
          status = if pending_face_photo_count event.id app.photos == 0 then ready else uploading;
        },
        record app {
          redis =
              (Progress.mark_error r event.id config.processing_progress_ttl_seconds now
                tracker).db;
        },
      )
