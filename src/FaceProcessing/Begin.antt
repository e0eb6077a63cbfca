-- ===== src/FaceProcessing/Begin.antt =====
-- `start_face_processing` and `revert_stalled_processing` of services/face_processing_service.py, and what
-- the dashboard and the reconciler read afterwards.
use event_vision_pipeline.Base.{
  ℕ, ◌+◌, ◌<◌, true, false, none, some, ◌∷◌, ◌≡◌, refl, arith, ◌==◌, ◌≢◌,
}
use event_vision_pipeline.Base.Effect.{ok}
use event_vision_pipeline.Redis.{Redis, face_give_up, seconds, redis_laws, entry_hset_expire}
use event_vision_pipeline.Progress
use event_vision_pipeline.Progress.{status_processing}
use event_vision_pipeline.Watch
use event_vision_pipeline.FaceProcessing.{
  Event, FaceConfig, App, pending_face_photo_count, pipeline_lock_held, enqueue,
  start_face_processing, get_progress, processing,
}

module _ (r : Redis) (config : FaceConfig) where
  abbrev ttl : ℕ
  ttl = config.processing_progress_ttl_seconds

  -- What the progress hash and the watch hold after the start.
  enqueue_progress :
      (now u : ℕ) (event : Event) (pending : ℕ) (app : App r.Db)
      → u < now + seconds ttl
      → Progress.read r event.id ttl u (enqueue r config now event pending app).1.redis
        ≡ some (record {
          total_photos = pending;
          processed_photos = 0;
          failed_photos = 0;
          total_faces = 0;
          embedded_faces = 0;
          status = status_processing;
          started_at = some now;
          eta_seconds = none;
        })
  unfolding enqueue Progress.read Progress.start Progress.write Watch.mark_started Watch.write
  enqueue_progress now u event pending app h = rw r.get_live (
      rw r.entry_delete
        (rw entry_hset_expire (rw entry_hset_expire (simp redis_laws (ground arith)))))

  enqueue_watch :
      (now u : ℕ) (event : Event) (pending : ℕ) (app : App r.Db)
      → u < now + seconds ttl
      → Watch.read r event.id ttl u (enqueue r config now event pending app).1.redis
        ≡ some (record { started_at = now; last_heartbeat_at = none })
  unfolding enqueue Watch.read Progress.start Progress.write Watch.mark_started Watch.write
  enqueue_watch now u event pending app h =
      rw r.get_live (rw r.entry_delete (rw entry_hset_expire (simp redis_laws (ground arith))))

  enqueue_give_up :
      (now : ℕ) (event : Event) (pending : ℕ) (app : App r.Db)
      → r.entry (enqueue r config now event pending app).1.redis (face_give_up event.id) ≡ none
  unfolding enqueue Watch.mark_started
  enqueue_give_up now event pending app = simp redis_laws refl

  -- Where face processing is enabled, some photo of the event waits and no worker holds the pipeline
  -- lock, the start answers that it queued the waiting photos. It puts the job on the queue once, and
  -- until the time to live is over the dashboard reads a job in processing with no photo done, and the
  -- watch tells a job that started now and has not beaten yet. The right to give up is free again.
  pub start_begins_anew :
      (now u : ℕ) (event : Event) (app : App r.Db)
      → config.face_processing_enabled ≡ true
      → pending_face_photo_count event.id app.photos ≢ 0
      → pipeline_lock_held r config now event.id app.redis ≡ false
      → u < now + seconds ttl
      → let pending = pending_face_photo_count event.id app.photos in
        let begun : Event = record event { status = processing } in
        let (answer, after) = start_face_processing r config now event app in
        (answer
          ≡ ok (
            record {
              event_id = event.id;
              status = processing;
              already_running = false;
              photos_queued = pending;
            },
            begun,
          ))
        × (after.face_jobs ≡ event.id ∷ app.face_jobs)
        × (get_progress r config u begun after ≡ record {
          event_id = event.id;
          event_status = processing;
          pipeline_status = status_processing;
          total_photos = pending;
          processed_photos = 0;
          failed_photos = 0;
          total_faces = 0;
          embedded_faces = 0;
          started_at = some now;
          eta_seconds = none;
        })
        × (Watch.read r event.id ttl u after.redis
            ≡ some (record { started_at = now; last_heartbeat_at = none }))
        × (r.entry after.redis (face_give_up event.id) ≡ none)
  unfolding start_face_processing get_progress
  start_begins_anew now u event app enabled waits free h =
      let pending = pending_face_photo_count event.id app.photos in
      let some_wait : (pending == 0) ≡ false = ground arith in
      let shown = enqueue_progress now u event pending app h in
      let watched = enqueue_watch now u event pending app h in
      let freed = enqueue_give_up now event pending app in
      rw (enabled, some_wait, free) (refl, refl, rw shown refl, watched, freed)
