-- ===== src/Pipeline/Job.antt =====
-- The lock of a run of `process_event_photos` in ml/pipeline.py, its pulse, and one round of the loop over
-- the photos, with the progress in Redis. The times at which the clock is read are a parameter.
pub mod Attempts
use event_vision_pipeline.Base.{
  ℕ, zero, suc, min, ◌+◌, ◌*◌, Bool, true, false, Option, none, some, List, [], ◌∷◌, length,
  if◌then◌else◌,
}
use event_vision_pipeline.Base.Effect.{Result, ok, err, Effect}
use event_vision_pipeline.Redis.{Redis}
use event_vision_pipeline.Lock.{EventClusteringLock, acquire, extend, release}
use event_vision_pipeline.Progress
use event_vision_pipeline.Progress.{Tracked, Counts, status_processing}
use event_vision_pipeline.Watch
use event_vision_pipeline.Prefetch.{for_each_prefetched}
use event_vision_pipeline.Pipeline.{
  PhotoRow, PipelineError, lock_error, lock_busy, failed, Models, Tables,
}
use event_vision_pipeline.Pipeline.Bulk.{
  Run, fresh_run, load_pending_photos, handle_rows, final_flush,
}

-- The settings of MLConfig that the run reads; delays are in milliseconds.
pub record BulkConfig : Type 0 where
  pub embedding_batch_size : ℕ
  pub download_ahead : ℕ
  pub processing_progress_ttl_seconds : ℕ
  pub lock_retry_base_delay : ℕ
  pub lock_retry_attempts : ℕ

-- Redis with the tracker, how often the clock has been read, and the delays slept, the last first.
pub record Shared (Db : Type 0) : Type 0 where
  pub tracked : Tracked Db
  pub readings : ℕ
  pub slept : List ℕ

module _ (r : Redis) (clock : ℕ → ℕ) where
  abbrev pub on_tracker : (ℕ → Tracked r.Db → Tracked r.Db) → Shared r.Db → Shared r.Db
  on_tracker f s = record s { tracked = f (clock s.readings) s.tracked; readings = suc s.readings }

  abbrev pub on_redis : (ℕ → r.Db → r.Db) → Shared r.Db → Shared r.Db
  on_redis f s = record s {
    tracked = record s.tracked { db = f (clock s.readings) s.tracked.db };
    readings = suc s.readings;
  }

abbrev pub counts : {models : Models} → ℕ → Run models → Counts
counts total run = record {
  total_photos = total;
  processed_photos = run.photos_processed + run.photos_failed;
  failed_photos = run.photos_failed;
  total_faces = run.total_faces;
  embedded_faces = run.total_embedded;
}

module _ (r : Redis) (config : BulkConfig) (clock : ℕ → ℕ) where
  -- One more attempt may follow: sleep, and double the delay up to eight seconds.
  abbrev try_again :
      ℕ
      → ℕ
      → (ℕ → Effect (Shared r.Db) PipelineError Unit)
      → Effect (Shared r.Db) PipelineError Unit
  try_again zero delay again s = (err lock_busy, s)
  try_again (suc n) delay again s =
      again (min (delay * 2) 8000) (record s { slept = delay ∷ s.slept })

  abbrev acquired :
      Bool × r.Db
      → Shared r.Db
      → Effect (Shared r.Db) PipelineError Unit
      → Result PipelineError Unit × Shared r.Db
  acquired (got, db) s otherwise =
      let s' : Shared r.Db = record s {
        tracked = record s.tracked { db = db };
        readings = suc s.readings;
      } in
      if got then (ok tt, s') else otherwise s'

  -- The attempts that are left, and the delay before the next.
  pub attempt_lock : ℕ → ℕ → EventClusteringLock → Effect (Shared r.Db) PipelineError Unit
  unfolding try_again acquired
  attempt_lock zero delay lock s = (err lock_busy, s)
  attempt_lock (suc n) delay lock s =
      let again = try_again n delay (λ later. attempt_lock n later lock) in
      acquired (acquire r (clock s.readings) lock s.tracked.db) s again

  -- `_acquire_pipeline_lock`, with or without a Redis client
  unfoldable pub acquire_pipeline_lock :
      Bool → EventClusteringLock → Effect (Shared r.Db) PipelineError Unit
  unfolding attempt_lock
  acquire_pipeline_lock false lock s = (err lock_error, s)
  acquire_pipeline_lock true lock s =
      attempt_lock config.lock_retry_attempts config.lock_retry_base_delay lock s

  -- One round of `_pulse_pipeline_lock` that was not stopped.
  unfoldable pub pulse : EventClusteringLock → Shared r.Db → Shared r.Db
  pulse lock s =
      on_redis r clock
        (Watch.record_heartbeat r lock.event_id config.processing_progress_ttl_seconds)
        (on_redis r clock (λ t db. (extend r t lock db).1) s)

  unfoldable pub pulse_rounds : ℕ → EventClusteringLock → Shared r.Db → Shared r.Db
  unfolding pulse
  pulse_rounds zero lock s = s
  pulse_rounds (suc n) lock s = pulse_rounds n lock (pulse lock s)

-- The rows of the run beside Redis.
pub record Job (models : Models) (Db : Type 0) : Type 0 where
  pub run : Run models
  pub shared : Shared Db

module _ (r : Redis) (models : Models) (config : BulkConfig) (clock : ℕ → ℕ) where
  -- After the rows of a photo, the lock is extended and the progress published.
  abbrev pub after_photo : EventClusteringLock → ℕ → Run models → Shared r.Db → Shared r.Db
  after_photo lock total run s =
      on_tracker r clock
        (λ t.
          Progress.update r lock.event_id config.processing_progress_ttl_seconds t
            (counts total run) status_processing)
        (on_redis r clock (λ t db. (extend r t lock db).1) s)

  -- The pulse task runs so many rounds meanwhile, by the number of clock readings.
  module _ (pulses : ℕ → ℕ) (lock : EventClusteringLock) where
    -- One round of the loop over the pending photos.
    unfoldable pub handle_photo :
        ℕ → PhotoRow → Result PipelineError models.Bytes → Job models r.Db → Job models r.Db
    unfolding handle_rows pulse_rounds after_photo
    handle_photo total photo image_bytes job =
        let run = handle_rows models config.embedding_batch_size photo image_bytes job.run in
        record {
          run = run;
          shared =
              after_photo lock total run
                (pulse_rounds r config clock (pulses job.shared.readings) lock job.shared);
        }
