-- ===== src/Pipeline/Process.antt =====
-- `process_event_photos` of ml/pipeline.py. The downloads and the clustering are parameters, and so is what
-- `_resolve_upload_models` answers, and what the task of the pulse has raised in the end. The proofs are in the modules below.
pub mod Photos
pub mod Release
pub mod Shown
mod Examples
use event_vision_pipeline.Base.{ℕ, suc, Bool, Option, none, some, List, length}
use event_vision_pipeline.Base.Effect.{Result, ok, err, Effect}
use event_vision_pipeline.Redis.{Redis}
use event_vision_pipeline.Lock.{EventClusteringLock, release}
use event_vision_pipeline.Progress
use event_vision_pipeline.Watch
use event_vision_pipeline.Prefetch.{for_each_prefetched}
use event_vision_pipeline.Pipeline.{PhotoRow, PipelineError, failed, Models, Tables}
use event_vision_pipeline.Pipeline.Bulk.{Run, fresh_run, load_pending_photos, final_flush}
use event_vision_pipeline.Pipeline.Job.{
  BulkConfig, Shared, Job, counts, on_tracker, on_redis, acquire_pipeline_lock, pulse_rounds,
  handle_photo,
}

pub record EventFacePipelineResult (Answer : Type 0) : Type 0 where
  pub event_id : ℕ
  pub photos_processed : ℕ
  pub photos_failed : ℕ
  pub total_faces : ℕ
  pub total_embedded : ℕ
  pub clustering : Answer

-- `run_clustering`, which reads the rows and changes clusters, with its own lock in Redis.
pub record EventClusterer (models : Models) (Db : Type 0) : Type 1 where
  pub Clusters : Type 0
  pub Answer : Type 0
  pub run_clustering : ℕ → Tables models → Effect (Clusters × Db) PipelineError Answer

module _ (r : Redis) (models : Models) (config : BulkConfig) (clock pulses : ℕ → ℕ)
    (lock : EventClusteringLock) (clusterer : EventClusterer models r.Db)
    (ready pulse_end : Result PipelineError Unit)
    (download : PhotoRow → Result PipelineError models.Bytes) where
  abbrev pub Done : Type 0
  Done =
      Result PipelineError (EventFacePipelineResult clusterer.Answer)
      × Job models r.Db
      × clusterer.Clusters

  abbrev with_db : r.Db → Shared r.Db → Shared r.Db
  with_db db s = record s { tracked = record s.tracked { db = db } }

  -- mark_complete after the clustering, or the exception it raised
  abbrev clustered :
      ℕ
      → Run models
      → Shared r.Db
      → Result PipelineError clusterer.Answer × (clusterer.Clusters × r.Db)
      → Done
  clustered total run s (err e, (clusters, db)) =
      (err e, record { run = run; shared = with_db db s }, clusters)
  clustered total run s (ok answer, (clusters, db)) = (
    ok (record {
      event_id = lock.event_id;
      photos_processed = run.photos_processed;
      photos_failed = run.photos_failed;
      total_faces = run.total_faces;
      total_embedded = run.total_embedded;
      clustering = answer;
    }),
    record {
      run = run;
      shared =
          on_tracker r clock
            (λ t.
              Progress.mark_complete r lock.event_id config.processing_progress_ttl_seconds t
                (counts total run))
            (with_db db s);
    },
    clusters,
  )

  -- From the last flush to the end of the try statement.
  pub cluster_event : ℕ → Run models → Shared r.Db → clusterer.Clusters → Done
  cluster_event total run s clusters =
      let s' =
        on_tracker r clock
          (λ t.
            Progress.mark_clustering r lock.event_id config.processing_progress_ttl_seconds t
              (counts total run))
          s in
      let s'' = pulse_rounds r config clock (pulses s'.readings) lock s' in
      clustered total run s''
        (clusterer.run_clustering lock.event_id run.tables (clusters, s''.tracked.db))

  abbrev looped : ℕ → Option (Job models r.Db) → clusterer.Clusters → Job models r.Db → Done
  looped total none clusters job = (err (failed "the loop did not end"), job, clusters)
  looped total (some job) clusters before =
      cluster_event total (final_flush models job.run) job.shared clusters

  abbrev loop_photos : List PhotoRow → Job models r.Db → Option (Job models r.Db)
  loop_photos pending job =
      for_each_prefetched download (handle_photo r models config clock pulses lock (length pending))
        config.download_ahead pending (suc (length pending)) job

  abbrev with_models :
      Result PipelineError Unit → List PhotoRow → Job models r.Db → clusterer.Clusters → Done
  with_models (err e) pending job clusters = (err e, job, clusters)
  with_models (ok _) pending job clusters =
      looped (length pending) (loop_photos pending job) clusters job

  -- The body of the try statement.
  pub process_pending : Tables models → Shared r.Db → clusterer.Clusters → Done
  process_pending t s clusters =
      let pending = load_pending_photos lock.event_id t.photos in
      let s' =
        on_redis r clock
          (Watch.record_heartbeat r lock.event_id config.processing_progress_ttl_seconds) s in
      let s'' =
        on_tracker r clock
          (λ now.
            Progress.start r lock.event_id config.processing_progress_ttl_seconds now
              (length pending))
          s' in
      with_models ready pending (record { run = fresh_run t; shared = s'' }) clusters

  -- `except` and `finally`
  abbrev marked : Done → Done
  marked (ok result, job, clusters) = (ok result, job, clusters)
  marked (err e, job, clusters) = (
    err e,
    record job {
      shared =
          on_tracker r clock
            (λ t. Progress.mark_error r lock.event_id config.processing_progress_ttl_seconds t)
            job.shared;
    },
    clusters,
  )

  -- The task of the pulse is awaited before the lock is released: what it has raised, if it died before
  -- the end, is raised here, and the lock is kept.
  abbrev pub released_after : Result PipelineError Unit → Done → Done
  released_after (err e) (answer, job, clusters) = (err e, job, clusters)
  released_after (ok _) (answer, job, clusters) = (
    answer,
    record job { shared = on_redis r clock (λ t db. release r t lock db) job.shared },
    clusters,
  )

  abbrev pub released : Done → Done
  released done = released_after pulse_end done

  abbrev locked :
      Result PipelineError Unit × Shared r.Db → Tables models → clusterer.Clusters → Done
  locked (err e, s) t clusters = (err e, record { run = fresh_run t; shared = s }, clusters)
  locked (ok _, s) t clusters = released (marked (process_pending t s clusters))

  unfoldable pub process_event_photos :
      Bool → Tables models → Shared r.Db → clusterer.Clusters → Done
  process_event_photos has_redis t s clusters =
      locked (acquire_pipeline_lock r config clock has_redis lock s) t clusters
