-- ===== src/Pipeline/Process/Photos.antt =====
-- The photos and the counters of `process_event_photos` in ml/pipeline.py.
use event_vision_pipeline.Base.{
  ℕ, suc, ◌+◌, ◌<◌, Bool, true, some, List, [], ◌∷◌, ◌≡◌, refl, sym, subst, arith, length,
  occurrences,
}
use event_vision_pipeline.Base.Effect.{Result, ok, err}
use event_vision_pipeline.Redis.{Redis}
use event_vision_pipeline.Lock.{EventClusteringLock}
use event_vision_pipeline.Progress
use event_vision_pipeline.Watch
use event_vision_pipeline.Prefetch.{for_each}
use event_vision_pipeline.Prefetch.Order.{prefetched_in_order}
use event_vision_pipeline.Pipeline.{PhotoRow, PipelineError, Models, Tables}
use event_vision_pipeline.Pipeline.Flush.State.{face_state}
use event_vision_pipeline.Pipeline.Bulk.{
  Run, fresh_run, ids_of, load_pending_photos, handle_rows, final_flush,
}
use event_vision_pipeline.Pipeline.Bulk.Pending.{PrimaryKey, load_pending_lem}
use event_vision_pipeline.Pipeline.Bulk.Finished.{rows_finished}
use event_vision_pipeline.Pipeline.Job.{
  BulkConfig, Shared, Job, counts, on_tracker, on_redis, acquire_pipeline_lock, pulse_rounds,
  handle_photo,
}
use event_vision_pipeline.Pipeline.Process.{
  EventFacePipelineResult, EventClusterer, Done, clustered, cluster_event, looped, loop_photos,
  with_models, process_pending, marked, released, released_after, locked, process_event_photos,
}

-- Each of these photos is marked as processed in the table.
abbrev pub AllProcessed : List PhotoRow → List PhotoRow → Type 0
AllProcessed [] photos = Unit
AllProcessed (p ∷ rest) photos = (face_state p.id photos ≡ some true) × AllProcessed rest photos

all_processed :
    (ps photos : List PhotoRow)
    → ((j : ℕ) → 0 < occurrences j (ids_of ps) → face_state j photos ≡ some true)
    → AllProcessed ps photos
all_processed [] photos h = tt
all_processed (p ∷ rest) photos h =
    (h p.id (ground arith), all_processed rest photos (λ j q. h j (ground arith)))

module _ (r : Redis) (models : Models) (config : BulkConfig) (clock pulses : ℕ → ℕ)
    (lock : EventClusteringLock) (download : PhotoRow → Result PipelineError models.Bytes) where
  -- Redis has no part in what becomes of the rows.
  for_each_run :
      (total : ℕ) (ps : List PhotoRow) (job : Job models r.Db)
      → (for_each download (handle_photo r models config clock pulses lock total) ps job).run
        ≡ for_each download (handle_rows models config.embedding_batch_size) ps job.run
  unfolding handle_photo
  for_each_run total [] job = refl
  for_each_run total (p ∷ rest) job =
      for_each_run total rest
        (handle_photo r models config clock pulses lock total p (download p) job)

module _ (r : Redis) (models : Models) (config : BulkConfig) (clock pulses : ℕ → ℕ)
    (lock : EventClusteringLock) (clusterer : EventClusterer models r.Db)
    (ready pulse_end : Result PipelineError Unit)
    (download : PhotoRow → Result PipelineError models.Bytes) where
  abbrev start : Tables models → Shared r.Db → Job models r.Db
  start t s = record { run = fresh_run t; shared = s }

  -- The run after the last flush.
  abbrev pub finished : List PhotoRow → Tables models → Run models
  finished pending t =
      final_flush models
        (for_each download (handle_rows models config.embedding_batch_size) pending (fresh_run t))

  -- What the answer tells of the run.
  abbrev pub Reports :
      Run models → Result PipelineError (EventFacePipelineResult clusterer.Answer) → Type 0
  Reports run (ok result) =
      (result.photos_processed ≡ run.photos_processed)
      × (result.photos_failed ≡ run.photos_failed)
      × (result.total_faces ≡ run.total_faces)
      × (result.total_embedded ≡ run.total_embedded)
  Reports run (err e) = Unit

  abbrev DoneHere : Type 0
  DoneHere = Done r models config clock pulses lock clusterer ready pulse_end download

  abbrev Does : Run models → DoneHere → Type 0
  Does run done = (done.1.run ≡ run) × Reports run done.0

  clustered_run :
      (total : ℕ) (run : Run models) (s : Shared r.Db)
      (answer : Result PipelineError clusterer.Answer × (clusterer.Clusters × r.Db))
      → Does run (
          clustered r models config clock pulses lock clusterer ready pulse_end download total run s
            answer)
  clustered_run total run s (err e, (clusters, db)) = (refl, tt)
  clustered_run total run s (ok answer, (clusters, db)) = (refl, (refl, refl, refl, refl))

  cluster_event_run :
      (total : ℕ) (run : Run models) (s : Shared r.Db) (clusters : clusterer.Clusters)
      → Does run (
          cluster_event r models config clock pulses lock clusterer ready pulse_end download total
            run s clusters)
  unfolding cluster_event
  cluster_event_run total run s clusters =
      let s' =
        on_tracker r clock
          (λ t.
            Progress.mark_clustering r lock.event_id config.processing_progress_ttl_seconds t
              (counts total run))
          s in
      let s'' = pulse_rounds r config clock (pulses s'.readings) lock s' in
      clustered_run total run s''
        (clusterer.run_clustering lock.event_id run.tables (clusters, s''.tracked.db))

  -- The loop ends, and hands the run on.
  looped_run :
      (pending : List PhotoRow) (t : Tables models) (s : Shared r.Db)
      (clusters : clusterer.Clusters)
      → Does (finished pending t) (
          looped r models config clock pulses lock clusterer ready pulse_end download
            (length pending)
            (loop_photos r models config clock pulses lock clusterer ready pulse_end download
              pending
              (start t s))
            clusters
            (start t s))
  looped_run pending t s clusters =
      let body = handle_photo r models config clock pulses lock (length pending) in
      let ends =
        prefetched_in_order download body config.download_ahead (suc (length pending)) pending
          (start t s) (omega arith) in
      let rows =
        for_each_run r models config clock pulses lock download (length pending) pending
          (start t s) in
      rw ends (
        subst
          (λ (run : Run models). Does (final_flush models run) (
            cluster_event r models config clock pulses lock clusterer ready pulse_end download
              (length pending) (final_flush models (for_each download body pending (start t s)).run)
              (for_each download body pending (start t s)).shared clusters))
          rows
          (cluster_event_run (length pending)
            (final_flush models (for_each download body pending (start t s)).run)
            (for_each download body pending (start t s)).shared clusters))

  with_models_run :
      (pending : List PhotoRow) (t : Tables models) (s : Shared r.Db)
      (clusters : clusterer.Clusters)
      → ready ≡ ok tt
      → Does (finished pending t) (
          with_models r models config clock pulses lock clusterer ready pulse_end download ready
            pending
            (start t s)
            clusters)
  with_models_run pending t s clusters e =
      subst
        (λ (x : Result PipelineError Unit). Does (finished pending t) (
          with_models r models config clock pulses lock clusterer ready pulse_end download x pending
            (start t s) clusters))
        (sym e) (looped_run pending t s clusters)

  released_run :
      (run : Run models) (x : Result PipelineError Unit) (done : DoneHere)
      → Does run done
      → Does run (
          released_after r models config clock pulses lock clusterer ready pulse_end download x
            (marked r models config clock pulses lock clusterer ready pulse_end download done))
  released_run run (ok _) (ok result, job, clusters) d = d
  released_run run (ok _) (err e, job, clusters) d = d
  released_run run (err x) (ok result, job, clusters) (same, reports) = (same, tt)
  released_run run (err x) (err e, job, clusters) (same, reports) = (same, tt)

  abbrev AllDone : Tables models → DoneHere → Type 0
  AllDone t done =
      (done.1.run.photos_processed + done.1.run.photos_failed
        ≡ length (load_pending_photos lock.event_id t.photos))
      × AllProcessed (load_pending_photos lock.event_id t.photos) done.1.run.tables.photos
      × Reports done.1.run done.0

  process_pending_done :
      (t : Tables models) (s : Shared r.Db) (clusters : clusterer.Clusters)
      → PrimaryKey t.photos
      → ready ≡ ok tt
      → AllDone t (
          released r models config clock pulses lock clusterer ready pulse_end download (
            marked r models config clock pulses lock clusterer ready pulse_end download (
              process_pending r models config clock pulses lock clusterer ready pulse_end download t
                s clusters)))
  unfolding process_pending
  process_pending_done t s clusters key e =
      let pending = load_pending_photos lock.event_id t.photos in
      let ttl = config.processing_progress_ttl_seconds in
      let s' = on_redis r clock (Watch.record_heartbeat r lock.event_id ttl) s in
      let s'' =
        on_tracker r clock (λ now. Progress.start r lock.event_id ttl now (length pending)) s' in
      let ran =
        with_models r models config clock pulses lock clusterer ready pulse_end download ready
          pending (start t s'') clusters in
      let (same, reports) =
        released_run (finished pending t) pulse_end ran
          (with_models_run pending t s'' clusters e) in
      let (counted, processed) =
        rows_finished models config.embedding_batch_size download pending t
          (load_pending_lem lock.event_id t.photos key) in
      rw same (counted, all_processed pending (finished pending t).tables.photos processed, reports)

  locked_done :
      (p : Result PipelineError Unit × Shared r.Db) (t : Tables models)
      (clusters : clusterer.Clusters)
      → PrimaryKey t.photos
      → p.0 ≡ ok tt
      → ready ≡ ok tt
      → AllDone t
          (locked r models config clock pulses lock clusterer ready pulse_end download p t clusters)
  locked_done (err x, s) t clusters key got e = cc
  locked_done (ok _, s) t clusters key got e = process_pending_done t s clusters key e

  -- Once the lock is acquired and the models are loaded, and whatever fails on the way (downloads,
  -- detection, a flush, or the clustering at the end): the photos that were processed and those that failed are together as
  -- many as the photos that waited, every photo that waited is marked as processed, and an answer
  -- reports the counters of the run.
  pub photos_all_done :
      (has_redis : Bool) (t : Tables models) (s : Shared r.Db) (clusters : clusterer.Clusters)
      → PrimaryKey t.photos
      → (acquire_pipeline_lock r config clock has_redis lock s).0 ≡ ok tt
      → ready ≡ ok tt
      → let pending = load_pending_photos lock.event_id t.photos in
        let (answer, job, after) =
          process_event_photos r models config clock pulses lock clusterer ready pulse_end download
            has_redis t s clusters in
        (job.run.photos_processed + job.run.photos_failed ≡ length pending)
        × AllProcessed pending job.run.tables.photos
        × Reports job.run answer
  unfolding process_event_photos
  photos_all_done has_redis t s clusters key got e =
      locked_done (acquire_pipeline_lock r config clock has_redis lock s) t clusters key got e
