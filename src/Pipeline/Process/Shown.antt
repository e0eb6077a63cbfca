-- ===== src/Pipeline/Process/Shown.antt =====
-- The progress that a finished run of `process_event_photos` in ml/pipeline.py leaves for the dashboard.
use event_vision_pipeline.Base.{
  ℕ, suc, ◌+◌, ◌-◌, ◌<◌, String, Bool, false, Option, none, some, List, ◌≡◌, refl, sym, ap, subst,
  ◌∙◌, inl, inr, arith, length, Bool-cases,
}
use event_vision_pipeline.Base.Effect.{Result, ok, err}
use event_vision_pipeline.Redis.{Redis, same_key, processing, seconds, live, value_of}
use event_vision_pipeline.Lock.{
  LockKind, clustering, face_pipeline, lock_key, EventClusteringLock, key_of, token_matches,
  release,
}
use event_vision_pipeline.Progress
use event_vision_pipeline.Watch
use event_vision_pipeline.Progress.{Tracked, Counts, status_complete, parse_progress, eta_seconds}
use event_vision_pipeline.Progress.Counters.{snapshot, read-write}
use event_vision_pipeline.Pipeline.{PhotoRow, PipelineError, Models, Tables}
use event_vision_pipeline.Pipeline.Bulk.{Run, fresh_run, load_pending_photos, final_flush}
use event_vision_pipeline.Pipeline.Bulk.Pending.{PrimaryKey}
use event_vision_pipeline.Pipeline.Job.{
  BulkConfig, Shared, Job, counts, on_tracker, on_redis, acquire_pipeline_lock, pulse_rounds,
}
use event_vision_pipeline.Pipeline.Process.Photos.{photos_all_done, Reports}
use event_vision_pipeline.Pipeline.Process.{
  EventFacePipelineResult, EventClusterer, Done, with_db, clustered, cluster_event, looped,
  loop_photos, with_models, process_pending, marked, released_after, locked, process_event_photos,
}

lock_key_differs : (kind : LockKind) (a b : ℕ) → same_key (lock_key kind a) (processing b) ≡ false
lock_key_differs clustering a b = refl
lock_key_differs face_pipeline a b = refl

module _ (r : Redis) (event_id ttl : ℕ) where
  release_other :
      (now : ℕ) (lock : EventClusteringLock) (db : r.Db)
      → r.entry (release r now lock db) (processing event_id) ≡ r.entry db (processing event_id)
  unfolding release
  release_other now lock db =
      elim (Bool-cases (token_matches (r.get now (key_of lock) db) lock.own_token)) [
        | inl mine ↦
            rw mine
              (rw r.entry_delete (rw (lock_key_differs lock.kind lock.event_id event_id) refl))
        | inr other ↦ rw other refl
      ]

  read-release :
      (now u : ℕ) (lock : EventClusteringLock) (db : r.Db)
      → Progress.read r event_id ttl u (release r now lock db) ≡ Progress.read r event_id ttl u db
  unfolding Progress.read
  read-release now u lock db =
      let k = processing event_id in
      let same =
        r.get_live u k (release r now lock db)
        ∙ ap (λ e. value_of (live u e)) (release_other now lock db)
        ∙ sym (r.get_live u k db) in
      ap (λ v. parse_progress v) same

  -- What a reader sees at a time, up to the start and the estimate.
  abbrev pub Shows : ℕ → r.Db → Counts → String → Type 0
  Shows u db c status =
      (started : ℕ) × (eta : Option ℕ) × (Progress.read r event_id ttl u db
        ≡ some (snapshot c status started eta))

  mark_complete-Shows :
      (now u : ℕ) (c : Counts) (t : Tracked r.Db)
      → u < now + seconds ttl
      → Shows u (Progress.mark_complete r event_id ttl now c t).db c status_complete
  unfolding Progress.mark_complete Progress.update
  mark_complete-Shows now u c t h = (_, _, read-write r event_id ttl now u c status_complete _ t h)

module _ (r : Redis) (models : Models) (config : BulkConfig) (clock pulses : ℕ → ℕ)
    (lock : EventClusteringLock) (clusterer : EventClusterer models r.Db)
    (ready pulse_end : Result PipelineError Unit)
    (download : PhotoRow → Result PipelineError models.Bytes) where
  abbrev DoneHere : Type 0
  DoneHere = Done r models config clock pulses lock clusterer ready pulse_end download

  abbrev ttl : ℕ
  ttl = config.processing_progress_ttl_seconds

  -- So many calls of Redis after the last write of the progress.
  abbrev Completed : ℕ → ℕ → ℕ → DoneHere → Type 0
  Completed later u total done =
      (result : EventFacePipelineResult clusterer.Answer)
      → done.0 ≡ ok result
      → u < clock (done.1.shared.readings - suc later) + seconds ttl
      → Shows r lock.event_id ttl u done.1.shared.tracked.db (counts total done.1.run)
          status_complete

  clustered-Completed :
      (u total : ℕ) (run : Run models) (s : Shared r.Db)
      (answer : Result PipelineError clusterer.Answer × (clusterer.Clusters × r.Db))
      → Completed 0 u total (
          clustered r models config clock pulses lock clusterer ready pulse_end download total run s
            answer)
  clustered-Completed u total run s (err e, (clusters, db)) result q h = cc
  clustered-Completed u total run s (ok answer, (clusters, db)) result q h =
      let same : suc s.readings - 1 ≡ s.readings = omega arith in
      mark_complete-Shows r lock.event_id ttl (clock s.readings) u (counts total run)
        (with_db r models config clock pulses lock clusterer ready pulse_end download db s).tracked
        (subst (λ (n : ℕ). u < clock n + seconds ttl) same h)

  looped-Completed :
      (u total : ℕ) (o : Option (Job models r.Db)) (clusters : clusterer.Clusters)
      (job : Job models r.Db)
      → Completed 0 u total (
          looped r models config clock pulses lock clusterer ready pulse_end download total o
            clusters job)
  unfolding cluster_event
  looped-Completed u total none clusters job result q h = cc
  looped-Completed u total (some job) clusters before result q h =
      let run = final_flush models job.run in
      let s' =
        on_tracker r clock (λ t. Progress.mark_clustering r lock.event_id ttl t (counts total run))
          job.shared in
      let s'' = pulse_rounds r config clock (pulses s'.readings) lock s' in
      clustered-Completed u total run s''
        (clusterer.run_clustering lock.event_id run.tables (clusters, s''.tracked.db)) result q h

  with_models-Completed :
      (u : ℕ) (x : Result PipelineError Unit) (pending : List PhotoRow) (job : Job models r.Db)
      (clusters : clusterer.Clusters)
      → Completed 0 u (length pending) (
          with_models r models config clock pulses lock clusterer ready pulse_end download x pending
            job clusters)
  with_models-Completed u (err e) pending job clusters result q h = cc
  with_models-Completed u (ok _) pending job clusters result q h =
      looped-Completed u (length pending)
        (loop_photos r models config clock pulses lock clusterer ready pulse_end download pending
          job)
        clusters job result q h

  released-Completed :
      (u total : ℕ) (x : Result PipelineError Unit) (done : DoneHere)
      → Completed 0 u total done
      → Completed 1 u total (
          released_after r models config clock pulses lock clusterer ready pulse_end download x
            (marked r models config clock pulses lock clusterer ready pulse_end download done))
  released-Completed u total (err y) (err e, job, clusters) c result q h = cc
  released-Completed u total (err y) (ok z, job, clusters) c result q h = cc
  released-Completed u total (ok _) (err e, job, clusters) c result q h = cc
  released-Completed u total (ok _) (ok x, job, clusters) c result q h =
      let n = job.shared.readings in
      let same : suc n - 2 ≡ n - 1 = omega arith in
      let (started, eta, shown) = c x refl (subst (λ (m : ℕ). u < clock m + seconds ttl) same h) in
      (
        started,
        eta,
        read-release r lock.event_id ttl (clock n) u lock job.shared.tracked.db ∙ shown,
      )

  locked-Completed :
      (u : ℕ) (p : Result PipelineError Unit × Shared r.Db) (t : Tables models)
      (clusters : clusterer.Clusters)
      → Completed 1 u
          (length (load_pending_photos lock.event_id t.photos))
          (locked r models config clock pulses lock clusterer ready pulse_end download p t clusters)
  unfolding process_pending
  locked-Completed u (err e, s) t clusters result q h = cc
  locked-Completed u (ok _, s) t clusters result q h =
      let pending = load_pending_photos lock.event_id t.photos in
      let s' = on_redis r clock (Watch.record_heartbeat r lock.event_id ttl) s in
      let s'' =
        on_tracker r clock (λ now. Progress.start r lock.event_id ttl now (length pending)) s' in
      released-Completed u (length pending) pulse_end
        (process_pending r models config clock pulses lock clusterer ready pulse_end download t s
          clusters)
        (with_models-Completed u ready pending (record { run = fresh_run t; shared = s'' })
          clusters)
        result q h

  told_counts :
      (run : Run models) (result : EventFacePipelineResult clusterer.Answer) (total : ℕ)
      → run.photos_processed + run.photos_failed ≡ total
      → Reports r models config clock pulses lock clusterer ready pulse_end download run (ok result)
      → counts total run ≡ record {
        total_photos = total;
        processed_photos = total;
        failed_photos = result.photos_failed;
        total_faces = result.total_faces;
        embedded_faces = result.total_embedded;
      }
  told_counts run result total done told = ground arith

  -- Where the run answers with a result, and until the time to live of its last write is over, the
  -- dashboard reads the status "complete" and the counters of the result, with as many photos done as
  -- there were waiting.
  pub complete_is_shown :
      (has_redis : Bool) (t : Tables models) (s : Shared r.Db) (clusters : clusterer.Clusters)
      (result : EventFacePipelineResult clusterer.Answer) (u : ℕ)
      → PrimaryKey t.photos
      → (acquire_pipeline_lock r config clock has_redis lock s).0 ≡ ok tt
      → ready ≡ ok tt
      → (process_event_photos r models config clock pulses lock clusterer ready pulse_end download
          has_redis t s clusters).0
        ≡ ok result
      → u
        < clock (
            (process_event_photos r models config clock pulses lock clusterer ready pulse_end
              download has_redis t s clusters).1.shared.readings
            - 2)
          + seconds ttl
      → let total = length (load_pending_photos lock.event_id t.photos) in
        let (answer, job, after) =
          process_event_photos r models config clock pulses lock clusterer ready pulse_end download
            has_redis t s clusters in
        Shows r lock.event_id ttl u job.shared.tracked.db
          (record {
            total_photos = total;
            processed_photos = total;
            failed_photos = result.photos_failed;
            total_faces = result.total_faces;
            embedded_faces = result.total_embedded;
          })
          status_complete
  unfolding process_event_photos
  complete_is_shown has_redis t s clusters result u key got loaded e h =
      let p = acquire_pipeline_lock r config clock has_redis lock s in
      let (done, processed, reports) =
        photos_all_done r models config clock pulses lock clusterer ready pulse_end download
          has_redis t s clusters key got loaded in
      let shown = locked-Completed u p t clusters result e h in
      let done_run =
        (process_event_photos r models config clock pulses lock clusterer ready pulse_end download
          has_redis t s clusters).1.run in
      let told =
        subst
          (λ (a : Result PipelineError (EventFacePipelineResult clusterer.Answer)).
            Reports r models config clock pulses lock clusterer ready pulse_end download done_run a)
          e reports in
      subst
        (λ (c : Counts).
          Shows r lock.event_id ttl u
            (process_event_photos r models config clock pulses lock clusterer ready pulse_end
              download has_redis t s clusters).1.shared.tracked.db
            c status_complete)
        (told_counts done_run result (length (load_pending_photos lock.event_id t.photos)) done
          told)
        shown
