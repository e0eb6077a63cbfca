-- ===== src/Reconciler.antt =====
-- services/face_processing_reconciler.py: events that stay in processing are kept moving, or are given
-- back to the photographer after a stall. One clock value serves a whole call. The proofs are in the
-- modules below.
pub mod Gpu
mod Rule
pub mod Answers
pub mod Calls
pub mod Requeue
pub mod Revert
mod GivenUp
pub mod Once
mod Examples
use event_vision_pipeline.Base.{
  ℕ, ◌*◌, Bool, true, false, Option, none, some, List, [], ◌∷◌, max, if◌then◌else◌,
}
use event_vision_pipeline.Base.Effect.{Result, ok, err, Effect, pure, ◌>>=◌, ◌>>◌}
use event_vision_pipeline.Redis.{Redis, seconds}
use event_vision_pipeline.GpuHost
use event_vision_pipeline.GpuHost.{Cloud, Host, GpuError}
use event_vision_pipeline.Watch
use event_vision_pipeline.Watch.{FaceProcessingWatchSnapshot, is_stalled, has_fresh_heartbeat}
use event_vision_pipeline.FaceProcessing.{
  Event, FaceConfig, App, is_processing, pipeline_lock_held, revert_stalled_processing,
}

pub record Settings : Type 0 where
  pub face_processing_stall_minutes : ℕ
  pub face_processing_heartbeat_fresh_seconds : ℕ
  pub face_processing_requeue_seconds : ℕ

-- The action labels.
pub data Action : Type 0 where
  skipped healthy gpu_started requeued recovered reverted waiting_lock waiting_requeue : Action

-- The app's state, the cloud, and the events that an alert was sent for, newest first.
pub record Shared (World Db : Type 0) : Type 0 where
  pub app : App Db
  pub world : World
  pub alerts : List ℕ

unfoldable pub stall_after : Settings → ℕ
stall_after settings = seconds (max 1 settings.face_processing_stall_minutes * 60)

unfoldable pub heartbeat_fresh_after : Settings → ℕ
heartbeat_fresh_after settings = seconds (max 60 settings.face_processing_heartbeat_fresh_seconds)

module _ (r : Redis) (cloud : Cloud) (gpu : GpuHost.Settings) (injected : Bool)
    (config : FaceConfig) (settings : Settings) where
  abbrev pub State : Type 0
  State = Shared cloud.World r.Db

  abbrev pub Method : Type 0 → Type 0
  Method A = Effect State GpuError A

  -- A call of the GPU service on the shared state.
  abbrev pub put_host :
      {A : Type 0} → State → Result GpuError A × Host cloud.World r.Db → Result GpuError A × State
  put_host s (x, h) = (x, record s { world = h.world; app = record s.app { redis = h.db } })

  pub with_gpu : {A : Type 0} → Effect (Host cloud.World r.Db) GpuError A → Method A
  with_gpu m s = put_host s (m (record { world = s.world; db = s.app.redis }))

  pub put_redis : State → r.Db → State
  put_redis s db = record s { app = record s.app { redis = db } }

  -- The label of a tick that could not take the job up, and of one that did.
  abbrev pub idle_label : Bool → Action → Action
  idle_label true _ = gpu_started
  idle_label false label = label

  abbrev pub busy_label : Bool → Action
  busy_label true = recovered
  busy_label false = requeued

  -- The rest of `_recover`; `started` says whether the GPU was started.
  pub requeue : ℕ → Event → Bool → Method Action
  unfolding put_redis
  requeue now event started s =
      if pipeline_lock_held r config now event.id s.app.redis
      then (ok (idle_label started waiting_lock), s)
      else (let (marked, db) =
            Watch.try_mark_requeued r event.id config.processing_progress_ttl_seconds now
              settings.face_processing_requeue_seconds s.app.redis in
          if marked
          then (
            ok (busy_label started),
            record s { app = record s.app { redis = db; face_jobs = event.id ∷ s.app.face_jobs } },
          )
          else (ok (idle_label started waiting_requeue), put_redis s db))

  pub start_gpu : Method Bool
  unfolding with_gpu
  start_gpu = do status ← with_gpu (GpuHost.ensure_running r cloud gpu injected); pure true

  pub recover : ℕ → Event → Method Action
  unfolding with_gpu start_gpu requeue
  recover now event = do
    reachable ← with_gpu (GpuHost.is_reachable r cloud gpu injected)
    started ← if reachable then pure false else start_gpu
    requeue now event started

  -- `_give_up`, with the event that it leaves.
  pub give_up : ℕ → Event → Method (Action × Event)
  unfolding put_redis
  give_up now event s =
      let (claimed, db) =
        Watch.try_begin_give_up r event.id config.processing_progress_ttl_seconds now s.app.redis in
      if claimed
      then (let (event', app) =
            revert_stalled_processing r config now event (record s.app { redis = db }) in
          (ok (reverted, event'), record s { app = app; alerts = event.id ∷ s.alerts }))
      else (ok (skipped, event), put_redis s db)

  pub judge : ℕ → Event → FaceProcessingWatchSnapshot → Method (Action × Event)
  unfolding give_up recover
  judge now event snapshot =
      if has_fresh_heartbeat snapshot (heartbeat_fresh_after settings) now
      then pure (healthy, event)
      else if is_stalled snapshot (stall_after settings) now
      then give_up now event
      else do action ← recover now event; pure (action, event)

  pub judge_found : ℕ → Event → Option FaceProcessingWatchSnapshot → Method (Action × Event)
  unfolding judge
  judge_found now event none = pure (skipped, event)
  judge_found now event (some snapshot) = judge now event snapshot

  pub read_watch : ℕ → Event → State → Option FaceProcessingWatchSnapshot
  read_watch now event s =
      Watch.read r event.id config.processing_progress_ttl_seconds now s.app.redis

  -- Where there is no watch: a worker that holds the lock is trusted, else the watch is begun anew.
  pub begin_watch : ℕ → Event → Method (Action × Event)
  unfolding put_redis read_watch judge_found
  begin_watch now event s =
      if pipeline_lock_held r config now event.id s.app.redis
      then (ok (healthy, event), s)
      else (let s' = put_redis s (
            Watch.mark_started r event.id config.processing_progress_ttl_seconds now
              (some (Watch.or_now now event.updated_at)) s.app.redis) in
          judge_found now event (read_watch now event s') s')

  pub on_snapshot : ℕ → Event → Option FaceProcessingWatchSnapshot → Method (Action × Event)
  unfolding begin_watch judge
  on_snapshot now event none = begin_watch now event
  on_snapshot now event (some snapshot) = judge now event snapshot

  unfoldable pub reconcile_event : ℕ → Event → Method (Action × Event)
  unfolding on_snapshot read_watch
  reconcile_event now event s =
      if is_processing event.status
      then on_snapshot now event (read_watch now event s) s
      else (ok (skipped, event), s)

  -- All events that are still in processing, each with its own call.
  unfoldable pub reconcile_all : ℕ → List Event → Method (List (Action × Event))
  unfolding reconcile_event
  reconcile_all now [] = pure []
  reconcile_all now (event ∷ rest) = do
    first ← reconcile_event now event
    others ← reconcile_all now rest
    pure (first ∷ others)
