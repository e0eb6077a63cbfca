-- ===== src/Reconciler/Examples.antt =====
-- The reconciler on a concrete event, with the server in memory and a machine that runs.
use event_vision_pipeline.Base.{ℕ, true, false, none, some, List, [], ◌∷◌, ◌≡◌, refl, ◌⊎◌, arith}
use event_vision_pipeline.Base.Effect.{ok}
use event_vision_pipeline.Redis.{token, watch, face_watch, face_pipeline_lock}
use event_vision_pipeline.Redis.Memory.{memory, empty, write, Store}
use event_vision_pipeline.GpuHost
use event_vision_pipeline.GpuHost.{Cloud, running}
use event_vision_pipeline.FaceProcessing.{
  pending_face_photo_count, Event, FaceConfig, processing, uploading, pipeline_lock_held,
}
use event_vision_pipeline.Watch
use event_vision_pipeline.Watch.{is_stalled, has_fresh_heartbeat}
use event_vision_pipeline.Reconciler.{
  Settings, State, reconcile_event, reverted, put_redis, stall_after, heartbeat_fresh_after,
}
use event_vision_pipeline.Reconciler.Requeue.{requeue_debounced, no_requeue_under_lock}
use event_vision_pipeline.Reconciler.Revert.{
  Tick, heartbeat, reconcile, run, AllLeaveEvent, lively_never_reverted,
}
use event_vision_pipeline.Reconciler.Once.{reverted_once}
use event_vision_pipeline.Reconciler.Calls.{reconcile_at}

-- A machine that always runs, without work of its own.
abbrev cloud : Cloud
cloud = record {
  World = Unit;
  describe_instances = λ w. (ok (some running), w);
  start_instances = λ w. (ok tt, w);
  stop_instances = λ w. (ok tt, w);
  wait_until_stopped = λ w. (ok tt, w);
  wait_until_running = λ w. (ok tt, w);
  pipeline_lock_pages = λ w. [];
  clustering_lock_pages = λ w. [];
  queue_length = λ w. 0;
}

abbrev gpu : GpuHost.Settings
gpu = record {
  gpu_instance_id = "i-0123456789abcdef0";
  aws_compute_access_key_id = "";
  aws_compute_secret_access_key = "";
  gpu_idle_stop_minutes = 15;
}

abbrev config : FaceConfig
config = record { face_processing_enabled = true; processing_progress_ttl_seconds = 86400 }

-- The defaults of config.py.
abbrev settings : Settings
settings = record {
  face_processing_stall_minutes = 30;
  face_processing_heartbeat_fresh_seconds = 180;
  face_processing_requeue_seconds = 300;
}

abbrev event : Event
event = record {
  id = 7;
  status = processing;
  total_photos = 3;
  total_faces = 0;
  updated_at = some 1000000;
}

abbrev shared : Store → State memory cloud gpu true config settings
shared db = record {
  app = record {
    redis = db;
    photos = record { event_id = 7; faces_processed = false } ∷ [];
    face_jobs = [];
    gpu_jobs = 0;
  };
  world = tt;
  alerts = [];
}

-- The watch of a job that started at 1 s and was last heard of at 2 s.
abbrev watched : Store
watched =
    write (face_watch 7)
      (some (record { value = watch (some 1000000) (some 2000000); expires = some 86402000000 }))
      empty

abbrev locked : Store
locked =
    write (face_pipeline_lock 7) (some (record { value = token 1; expires = some 600000000 }))
      watched

-- Three calls before the debounce time that starts at 300 s is over.
abbrev soon : List ℕ
soon = 360000000 ∷ 420000000 ∷ 480000000 ∷ []

requeue_debounced_example :
    let t =
      (reconcile_event memory cloud gpu true config settings 300000000 event (shared watched)).1 in
    (t.app.face_jobs ≡ [])
    ⊎ ((t.app.face_jobs ≡ 7 ∷ [])
        × ((reconcile_at memory cloud gpu true config settings event soon t).app.face_jobs
            ≡ t.app.face_jobs))
requeue_debounced_example =
    requeue_debounced memory cloud gpu true config settings event 300000000 soon (shared watched)
      (omega arith, (omega arith, (omega arith, tt)))

no_requeue_under_lock_example :
    (reconcile_event memory cloud gpu true config settings 300000000 event
      (shared locked)).1.app.face_jobs
    ≡ []
unfolding pipeline_lock_held
no_requeue_under_lock_example =
    no_requeue_under_lock memory cloud gpu true config settings event 300000000 (shared locked) refl

-- Half an hour apart at most: heartbeats at 20 and 40 minutes, and three calls.
abbrev lively : List Tick
lively =
    reconcile 600000000
    ∷ heartbeat 1200000000
    ∷ reconcile 2400000000
    ∷ heartbeat 2400000000
    ∷ reconcile 3600000000
    ∷ []

lively_never_reverted_example :
    let started =
      put_redis memory cloud gpu true config settings
        (shared empty)
        (Watch.mark_started memory 7 86400 0 none empty) in
    AllLeaveEvent memory cloud gpu true config settings event lively started
    × ((run memory cloud gpu true config settings event lively started).alerts ≡ [])
unfolding stall_after
lively_never_reverted_example =
    lively_never_reverted memory cloud gpu true config settings event 0 lively (shared empty) (
      omega arith,
      omega arith,
      (
        omega arith,
        omega arith,
        (omega arith, omega arith, (omega arith, omega arith, (omega arith, omega arith, tt))),
      ),
    )

reverted_once_example :
    let first =
      reconcile_event memory cloud gpu true config settings 3600000000 event (shared watched) in
    (first.0 ≡ ok (reverted, record event { status = uploading }))
    × (first.1.alerts ≡ 7 ∷ [])
    × ((reconcile_at memory cloud gpu true config settings event
          (3700000000 ∷ 3800000000 ∷ [])
          first.1).alerts
        ≡ 7 ∷ [])
unfolding is_stalled has_fresh_heartbeat stall_after heartbeat_fresh_after pending_face_photo_count
reverted_once_example =
    reverted_once memory cloud gpu true config settings event 3600000000 86402000000 1000000
      86402000000 (some 2000000) (3700000000 ∷ 3800000000 ∷ []) (shared watched) refl refl
      (omega arith) (omega arith) (omega arith) refl refl refl (omega arith, (omega arith, tt))
