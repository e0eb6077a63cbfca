-- ===== src/Reconciler/Gpu.antt =====
-- The GPU host as the reconciler starts it (`_recover`): what stays of the shared state.
use event_vision_pipeline.Base.{Bool, true, false, ◌≡◌, refl, inl, inr}
use event_vision_pipeline.Base.Effect.{Result, ok, err, after, pure}
use event_vision_pipeline.Redis.{Redis, Key, gpu_idle_since, same_key, redis_laws}
use event_vision_pipeline.GpuHost
use event_vision_pipeline.GpuHost.{Cloud, GpuError, Host}
use event_vision_pipeline.GpuHost.Frame.{is_reachable_db, ensure_running-OnlyClears}
use event_vision_pipeline.GpuHost.Idle.{OnlyClears}
use event_vision_pipeline.FaceProcessing.{FaceConfig}
use event_vision_pipeline.Reconciler.{Settings, State, with_gpu, start_gpu}

after-pure_state :
    {S : Type 0} {A B E : Type 0} (p : Result E A × S) (b : B)
    → (after p (λ _. pure {E = E} b)).1 ≡ p.1
after-pure_state (ok a, s) b = refl
after-pure_state (err e, s) b = refl

module _ (r : Redis) (cloud : Cloud) (gpu : GpuHost.Settings) (injected : Bool)
    (config : FaceConfig) (settings : Settings) where
  abbrev S : Type 0
  S = State r cloud gpu injected config settings

  -- Queues, alerts and photos are as before, and so is every key but that of the idle timer.
  pub record SameBut (s t : S) : Type 0 where
    pub face_jobs : t.app.face_jobs ≡ s.app.face_jobs
    pub photos : t.app.photos ≡ s.app.photos
    pub alerts : t.alerts ≡ s.alerts
    pub entries :
        (k : Key)
        → same_key gpu_idle_since k ≡ false
        → r.entry t.app.redis k ≡ r.entry s.app.redis k

  pub reach-SameBut :
      (s : S)
      → SameBut s
          (with_gpu r cloud gpu injected config settings
            (GpuHost.is_reachable r cloud gpu injected)
            s).1
  unfolding with_gpu
  reach-SameBut s = record {
    face_jobs = refl;
    photos = refl;
    alerts = refl;
    entries = λ k d. rw (is_reachable_db r cloud gpu injected);
  }

  OnlyClears-entry :
      (db db' : r.Db) (k : Key)
      → OnlyClears r cloud gpu injected db db'
      → same_key gpu_idle_since k ≡ false
      → r.entry db' k ≡ r.entry db k
  OnlyClears-entry db db' k (inl e) d = rw e
  OnlyClears-entry db db' k (inr e) d = rw e (simp redis_laws (rw d))

  pub start_gpu-SameBut : (s : S) → SameBut s (start_gpu r cloud gpu injected config settings s).1
  unfolding start_gpu
  start_gpu-SameBut s =
      rw
        (after-pure_state
          (with_gpu r cloud gpu injected config settings
            (GpuHost.ensure_running r cloud gpu injected) s)
          true)
        (record {
          face_jobs = refl;
          photos = refl;
          alerts = refl;
          entries = λ k d.
              OnlyClears-entry s.app.redis _ k
                (ensure_running-OnlyClears r cloud gpu injected
                  (record { world = s.world; db = s.app.redis }))
                d;
        })
