-- ===== src/Reconciler/Calls.antt =====
-- Rows of calls of the reconciler (services/face_processing_reconciler.py) for one event.
use event_vision_pipeline.Base.{ℕ, Bool, List, [], ◌∷◌, ◌<◌}
use event_vision_pipeline.GpuHost
use event_vision_pipeline.GpuHost.{Cloud}
use event_vision_pipeline.Redis.{Redis}
use event_vision_pipeline.FaceProcessing.{Event, FaceConfig}
use event_vision_pipeline.Reconciler.{Settings, State, reconcile_event}

-- The clock values of the calls, all before `end`.
abbrev pub AllBefore : ℕ → List ℕ → Type 0
AllBefore end [] = Unit
AllBefore end (t ∷ rest) = (t < end) × AllBefore end rest

abbrev pub reconcile_at :
    (r : Redis) (cloud : Cloud) (gpu : GpuHost.Settings) (injected : Bool) (config : FaceConfig)
    (settings : Settings) (event : Event)
    → List ℕ
    → State r cloud gpu injected config settings
    → State r cloud gpu injected config settings
reconcile_at r cloud gpu injected config settings event [] s = s
reconcile_at r cloud gpu injected config settings event (t ∷ rest) s =
    reconcile_at r cloud gpu injected config settings event rest
      (reconcile_event r cloud gpu injected config settings t event s).1
