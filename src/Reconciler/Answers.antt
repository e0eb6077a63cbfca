-- ===== src/Reconciler/Answers.antt =====
-- What `reconcile_event` (services/face_processing_reconciler.py) answers where no alert is sent.
use event_vision_pipeline.Base.{
  ℕ, Bool, true, false, Option, none, some, List, ◌∷◌, ◌≡◌, ◌≢◌, refl, ap, inl, inr, arith, length,
  if◌then◌else◌, Bool-cases,
}
use event_vision_pipeline.Base.Effect.{Result, ok, err, after, pure}
use event_vision_pipeline.Redis.{Redis}
use event_vision_pipeline.GpuHost
use event_vision_pipeline.GpuHost.{Cloud, GpuError}
use event_vision_pipeline.Watch
use event_vision_pipeline.Watch.{FaceProcessingWatchSnapshot, is_stalled, has_fresh_heartbeat}
use event_vision_pipeline.FaceProcessing.{Event, FaceConfig, is_processing, pipeline_lock_held}
use event_vision_pipeline.Reconciler.{
  Settings, State, Action, reverted, with_gpu, start_gpu, idle_label, busy_label, requeue, recover,
  give_up, judge, judge_found, on_snapshot, reconcile_event, stall_after, heartbeat_fresh_after,
}

-- The answer is not `reverted`, and the event is as it was.
abbrev pub LeavesEvent : Event → Result GpuError (Action × Event) → Type 0
LeavesEvent event (ok (action, event')) = (action ≢ reverted) × (event' ≡ event)
LeavesEvent event (err e) = Unit

abbrev NotReverted : Result GpuError Action → Type 0
NotReverted (ok action) = action ≢ reverted
NotReverted (err e) = Unit

longer : (x : ℕ) (xs : List ℕ) → (x ∷ xs) ≢ xs
longer x xs e = let counted = ap (λ (l : List ℕ). length l) e in absurd (omega arith)

module _ (r : Redis) (cloud : Cloud) (gpu : GpuHost.Settings) (injected : Bool)
    (config : FaceConfig) (settings : Settings) (now : ℕ) (event : Event) where
  abbrev S : Type 0
  S = State r cloud gpu injected config settings

  idle_label_lem :
      (b : Bool) (label : Action)
      → label ≢ reverted
      → idle_label r cloud gpu injected config settings b label ≢ reverted
  idle_label_lem true label n e = cc
  idle_label_lem false label n e = n e

  busy_label_lem : (b : Bool) → busy_label r cloud gpu injected config settings b ≢ reverted
  busy_label_lem true e = cc
  busy_label_lem false e = cc

  requeue_answer :
      (started : Bool) (s : S)
      → NotReverted (requeue r cloud gpu injected config settings now event started s).0
  unfolding requeue
  requeue_answer started s =
      let marked =
        Watch.try_mark_requeued r event.id config.processing_progress_ttl_seconds now
          settings.face_processing_requeue_seconds s.app.redis in
      elim (Bool-cases (pipeline_lock_held r config now event.id s.app.redis)) [
        | inl e ↦ rw e (idle_label_lem started _ (λ f. cc))
        | inr e ↦ rw e (elim (Bool-cases marked.0) [
          | inl m ↦ rw m (busy_label_lem started)
          | inr m ↦ rw m (idle_label_lem started _ (λ f. cc))
        ])
      ]

  after_start_answer :
      (x : Result GpuError Bool) (t : S)
      → NotReverted (after (x, t) (requeue r cloud gpu injected config settings now event)).0
  after_start_answer (ok started) t = requeue_answer started t
  after_start_answer (err e) t = tt

  after_reach_answer :
      (x : Result GpuError Bool) (t : S)
      → NotReverted
          (after
            (x, t)
            (λ reachable u.
              after
                ((if reachable then pure false else start_gpu r cloud gpu injected config settings)
                  u)
                (requeue r cloud gpu injected config settings now event))).0
  after_reach_answer (ok true) t = requeue_answer false t
  after_reach_answer (ok false) t =
      after_start_answer (start_gpu r cloud gpu injected config settings t).0
        (start_gpu r cloud gpu injected config settings t).1
  after_reach_answer (err e) t = tt

  recover_answer :
      (s : S) → NotReverted (recover r cloud gpu injected config settings now event s).0
  unfolding recover
  recover_answer s =
      let t =
        with_gpu r cloud gpu injected config settings (GpuHost.is_reachable r cloud gpu injected)
          s in
      after_reach_answer t.0 t.1

  after_recover_answer :
      (x : Result GpuError Action) (t : S)
      → NotReverted x
      → LeavesEvent event (after {B = Action × Event} (x, t) (λ action. pure (action, event))).0
  after_recover_answer (ok a) t n = (n, refl)
  after_recover_answer (err e) t n = tt

  -- A call that sends no alert.
  abbrev Silent : S → Result GpuError (Action × Event) × S → Type 0
  Silent s (x, t) = t.alerts ≡ s.alerts

  give_up_answer :
      (s : S)
      → Silent s (give_up r cloud gpu injected config settings now event s)
      → LeavesEvent event (give_up r cloud gpu injected config settings now event s).0
  unfolding give_up
  give_up_answer s silent =
      let claimed =
        Watch.try_begin_give_up r event.id config.processing_progress_ttl_seconds now s.app.redis in
      elim (Bool-cases claimed.0) [
        | inl c ↦ absurd (longer event.id s.alerts (rw c at silent))
        | inr c ↦ rw c ((λ e. cc), refl)
      ]

  judge_answer :
      (snapshot : FaceProcessingWatchSnapshot) (s : S)
      → Silent s (judge r cloud gpu injected config settings now event snapshot s)
      → LeavesEvent event (judge r cloud gpu injected config settings now event snapshot s).0
  unfolding judge
  judge_answer snapshot s silent =
      elim (Bool-cases (has_fresh_heartbeat snapshot (heartbeat_fresh_after settings) now)) [
        | inl e ↦ rw e ((λ f. cc), refl)
        | inr e ↦ elim (Bool-cases (is_stalled snapshot (stall_after settings) now)) [
          | inl f ↦ rw (e, f) (give_up_answer s (rw (e, f) at silent))
          | inr f ↦
              rw (e, f)
                (after_recover_answer (recover r cloud gpu injected config settings now event s).0
                  (recover r cloud gpu injected config settings now event s).1 (recover_answer s))
        ]
      ]

  judge_found_answer :
      (o : Option FaceProcessingWatchSnapshot) (s : S)
      → Silent s (judge_found r cloud gpu injected config settings now event o s)
      → LeavesEvent event (judge_found r cloud gpu injected config settings now event o s).0
  unfolding judge_found
  judge_found_answer none s silent = ((λ f. cc), refl)
  judge_found_answer (some snapshot) s silent = judge_answer snapshot s silent

  on_snapshot_answer :
      (o : Option FaceProcessingWatchSnapshot) (s : S)
      → Silent s (on_snapshot r cloud gpu injected config settings now event o s)
      → LeavesEvent event (on_snapshot r cloud gpu injected config settings now event o s).0
  unfolding on_snapshot
  on_snapshot_answer (some snapshot) s silent = judge_answer snapshot s silent
  on_snapshot_answer none s silent =
      elim (Bool-cases (pipeline_lock_held r config now event.id s.app.redis)) [
        | inl e ↦ rw e ((λ f. cc), refl)
        | inr e ↦ rw e (judge_found_answer _ _ (rw e at silent))
      ]

  pub reconcile_event_answer :
      (s : S)
      → (reconcile_event r cloud gpu injected config settings now event s).1.alerts ≡ s.alerts
      → LeavesEvent event (reconcile_event r cloud gpu injected config settings now event s).0
  unfolding reconcile_event
  reconcile_event_answer s silent = elim (Bool-cases (is_processing event.status)) [
    | inl e ↦ rw e (on_snapshot_answer _ s (rw e at silent))
    | inr e ↦ rw e ((λ f. cc), refl)
  ]
