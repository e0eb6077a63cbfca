-- ===== src/Reconciler/Rule.antt =====
-- A proof rule for `reconcile_event` (services/face_processing_reconciler.py): a predicate and
-- the steps that have to keep it.
use event_vision_pipeline.Base.{
  ℕ, Bool, true, false, Option, none, some, ◌≡◌, refl, inl, inr, if◌then◌else◌, Bool-cases,
}
use event_vision_pipeline.Base.Effect.{Result, ok, err, after, pure}
use event_vision_pipeline.Redis.{Redis, Key, face_watch, face_give_up, same_key, entry_hset_expire}
use event_vision_pipeline.GpuHost
use event_vision_pipeline.GpuHost.{Cloud, GpuError}
use event_vision_pipeline.Watch
use event_vision_pipeline.Watch.{FaceProcessingWatchSnapshot, is_stalled, has_fresh_heartbeat}
use event_vision_pipeline.FaceProcessing.{Event, FaceConfig, is_processing, pipeline_lock_held}
use event_vision_pipeline.Reconciler.{
  Settings, State, Action, with_gpu, start_gpu, put_redis, requeue, recover, give_up, judge,
  judge_found, read_watch, on_snapshot, reconcile_event, stall_after, heartbeat_fresh_after,
}
use event_vision_pipeline.Reconciler.Gpu.{SameBut, reach-SameBut, start_gpu-SameBut}

-- `P` is kept by the steps up to the decision, and `Q` holds after the step that decides.
module _ (r : Redis) (cloud : Cloud) (gpu : GpuHost.Settings) (injected : Bool)
    (config : FaceConfig) (settings : Settings) (now : ℕ) (event : Event) where
  abbrev S : Type 0
  S = State r cloud gpu injected config settings

  pub record Kept (P Q : S → Type 0) : Type 0 where
    pub weaken : (s : S) → P s → Q s
    pub same : (s t : S) → SameBut r cloud gpu injected config settings s t → P s → P t
    pub begun :
        (s : S) (db : r.Db)
        → read_watch r cloud gpu injected config settings now event s ≡ none
        → ((k : Key)
            → same_key (face_watch event.id) k ≡ false
            → same_key (face_give_up event.id) k ≡ false
            → r.entry db k ≡ r.entry s.app.redis k)
        → P s
        → P (put_redis r cloud gpu injected config settings s db)
    pub gave_up :
        (snapshot : FaceProcessingWatchSnapshot) (s : S)
        → read_watch r cloud gpu injected config settings now event s ≡ some snapshot
        → is_stalled snapshot (stall_after settings) now ≡ true
        → P s
        → Q (give_up r cloud gpu injected config settings now event s).1
    pub queued :
        (started : Bool) (s : S)
        → P s
        → Q (requeue r cloud gpu injected config settings now event started s).1

  mark_started_entry :
      (ttl : ℕ) (started : Option ℕ) (db : r.Db) (k : Key)
      → same_key (face_watch event.id) k ≡ false
      → same_key (face_give_up event.id) k ≡ false
      → r.entry (Watch.mark_started r event.id ttl now started db) k ≡ r.entry db k
  unfolding Watch.mark_started
  mark_started_entry ttl started db k d e = rw (r.entry_delete, e) (rw entry_hset_expire (rw d))

  module _ (P Q : S → Type 0) (kept : Kept P Q) where
    after_start_kept :
        (x : Result GpuError Bool) (t : S)
        → P t
        → Q (after (x, t) (requeue r cloud gpu injected config settings now event)).1
    after_start_kept (ok started) t p = kept.queued started t p
    after_start_kept (err e) t p = kept.weaken t p

    after_reach_kept :
        (x : Result GpuError Bool) (t : S)
        → P t
        → Q
            (after
              (x, t)
              (λ reachable u.
                after
                  ((if reachable
                      then pure false
                      else start_gpu r cloud gpu injected config settings)
                    u)
                  (requeue r cloud gpu injected config settings now event))).1
    after_reach_kept (ok true) t p = after_start_kept (ok false) t p
    after_reach_kept (ok false) t p =
        after_start_kept (start_gpu r cloud gpu injected config settings t).0
          (start_gpu r cloud gpu injected config settings t).1
          (kept.same t (start_gpu r cloud gpu injected config settings t).1
            (start_gpu-SameBut r cloud gpu injected config settings t) p)
    after_reach_kept (err e) t p = kept.weaken t p

    recover_kept : (s : S) → P s → Q (recover r cloud gpu injected config settings now event s).1
    unfolding recover
    recover_kept s p =
        let t =
          with_gpu r cloud gpu injected config settings (GpuHost.is_reachable r cloud gpu injected)
            s in
        after_reach_kept t.0 t.1
          (kept.same s t.1 (reach-SameBut r cloud gpu injected config settings s) p)

    after_recover_kept :
        (x : Result GpuError Action) (t : S)
        → Q t
        → Q (after {B = Action × Event} (x, t) (λ action. pure (action, event))).1
    after_recover_kept (ok a) t q = q
    after_recover_kept (err e) t q = q

    judge_kept :
        (snapshot : FaceProcessingWatchSnapshot) (s : S)
        → read_watch r cloud gpu injected config settings now event s ≡ some snapshot
        → P s
        → Q (judge r cloud gpu injected config settings now event snapshot s).1
    unfolding judge
    judge_kept snapshot s w p =
        elim (Bool-cases (has_fresh_heartbeat snapshot (heartbeat_fresh_after settings) now)) [
          | inl e ↦ rw e (kept.weaken s p)
          | inr e ↦ rw e (elim (Bool-cases (is_stalled snapshot (stall_after settings) now)) [
            | inl f ↦ rw f (kept.gave_up snapshot s w f p)
            | inr f ↦ rw f (
                after_recover_kept (recover r cloud gpu injected config settings now event s).0
                  (recover r cloud gpu injected config settings now event s).1 (recover_kept s p))
          ])
        ]

    judge_found_kept :
        (o : Option FaceProcessingWatchSnapshot) (s : S)
        → read_watch r cloud gpu injected config settings now event s ≡ o
        → P s
        → Q (judge_found r cloud gpu injected config settings now event o s).1
    unfolding judge_found
    judge_found_kept none s w p = kept.weaken s p
    judge_found_kept (some snapshot) s w p = judge_kept snapshot s w p

    on_snapshot_kept :
        (o : Option FaceProcessingWatchSnapshot) (s : S)
        → read_watch r cloud gpu injected config settings now event s ≡ o
        → P s
        → Q (on_snapshot r cloud gpu injected config settings now event o s).1
    unfolding on_snapshot
    on_snapshot_kept (some snapshot) s w p = judge_kept snapshot s w p
    on_snapshot_kept none s w p =
        elim (Bool-cases (pipeline_lock_held r config now event.id s.app.redis)) [
          | inl e ↦ rw e (kept.weaken s p)
          | inr e ↦ rw e (
              judge_found_kept _ _ refl (
                kept.begun s _ w
                  (mark_started_entry config.processing_progress_ttl_seconds _ s.app.redis) p))
        ]

    pub reconcile_event_kept :
        (s : S) → P s → Q (reconcile_event r cloud gpu injected config settings now event s).1
    unfolding reconcile_event
    reconcile_event_kept s p = elim (Bool-cases (is_processing event.status)) [
      | inl e ↦ rw e (on_snapshot_kept _ s refl p)
      | inr e ↦ rw e (kept.weaken s p)
    ]
