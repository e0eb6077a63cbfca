-- ===== src/Reconciler/Requeue.antt =====
-- `_recover` of services/face_processing_reconciler.py and the queue of face jobs.
use event_vision_pipeline.Base.{
  ℕ, ◌+◌, ◌<◌, Bool, true, false, some, List, [], ◌∷◌, ◌≡◌, refl, ◌∙◌, ◌⊎◌, inl, inr, arith,
  Bool-cases, leb,
}
use event_vision_pipeline.Redis.{
  Redis, face_requeue, face_pipeline_lock, face_give_up, mark, seconds, redis_laws,
  entry_set_nx_other, entry_set_nx_self,
}
use event_vision_pipeline.GpuHost
use event_vision_pipeline.GpuHost.{Cloud, GpuError}
use event_vision_pipeline.Watch
use event_vision_pipeline.Watch.{FaceProcessingWatchSnapshot, is_stalled, has_fresh_heartbeat}
use event_vision_pipeline.Progress.Counters.{mark_error_entry}
use event_vision_pipeline.FaceProcessing.{
  Event, FaceConfig, pipeline_lock_held, revert_stalled_processing,
}
use event_vision_pipeline.Reconciler.{Settings, State, requeue, put_redis, give_up, reconcile_event}
use event_vision_pipeline.Reconciler.Calls.{AllBefore, reconcile_at}
use event_vision_pipeline.Reconciler.Rule.{reconcile_event_kept}

module _ (r : Redis) (cloud : Cloud) (gpu : GpuHost.Settings) (injected : Bool)
    (config : FaceConfig) (settings : Settings) (event : Event) (end : ℕ) where
  abbrev S : Type 0
  S = State r cloud gpu injected config settings

  -- The event was put on the queue, and may not be again before `end`.
  abbrev Marked : S → Type 0
  Marked s =
      r.entry s.app.redis (face_requeue event.id)
      ≡ some (record { value = mark; expires = some end })

  -- Nothing was put on the queue, and the mark stays.
  abbrev Quiet : S → S → Type 0
  Quiet s t = (t.app.face_jobs ≡ s.app.face_jobs) × Marked t

  requeue-Quiet :
      (now : ℕ) (started : Bool) (s : S)
      → now < end
      → Marked s
      → Quiet s (requeue r cloud gpu injected config settings now event started s).1
  unfolding requeue Watch.try_mark_requeued
  requeue-Quiet now started s h m =
      elim (Bool-cases (pipeline_lock_held r config now event.id s.app.redis)) [
        | inl p ↦ rw p (refl, m)
        | inr p ↦
            let open_still : leb end now ≡ false = ground arith in
            rw p (simp redis_laws (rw (m, open_still) (refl, simp redis_laws (rw (m, open_still)))))
      ]

  give_up-Quiet :
      (now : ℕ) (s : S)
      → Marked s
      → Quiet s (give_up r cloud gpu injected config settings now event s).1
  unfolding give_up revert_stalled_processing Watch.try_begin_give_up
  give_up-Quiet now s m =
      let nx =
        entry_set_nx_other r now (face_give_up event.id) mark config.processing_progress_ttl_seconds
          s.app.redis (face_requeue event.id) refl in
      elim (Bool-cases
        (Watch.try_begin_give_up r event.id config.processing_progress_ttl_seconds now
          s.app.redis).0) [
            | inl p ↦ rw p (refl, rw (mark_error_entry r event.id) (nx ∙ m))
            | inr p ↦ rw p (refl, nx ∙ m)
          ]

  reconcile_event-Quiet :
      (now : ℕ) (s t : S)
      → now < end
      → Quiet s t
      → Quiet s (reconcile_event r cloud gpu injected config settings now event t).1
  unfolding put_redis
  reconcile_event-Quiet now s t h q =
      reconcile_event_kept r cloud gpu injected config settings now event (Quiet s) (Quiet s)
        (record {
          weaken = λ u p. p;
          same = λ u v b p. (b.face_jobs ∙ p.0, b.entries (face_requeue event.id) refl ∙ p.1);
          begun = λ u db w e p. (p.0, e (face_requeue event.id) refl refl ∙ p.1);
          gave_up = λ snapshot u w f p. let (j, m) = give_up-Quiet now u p.1 in (j ∙ p.0, m);
          queued = λ started u p. let (j, m) = requeue-Quiet now started u h p.1 in (j ∙ p.0, m);
        })
        t q

module _ (r : Redis) (cloud : Cloud) (gpu : GpuHost.Settings) (injected : Bool)
    (config : FaceConfig) (settings : Settings) (event : Event) where
  abbrev debounce_end : ℕ → ℕ
  debounce_end now = now + seconds settings.face_processing_requeue_seconds

  -- Nothing was put on the queue, or the event was, once, with a mark until the debounce is over.
  abbrev Once : ℕ → List ℕ → State r cloud gpu injected config settings → Type 0
  Once now jobs t =
      (t.app.face_jobs ≡ jobs)
      ⊎ ((t.app.face_jobs ≡ event.id ∷ jobs)
          × Marked r cloud gpu injected config settings event (debounce_end now) t)

  requeue-Once :
      (now : ℕ) (started : Bool) (s : State r cloud gpu injected config settings)
      → Once now s.app.face_jobs
          (requeue r cloud gpu injected config settings now event started s).1
  unfolding requeue Watch.try_mark_requeued
  requeue-Once now started s =
      elim (Bool-cases (pipeline_lock_held r config now event.id s.app.redis)) [
        | inl p ↦ rw p (inl refl)
        | inr p ↦
            rw p
              (elim (Bool-cases
                (Watch.try_mark_requeued r event.id config.processing_progress_ttl_seconds now
                  settings.face_processing_requeue_seconds s.app.redis).0) [
                    | inl q ↦ rw q (
                        inr (
                          refl,
                          entry_set_nx_self r now (face_requeue event.id) mark
                              settings.face_processing_requeue_seconds s.app.redis q,
                        ))
                    | inr q ↦ rw q (inl refl)
                  ])
      ]

  give_up_jobs :
      (now : ℕ) (s : State r cloud gpu injected config settings)
      → (give_up r cloud gpu injected config settings now event s).1.app.face_jobs ≡ s.app.face_jobs
  unfolding give_up revert_stalled_processing
  give_up_jobs now s = ground arith

  reconcile_event-Once :
      (now : ℕ) (s : State r cloud gpu injected config settings)
      → Once now s.app.face_jobs
          (reconcile_event r cloud gpu injected config settings now event s).1
  unfolding put_redis
  reconcile_event-Once now s =
      reconcile_event_kept r cloud gpu injected config settings now event
        (λ u. u.app.face_jobs ≡ s.app.face_jobs) (Once now s.app.face_jobs)
        (record {
          weaken = λ u p. inl p;
          same = λ u v b p. b.face_jobs ∙ p;
          begun = λ u db w e p. p;
          gave_up = λ snapshot u w f p. inl (give_up_jobs now u ∙ p);
          queued = λ started u p. rw (← p) (requeue-Once now started u);
        })
        s refl

  reconcile_at-Quiet :
      (end : ℕ) (ticks : List ℕ) (s t : State r cloud gpu injected config settings)
      → AllBefore end ticks
      → Quiet r cloud gpu injected config settings event end s t
      → Quiet r cloud gpu injected config settings event end s
          (reconcile_at r cloud gpu injected config settings event ticks t)
  reconcile_at-Quiet end [] s t w q = q
  reconcile_at-Quiet end (now ∷ rest) s t w q =
      reconcile_at-Quiet end rest s _ w.1
        (reconcile_event-Quiet r cloud gpu injected config settings event end now s t w.0 q)

  -- One call puts the job of its event on the queue at most once; and if it does, then no row of
  -- calls for the event before the debounce time is over puts any job on the queue.
  pub requeue_debounced :
      (now : ℕ) (ticks : List ℕ) (s : State r cloud gpu injected config settings)
      → AllBefore (debounce_end now) ticks
      → let t = (reconcile_event r cloud gpu injected config settings now event s).1 in
        (t.app.face_jobs ≡ s.app.face_jobs)
        ⊎ ((t.app.face_jobs ≡ event.id ∷ s.app.face_jobs)
            × ((reconcile_at r cloud gpu injected config settings event ticks t).app.face_jobs
                ≡ t.app.face_jobs))
  requeue_debounced now ticks s w =
      let t = (reconcile_event r cloud gpu injected config settings now event s).1 in
      elim (reconcile_event-Once now s) [
        | inl e ↦ inl e
        | inr (e, m) ↦ inr (e, (reconcile_at-Quiet (debounce_end now) ticks t t w (refl, m)).0)
      ]

  held_eq :
      (now : ℕ) (db db' : r.Db)
      → r.entry db (face_pipeline_lock event.id) ≡ r.entry db' (face_pipeline_lock event.id)
      → pipeline_lock_held r config now event.id db ≡ pipeline_lock_held r config now event.id db'
  unfolding pipeline_lock_held
  held_eq now db db' e = simp redis_laws (rw e)

  requeue_locked :
      (now : ℕ) (started : Bool) (s : State r cloud gpu injected config settings)
      → pipeline_lock_held r config now event.id s.app.redis ≡ true
      → (requeue r cloud gpu injected config settings now event started s).1.app.face_jobs
        ≡ s.app.face_jobs
  unfolding requeue
  requeue_locked now started s h = rw h

  -- While a worker holds the pipeline lock of the event, a call puts nothing on the queue.
  pub no_requeue_under_lock :
      (now : ℕ) (s : State r cloud gpu injected config settings)
      → pipeline_lock_held r config now event.id s.app.redis ≡ true
      → (reconcile_event r cloud gpu injected config settings now event s).1.app.face_jobs
        ≡ s.app.face_jobs
  unfolding put_redis
  no_requeue_under_lock now s h =
      reconcile_event_kept r cloud gpu injected config settings now event
        (λ u.
          (u.app.face_jobs ≡ s.app.face_jobs)
          × (r.entry u.app.redis (face_pipeline_lock event.id)
              ≡ r.entry s.app.redis (face_pipeline_lock event.id)))
        (λ u. u.app.face_jobs ≡ s.app.face_jobs)
        (record {
          weaken = λ u p. p.0;
          same = λ u v b p. (b.face_jobs ∙ p.0, b.entries (face_pipeline_lock event.id) refl ∙ p.1);
          begun = λ u db w e p. (p.0, e (face_pipeline_lock event.id) refl refl ∙ p.1);
          gave_up = λ snapshot u w f p. give_up_jobs now u ∙ p.0;
          queued = λ started u p.
              requeue_locked now started u (held_eq now u.app.redis s.app.redis p.1 ∙ h) ∙ p.0;
        })
        s (refl, refl)
