-- ===== src/Reconciler/GivenUp.antt =====
-- Calls of services/face_processing_reconciler.py for an event that another call has given up on.
use event_vision_pipeline.Base.{
  ℕ, ◌≤◌, ◌<◌, Bool, false, Option, none, some, List, [], ◌∷◌, ◌≡◌, ◌≢◌, refl, ◌∙◌, arith,
}
use event_vision_pipeline.Redis.{
  Redis, Key, watch, face_requeue, face_watch, face_give_up, mark, live, same_key,
  entry_set_nx_other, entry_set_nx_taken,
}
use event_vision_pipeline.GpuHost
use event_vision_pipeline.GpuHost.{Cloud, GpuError}
use event_vision_pipeline.Watch
use event_vision_pipeline.Watch.{
  FaceProcessingWatchSnapshot, is_stalled, has_fresh_heartbeat, last_activity, or_now,
}
use event_vision_pipeline.FaceProcessing.{Event, FaceConfig}
use event_vision_pipeline.Reconciler.{
  Settings, State, put_redis, requeue, give_up, read_watch, reconcile_event,
}
use event_vision_pipeline.Reconciler.Calls.{AllBefore, reconcile_at}
use event_vision_pipeline.Reconciler.Rule.{reconcile_event_kept}

module _ (r : Redis) (cloud : Cloud) (gpu : GpuHost.Settings) (injected : Bool)
    (config : FaceConfig) (settings : Settings) (event : Event) where
  abbrev pub S : Type 0
  S = State r cloud gpu injected config settings

  abbrev pub ttl : ℕ
  ttl = config.processing_progress_ttl_seconds

  -- The watch is kept until `until`, and the right to give up is taken until then.
  pub record IsGivenUp (until : ℕ) (s t : S) : Type 0 where
    pub alerts : t.alerts ≡ s.alerts
    pub watched :
        (started : ℕ) × (beat : Option ℕ) × (d : ℕ) × (r.entry t.app.redis (face_watch event.id)
          ≡ some (record { value = watch (some started) beat; expires = some d }))
        × (until ≤ d)
    pub claimed :
        (d : ℕ) × (r.entry t.app.redis (face_give_up event.id)
          ≡ some (record { value = mark; expires = some d }))
        × (until ≤ d)

  give_up-IsGivenUp :
      (now until : ℕ) (s t : S)
      → now < until
      → IsGivenUp until s t
      → IsGivenUp until s (give_up r cloud gpu injected config settings now event t).1
  unfolding give_up Watch.try_begin_give_up put_redis
  give_up-IsGivenUp now until s t h g =
      let (d, at, later) = g.claimed in
      let (refused, still) =
        entry_set_nx_taken r now (face_give_up event.id) mark mark ttl d t.app.redis at
          (omega arith) in
      let (a, b, c, on, k) = g.watched in
      rw refused (record {
        alerts = g.alerts;
        watched = (
          a,
          b,
          c,
          entry_set_nx_other r now (face_give_up event.id) mark ttl t.app.redis
                (face_watch event.id) refl
              ∙ on,
          k,
        );
        claimed = (d, still, later);
      })

  read_watched :
      (now until : ℕ) (s t : S)
      → now < until
      → IsGivenUp until s t
      → read_watch r cloud gpu injected config settings now event t ≢ none
  unfolding read_watch Watch.read
  read_watched now until s t h g e =
      let (a, b, c, on, k) = g.watched in
      let found : live now (r.entry t.app.redis (face_watch event.id))
          ≡ some (record { value = watch (some a) b; expires = some c }) =
        rw on (ground arith) in
      cc (e, r.get_live now (face_watch event.id) t.app.redis, found)

  requeue_keeps :
      (now : ℕ) (started : Bool) (s : S) (k : Key)
      → same_key (face_requeue event.id) k ≡ false
      → ((requeue r cloud gpu injected config settings now event started s).1.alerts ≡ s.alerts)
        × (r.entry (requeue r cloud gpu injected config settings now event started s).1.app.redis k
            ≡ r.entry s.app.redis k)
  unfolding requeue Watch.try_mark_requeued
  requeue_keeps now started s k d = ground (
    arith,
    entry_set_nx_other r now (face_requeue event.id) mark settings.face_processing_requeue_seconds
        s.app.redis k d,
  )

  moved :
      (until : ℕ) (s t u : S)
      → u.alerts ≡ t.alerts
      → r.entry u.app.redis (face_watch event.id) ≡ r.entry t.app.redis (face_watch event.id)
      → r.entry u.app.redis (face_give_up event.id) ≡ r.entry t.app.redis (face_give_up event.id)
      → IsGivenUp until s t
      → IsGivenUp until s u
  moved until s t u a w c g = record {
    alerts = a ∙ g.alerts;
    watched = rw w g.watched;
    claimed = rw c g.claimed;
  }

  reconcile-IsGivenUp :
      (now until : ℕ) (s t : S)
      → now < until
      → IsGivenUp until s t
      → IsGivenUp until s (reconcile_event r cloud gpu injected config settings now event t).1
  reconcile-IsGivenUp now until s t h g =
      reconcile_event_kept r cloud gpu injected config settings now event (IsGivenUp until s)
        (IsGivenUp until s)
        (record {
          weaken = λ u p. p;
          same = λ u v c p.
              moved until s u v c.alerts (c.entries (face_watch event.id) refl)
                (c.entries (face_give_up event.id) refl) p;
          begun = λ u db w f p. absurd (read_watched now until s u h p w);
          gave_up = λ snapshot u w f p. give_up-IsGivenUp now until s u h p;
          queued = λ started u p.
              let (a, e) = requeue_keeps now started u (face_watch event.id) refl in
              let (a', e') = requeue_keeps now started u (face_give_up event.id) refl in
              moved until s u _ a e e' p;
        })
        t g

  pub reconcile_at-IsGivenUp :
      (until : ℕ) (ticks : List ℕ) (s t : S)
      → AllBefore until ticks
      → IsGivenUp until s t
      → (reconcile_at r cloud gpu injected config settings event ticks t).alerts ≡ s.alerts
  reconcile_at-IsGivenUp until [] s t w g = g.alerts
  reconcile_at-IsGivenUp until (now ∷ rest) s t w g =
      reconcile_at-IsGivenUp until rest s _ w.1 (reconcile-IsGivenUp now until s t w.0 g)
