-- ===== src/Reconciler/Revert.antt =====
-- Rows of heartbeats (ml/face_processing_watch.py) and calls of the reconciler for one event.
use event_vision_pipeline.Base.{
  ℕ, ◌+◌, ◌≤◌, ◌<◌, Bool, false, Option, none, some, List, [], ◌∷◌, ◌≡◌, refl, sym, ◌∙◌, arith,
}
use event_vision_pipeline.Redis.{
  Redis, Entry, watch, face_requeue, face_watch, mark, seconds, redis_laws, entry_hset_expire,
  entry_set_nx_other,
}
use event_vision_pipeline.GpuHost
use event_vision_pipeline.GpuHost.{Cloud, GpuError}
use event_vision_pipeline.Watch
use event_vision_pipeline.Watch.{FaceProcessingWatchSnapshot, is_stalled, last_activity, or_now}
use event_vision_pipeline.FaceProcessing.{Event, FaceConfig}
use event_vision_pipeline.Reconciler.{
  Settings, State, put_redis, requeue, read_watch, reconcile_event, stall_after,
}
use event_vision_pipeline.Reconciler.Answers.{LeavesEvent, reconcile_event_answer}
use event_vision_pipeline.Reconciler.Rule.{reconcile_event_kept}

-- A worker's heartbeat, or a call of the reconciler, at a time.
pub data Tick : Type 0 where
  heartbeat reconcile : ℕ → Tick

same_snapshot : (s t : FaceProcessingWatchSnapshot) → some s ≡ some t → s ≡ t
same_snapshot s t e = cc

not_stalled :
    (s : FaceProcessingWatchSnapshot) (since stall now : ℕ)
    → since ≤ last_activity s
    → now < since + stall
    → is_stalled s stall now ≡ false
unfolding is_stalled
not_stalled s since stall now h e = ground arith

module _ (r : Redis) (cloud : Cloud) (gpu : GpuHost.Settings) (injected : Bool)
    (config : FaceConfig) (settings : Settings) (event : Event) where
  abbrev S : Type 0
  S = State r cloud gpu injected config settings

  abbrev ttl : ℕ
  ttl = config.processing_progress_ttl_seconds

  abbrev pub step : Tick → S → S
  step (heartbeat t) s =
      put_redis r cloud gpu injected config settings s
        (Watch.record_heartbeat r event.id ttl t s.app.redis)
  step (reconcile t) s = (reconcile_event r cloud gpu injected config settings t event s).1

  abbrev pub run : List Tick → S → S
  run [] s = s
  run (t ∷ rest) s = run rest (step t s)

  -- The job was last heard of at `since`; no heartbeat lets the watch expire, and no call of the
  -- reconciler comes a stall time or more after the last heartbeat.
  abbrev pub IsLively : ℕ → List Tick → Type 0
  IsLively since [] = Unit
  IsLively since (heartbeat t ∷ rest) = (since ≤ t) × (t < since + seconds ttl) × IsLively t rest
  IsLively since (reconcile t ∷ rest) =
      (t < since + stall_after settings) × (t < since + seconds ttl) × IsLively since rest

  -- The watch is kept until `until` at least, and the job was heard of at `since` or later.
  abbrev IsHeard : ℕ → ℕ → Option Entry → Type 0
  IsHeard since until e =
      (started : ℕ) × (beat : Option ℕ) × (d : ℕ) × (e
        ≡ some (record { value = watch (some started) beat; expires = some d }))
      × (since ≤ or_now started beat)
      × (until ≤ d)

  abbrev Heard : ℕ → ℕ → S → S → Type 0
  Heard since until s t =
      (t.alerts ≡ s.alerts) × IsHeard since until (r.entry t.app.redis (face_watch event.id))

  read_heard :
      (now since until : ℕ) (db : r.Db)
      → now < until
      → (h : IsHeard since until (r.entry db (face_watch event.id)))
      → Watch.read r event.id ttl now db
        ≡ some (record { started_at = h.0; last_heartbeat_at = h.1 })
  unfolding Watch.read
  read_heard now since until db b h = simp redis_laws (rw h.3 (ground arith))

  requeue_keeps :
      (now : ℕ) (started : Bool) (s : S)
      → ((requeue r cloud gpu injected config settings now event started s).1.alerts ≡ s.alerts)
        × (r.entry
              (requeue r cloud gpu injected config settings now event started s).1.app.redis
              (face_watch event.id)
            ≡ r.entry s.app.redis (face_watch event.id))
  unfolding requeue Watch.try_mark_requeued
  requeue_keeps now started s = ground (
    arith,
    entry_set_nx_other r now (face_requeue event.id) mark settings.face_processing_requeue_seconds
        s.app.redis (face_watch event.id) refl,
  )

  reconcile-Heard :
      (now since until : ℕ) (s t : S)
      → now < until
      → now < since + stall_after settings
      → Heard since until s t
      → Heard since until s (reconcile_event r cloud gpu injected config settings now event t).1
  unfolding put_redis read_watch
  reconcile-Heard now since until s t b e h =
      reconcile_event_kept r cloud gpu injected config settings now event (Heard since until s)
        (Heard since until s)
        (record {
          weaken = λ u p. p;
          same = λ u v c p. (c.alerts ∙ p.0, rw (c.entries (face_watch event.id) refl) p.1);
          begun =
              λ u db w f p. let never = sym w ∙ read_heard now since until u.app.redis b p.1 in cc;
          gave_up = λ snapshot u w f p.
              let same : snapshot ≡ record { started_at = p.1.0; last_heartbeat_at = p.1.1 } =
                same_snapshot snapshot _ (sym w ∙ read_heard now since until u.app.redis b p.1) in
              let early =
                not_stalled (record { started_at = p.1.0; last_heartbeat_at = p.1.1 }) since
                  (stall_after settings) now p.1.4 e in
              absurd (cc);
          queued = λ started u p. let (a, k) = requeue_keeps now started u in (a ∙ p.0, rw k p.1);
        })
        t h

  heartbeat-Heard :
      (now since : ℕ) (s t : S)
      → now < since + seconds ttl
      → Heard since (since + seconds ttl) s t
      → Heard now (now + seconds ttl) s (step (heartbeat now) t)
  unfolding put_redis Watch.record_heartbeat Watch.write
  heartbeat-Heard now since s t b (a, h) = (
    a,
    (
      h.0,
      some now,
      now + seconds ttl,
      rw (read_heard now since (since + seconds ttl) t.app.redis b h)
          (rw entry_hset_expire (simp redis_laws)),
      omega arith,
      omega arith,
    ),
  )

  -- No call of the row answers that the event was given back, and each leaves it as it was.
  abbrev pub AllLeaveEvent : List Tick → S → Type 0
  AllLeaveEvent [] s = Unit
  AllLeaveEvent (heartbeat t ∷ rest) s = AllLeaveEvent rest (step (heartbeat t) s)
  AllLeaveEvent (reconcile t ∷ rest) s =
      LeavesEvent event (reconcile_event r cloud gpu injected config settings t event s).0
      × AllLeaveEvent rest (step (reconcile t) s)

  run-Heard :
      (ticks : List Tick) (since : ℕ) (s t : S)
      → IsLively since ticks
      → Heard since (since + seconds ttl) s t
      → AllLeaveEvent ticks t × ((run ticks t).alerts ≡ s.alerts)
  run-Heard [] since s t l h = (tt, h.0)
  run-Heard (heartbeat now ∷ rest) since s t l h =
      run-Heard rest now s (step (heartbeat now) t) l.2 (heartbeat-Heard now since s t l.1 h)
  run-Heard (reconcile now ∷ rest) since s t l h =
      let heard = reconcile-Heard now since (since + seconds ttl) s t l.1 l.0 h in
      let (leave, silent) = run-Heard rest since s (step (reconcile now) t) l.2 heard in
      (
        (
          reconcile_event_answer r cloud gpu injected config settings now event t
              (heard.0 ∙ sym h.0),
          leave,
        ),
        silent,
      )

  mark_started-Heard :
      (now : ℕ) (s : S)
      → Heard now (now + seconds ttl) s (
          put_redis r cloud gpu injected config settings s
            (Watch.mark_started r event.id ttl now none s.app.redis))
  unfolding put_redis Watch.mark_started
  mark_started-Heard now s = (
    refl,
    (
      now,
      none,
      now + seconds ttl,
      rw r.entry_delete (rw entry_hset_expire (simp redis_laws)),
      omega arith,
      omega arith,
    ),
  )

  -- From the start of the job on, whatever the reconciler does at its calls: while the start and the
  -- heartbeats never lie a stall time apart from a call, and the watch does not expire between them,
  -- no call gives the event back, however long the job runs: each leaves the event as it was, none
  -- answers `reverted`, and no alert is sent.
  pub lively_never_reverted :
      (now : ℕ) (ticks : List Tick) (s : S)
      → IsLively now ticks
      → let started =
          put_redis r cloud gpu injected config settings s
            (Watch.mark_started r event.id ttl now none s.app.redis) in
        AllLeaveEvent ticks started × ((run ticks started).alerts ≡ s.alerts)
  lively_never_reverted now ticks s l = run-Heard ticks now s _ l (mark_started-Heard now s)
