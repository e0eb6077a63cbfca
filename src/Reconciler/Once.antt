-- ===== src/Reconciler/Once.antt =====
-- `_give_up` of services/face_processing_reconciler.py, and later calls of the reconciler for the
-- same event.
use event_vision_pipeline.Base.{
  ℕ, ◌+◌, ◌≤◌, ◌<◌, Bool, true, false, Option, none, some, List, ◌∷◌, ◌≡◌, refl, ◌∙◌, arith, leb,
  if◌then◌else◌, ◌==◌,
}
use event_vision_pipeline.Base.Effect.{ok}
use event_vision_pipeline.Redis.{
  Redis, watch, face_watch, face_give_up, mark, seconds, live, redis_laws, entry_set_nx_other,
  entry_set_nx_self,
}
use event_vision_pipeline.GpuHost
use event_vision_pipeline.GpuHost.{Cloud, GpuError}
use event_vision_pipeline.Watch
use event_vision_pipeline.Watch.{
  FaceProcessingWatchSnapshot, is_stalled, has_fresh_heartbeat, last_activity, or_now,
}
use event_vision_pipeline.FaceProcessing.{
  Event, FaceConfig, ready, uploading, is_processing, pending_face_photo_count,
  revert_stalled_processing,
}
use event_vision_pipeline.Reconciler.{
  Settings, State, judge, on_snapshot, give_up, read_watch, reconcile_event, stall_after,
  heartbeat_fresh_after, reverted,
}
use event_vision_pipeline.Progress.Counters.{mark_error_entry}
use event_vision_pipeline.Reconciler.Calls.{AllBefore, reconcile_at}
use event_vision_pipeline.Reconciler.GivenUp.{IsGivenUp, reconcile_at-IsGivenUp}

module _ (r : Redis) (cloud : Cloud) (gpu : GpuHost.Settings) (injected : Bool)
    (config : FaceConfig) (settings : Settings) (event : Event) where
  abbrev S : Type 0
  S = State r cloud gpu injected config settings

  abbrev ttl : ℕ
  ttl = config.processing_progress_ttl_seconds

  -- The event after it was given back.
  abbrev pub given_back : S → Event
  given_back s = record event {
    status = if pending_face_photo_count event.id s.app.photos == 0 then ready else uploading;
  }

  judge_gives_up :
      (now : ℕ) (snapshot : FaceProcessingWatchSnapshot) (s : S)
      → has_fresh_heartbeat snapshot (heartbeat_fresh_after settings) now ≡ false
      → is_stalled snapshot (stall_after settings) now ≡ true
      → judge r cloud gpu injected config settings now event snapshot s
        ≡ give_up r cloud gpu injected config settings now event s
  unfolding judge
  judge_gives_up now snapshot s q f = rw q (rw f refl)

  reconciles_to_give_up :
      (now started d : ℕ) (beat : Option ℕ) (s : S)
      → is_processing event.status ≡ true
      → r.entry s.app.redis (face_watch event.id)
        ≡ some (record { value = watch (some started) beat; expires = some d })
      → now < d
      → has_fresh_heartbeat
          (record { started_at = started; last_heartbeat_at = beat })
          (heartbeat_fresh_after settings)
          now
        ≡ false
      → is_stalled
          (record { started_at = started; last_heartbeat_at = beat })
          (stall_after settings)
          now
        ≡ true
      → reconcile_event r cloud gpu injected config settings now event s
        ≡ give_up r cloud gpu injected config settings now event s
  unfolding reconcile_event read_watch on_snapshot Watch.read
  reconciles_to_give_up now started d beat s p w l q f =
      let open_still : leb d now ≡ false = ground arith in
      rw p (simp redis_laws (rw w (rw open_still (judge_gives_up now _ s q f))))

  give_up_first :
      (now until started d : ℕ) (beat : Option ℕ) (s : S)
      → r.entry s.app.redis (face_watch event.id)
        ≡ some (record { value = watch (some started) beat; expires = some d })
      → until ≤ d
      → until ≤ now + seconds ttl
      → live now (r.entry s.app.redis (face_give_up event.id)) ≡ none
      → ((give_up r cloud gpu injected config settings now event s).0 ≡ ok (reverted, given_back s))
        × ((give_up r cloud gpu injected config settings now event s).1.alerts
            ≡ event.id ∷ s.alerts)
        × IsGivenUp r cloud gpu injected config settings event until
            (record s { alerts = event.id ∷ s.alerts })
            (give_up r cloud gpu injected config settings now event s).1
  unfolding give_up revert_stalled_processing Watch.try_begin_give_up
  give_up_first now until started d beat s w l u g =
      let claimed : (r.set_nx now (face_give_up event.id) mark ttl s.app.redis).0 ≡ true =
        r.reply_set_nx now (face_give_up event.id) mark ttl s.app.redis ∙ rw g refl in
      let at = entry_set_nx_self r now (face_give_up event.id) mark ttl s.app.redis claimed in
      let keeps =
        entry_set_nx_other r now (face_give_up event.id) mark ttl s.app.redis (face_watch event.id)
          refl in
      rw claimed (
        refl,
        refl,
        record {
          alerts = refl;
          watched = (started, beat, d, rw (mark_error_entry r event.id) (keeps ∙ w), l);
          claimed = (now + seconds ttl, rw (mark_error_entry r event.id) at, u);
        },
      )

  -- Let the event be in processing with a watch that is kept until `until` or longer, its job
  -- stalled, and the right to give up free. Then the call gives the event back: as ready where no
  -- photo is left to process, else as uploading, with one alert. And as long as the watch and the
  -- claim of the right live, no row of later calls for the same event sends another alert, even
  -- where they read the event as still in processing.
  pub reverted_once :
      (now until started d : ℕ) (beat : Option ℕ) (ticks : List ℕ) (s : S)
      → is_processing event.status ≡ true
      → r.entry s.app.redis (face_watch event.id)
        ≡ some (record { value = watch (some started) beat; expires = some d })
      → now < until
      → until ≤ d
      → until ≤ now + seconds ttl
      → live now (r.entry s.app.redis (face_give_up event.id)) ≡ none
      → has_fresh_heartbeat
          (record { started_at = started; last_heartbeat_at = beat })
          (heartbeat_fresh_after settings)
          now
        ≡ false
      → is_stalled
          (record { started_at = started; last_heartbeat_at = beat })
          (stall_after settings)
          now
        ≡ true
      → AllBefore until ticks
      → let first = reconcile_event r cloud gpu injected config settings now event s in
        (first.0 ≡ ok (reverted, given_back s))
        × (first.1.alerts ≡ event.id ∷ s.alerts)
        × ((reconcile_at r cloud gpu injected config settings event ticks first.1).alerts
            ≡ event.id ∷ s.alerts)
  reverted_once now until started d beat ticks s p w n l u g q f b =
      let same = reconciles_to_give_up now started d beat s p w (omega arith) q f in
      let (answer, alert, kept) = give_up_first now until started d beat s w l u g in
      rw same (
        answer,
        alert,
        reconcile_at-IsGivenUp r cloud gpu injected config settings event until ticks _ _ b kept,
      )
