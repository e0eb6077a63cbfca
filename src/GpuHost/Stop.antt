-- ===== src/GpuHost/Stop.antt =====
-- Rows of calls of the GPU host service (services/gpu_host_service.py), and `stop_if_idle` among
-- them.
use event_vision_pipeline.Base.{
  Option, ℕ, ◌+◌, ◌≤◌, ◌<◌, Bool, true, false, none, some, List, [], ◌∷◌, ◌≡◌, ◌≢◌, refl, ◌⊎◌, inl,
  inr, arith, Bool-cases, ltb, if◌then◌else◌,
}
use event_vision_pipeline.Base.Effect.{ok}
use event_vision_pipeline.Redis.{Redis, gpu_idle_since, stamp, redis_laws, Entry}
use event_vision_pipeline.GpuHost.{
  Settings, Cloud, State, skipped, busy, waiting, status_stopped, running, stop_if_idle,
  ensure_running, threshold, is_configured, face_work_in_progress,
}
use event_vision_pipeline.GpuHost.Plan.{has_client}
use event_vision_pipeline.GpuHost.Idle.{
  IdleFrom, timer, stop_if_idle-Quiet, stop_if_idle-IsOff, ensure_running-IdleFrom,
}

-- The beat task calls `stop_if_idle` at a time, a photographer's click or the reconciler calls
-- `ensure_running`, and the machine, its locks and its queue change by themselves.
pub data Event (World : Type 0) : Type 0 where
  tick : ℕ → Event World
  start : Event World
  outside : World → Event World

module _ (r : Redis) (cloud : Cloud) (settings : Settings) (injected : Bool) where
  abbrev pub step :
      Event cloud.World → State r cloud settings injected → State r cloud settings injected
  step (tick t) h = (stop_if_idle r cloud settings injected t h).1
  step start h = (ensure_running r cloud settings injected h).1
  step (outside w) h = record h { world = w }

  -- The ticks are in order from `from` on, and all fall before `end`.
  abbrev pub TicksBefore : ℕ → ℕ → List (Event cloud.World) → Type 0
  TicksBefore from end [] = Unit
  TicksBefore from end (tick t ∷ rest) = (from ≤ t) × (t < end) × TicksBefore t end rest
  TicksBefore from end (_ ∷ rest) = TicksBefore from end rest

  -- No tick of the row stops the machine.
  abbrev pub NeverStops : List (Event cloud.World) → State r cloud settings injected → Type 0
  NeverStops [] h = Unit
  NeverStops (tick t ∷ rest) h =
      ((stop_if_idle r cloud settings injected t h).0 ≢ ok status_stopped)
      × NeverStops rest (step (tick t) h)
  NeverStops (e ∷ rest) h = NeverStops rest (step e h)

  NeverStops-from :
      (since from : ℕ) (events : List (Event cloud.World)) (h : State r cloud settings injected)
      → since ≤ from
      → TicksBefore from (since + threshold r cloud settings injected) events
      → IdleFrom r cloud settings injected since (timer r cloud settings injected h)
      → NeverStops events h
  NeverStops-from since from [] h l w v = tt
  NeverStops-from since from (tick t ∷ rest) h l w v =
      let (v', kept) = stop_if_idle-Quiet r cloud settings injected since t h (omega arith) w.1 v in
      (kept, NeverStops-from since t rest (step (tick t) h) (omega arith) w.2 v')
  NeverStops-from since from (start ∷ rest) h l w v =
      NeverStops-from since from rest (step start h) l w
        (ensure_running-IdleFrom r cloud settings injected since h v)
  NeverStops-from since from (outside x ∷ rest) h l w v =
      NeverStops-from since from rest (step (outside x) h) l w v

  -- Let a tick at `since` on a configured machine find work or find the machine not running. Then,
  -- whatever calls of the service and outside changes follow, no tick in the whole idle threshold
  -- after it stops the machine.
  pub stop_needs_idle_threshold :
      (since : ℕ) (events : List (Event cloud.World)) (h : State r cloud settings injected)
      → ((stop_if_idle r cloud settings injected since h).0 ≡ ok busy)
        ⊎ ((stop_if_idle r cloud settings injected since h).0 ≡ ok skipped)
      → is_configured r cloud settings injected ≡ true
      → TicksBefore since (since + threshold r cloud settings injected) events
      → NeverStops events (step (tick since) h)
  stop_needs_idle_threshold since events h b c w =
      NeverStops-from since since events (step (tick since) h) (omega arith) w
        (inl (stop_if_idle-IsOff r cloud settings injected since h c b))

  -- The machine runs with no work, the service has a client, given or from the two keys, and EC2 tells so
  -- and stops it on request.
  pub record IsQuiet (w : cloud.World) : Type 0 where
    pub configured : is_configured r cloud settings injected ≡ true
    pub client : has_client settings injected ≡ true
    pub described : cloud.describe_instances w ≡ (ok (some running), w)
    pub stops : (cloud.stop_instances w).0 ≡ ok tt
    pub no_work :
        (db : r.Db)
        → face_work_in_progress r cloud settings injected (record { world = w; db = db }) ≡ false

  -- The timer that a call at `u` leaves where it was set at `s`.
  abbrev pub timer_after : ℕ → ℕ → Option Entry
  timer_after s u =
      if ltb u (s + threshold r cloud settings injected)
      then some (record { value = stamp s; expires = none })
      else none

  module _ (w : cloud.World) (q : IsQuiet w) (db : r.Db) where
    abbrev h : State r cloud settings injected
    h = record { world = w; db = db }

    timer_off :
        (t : ℕ)
        → r.entry db gpu_idle_since ≡ none
        → stop_if_idle r cloud settings injected t h
          ≡ (ok waiting, record h { db = r.set gpu_idle_since (stamp t) db })
    unfolding stop_if_idle
    timer_off t n =
        rw (q.configured, q.client, q.described) (rw (q.no_work db) (simp redis_laws (rw n)))

    timer_on :
        (s u : ℕ)
        → r.entry db gpu_idle_since ≡ some (record { value = stamp s; expires = none })
        → ((stop_if_idle r cloud settings injected u h).0 ≡ (
            if ltb u (s + threshold r cloud settings injected)
            then ok waiting
            else ok status_stopped))
          × (timer r cloud settings injected (stop_if_idle r cloud settings injected u h).1
              ≡ timer_after s u)
    unfolding stop_if_idle
    timer_on s u n =
        rw (q.configured, q.client, q.described)
          (rw (q.no_work db) (
            simp redis_laws (
              rw n (elim (Bool-cases (ltb u (s + threshold r cloud settings injected))) [
                | inl e ↦ rw e (refl, n)
                | inr e ↦ rw (e, q.client) (rw q.stops (refl, simp redis_laws refl))
              ]))))

  -- Let the machine run with no work, and let the service have a client to EC2, which answers. Then a call with the timer off only starts
  -- the timer, and a later call that finds the same stops the machine exactly where the whole
  -- threshold has passed since the first one, and turns the timer off; else it keeps waiting and leaves
  -- the timer as the first call set it.
  pub idle_twice :
      (t u : ℕ) (w : cloud.World) (db : r.Db)
      → IsQuiet w
      → r.entry db gpu_idle_since ≡ none
      → let first = stop_if_idle r cloud settings injected t (record { world = w; db = db }) in
        let second = stop_if_idle r cloud settings injected u first.1 in
        (first.0 ≡ ok waiting)
        × (second.0 ≡ (
            if ltb u (t + threshold r cloud settings injected)
            then ok waiting
            else ok status_stopped))
        × (timer r cloud settings injected second.1 ≡ timer_after t u)
  idle_twice t u w db q n =
      let fired = timer_off w q db t n in
      rw fired (
        let (a, b) = timer_on w q (r.set gpu_idle_since (stamp t) db) t u (simp redis_laws) in
        (refl, a, b))
