-- ===== src/GpuHost/Idle.antt =====
-- `stop_if_idle` of services/gpu_host_service.py and the idle timer in Redis.
use event_vision_pipeline.Base.{
  ℕ, ◌+◌, ◌≤◌, ◌<◌, Bool, true, Option, none, some, ltb, ◌≡◌, ◌≢◌, refl, ◌⊎◌, inl, inr, sym, arith,
  Bool-cases,
}
use mathlib.Core.Path.{subst}
use event_vision_pipeline.Base.Effect.{Result, ok, err, after}
use event_vision_pipeline.Redis.{Redis, Entry, gpu_idle_since, stamp, redis_laws}
use event_vision_pipeline.GpuHost.{
  Settings, Cloud, State, GpuError, gpu_host_error, aws, Status, settle_error, skipped, busy,
  status_stopped, InstanceState, running, pending, shutting_down, stopping, launch, boot,
  wait_stopped, stop_if_idle, threshold, check_work, check_timer, face_work_in_progress,
  describe_state, is_configured, idle_since, ensure_running,
}

pub settle_error_state : {S : Type 0} (p : Result GpuError Status × S) → (settle_error p).1 ≡ p.1
settle_error_state (ok s, h) = refl
settle_error_state (err gpu_host_error, h) = refl
settle_error_state (err (aws e), h) = refl

settle_error_ok :
    {S : Type 0} (p : Result GpuError Status × S)
    → (settle_error p).0 ≡ ok status_stopped
    → p.0 ≡ ok status_stopped
settle_error_ok (ok s, h) e = e
settle_error_ok (err gpu_host_error, h) e = cc
settle_error_ok (err (aws x), h) e = cc

module _ (r : Redis) (cloud : Cloud) (settings : Settings) (injected : Bool) where
  -- The idle timer is off, or it was started at `start` or later.
  abbrev pub IdleFrom : ℕ → Option Entry → Type 0
  IdleFrom start timer =
      (timer ≡ none)
      ⊎ ((s : ℕ) × (timer ≡ some (record { value = stamp s; expires = none })) × (start ≤ s))

  abbrev pub timer : State r cloud settings injected → Option Entry
  timer h = r.entry h.db gpu_idle_since

  check_timer-IdleFrom :
      (start now : ℕ) (h : State r cloud settings injected)
      → start ≤ now
      → now < start + threshold r cloud settings injected
      → IdleFrom start (timer h)
      → IdleFrom start (timer (check_work r cloud settings injected now running h).1)
        × ((check_work r cloud settings injected now running h).0 ≢ ok status_stopped)
  unfolding check_work
  check_timer-IdleFrom start now h l e (inl v) =
      elim (Bool-cases (face_work_in_progress r cloud settings injected h)) [
        | inl p ↦ rw p (simp redis_laws (inl refl, λ q. cc))
        | inr p ↦ rw p (simp redis_laws (rw v (simp redis_laws (inr (now, refl, l), λ q. cc))))
      ]
  check_timer-IdleFrom start now h l e (inr (s, v, k)) =
      elim (Bool-cases (face_work_in_progress r cloud settings injected h)) [
        | inl p ↦ rw p (simp redis_laws (inl refl, λ q. cc))
        | inr p ↦
            let early : ltb now (s + threshold r cloud settings injected) ≡ true = ground arith in
            rw p (simp redis_laws (rw v (rw early (inr (s, v, k), λ q. cc))))
      ]

  -- A tick at `now` leaves the timer no older than `start` and does not stop the machine.
  abbrev pub Quiet : ℕ → Result GpuError Status × State r cloud settings injected → Type 0
  Quiet start p = IdleFrom start (timer p.1) × (p.0 ≢ ok status_stopped)

  settle-Quiet :
      (start : ℕ) (p : Result GpuError Status × State r cloud settings injected)
      → Quiet start p
      → Quiet start (settle_error p)
  settle-Quiet start p q = (rw settle_error_state q.0, λ e. q.1 (settle_error_ok p e))

  after_describe :
      (start now : ℕ) (x : Result GpuError InstanceState) (h : State r cloud settings injected)
      → start ≤ now
      → now < start + threshold r cloud settings injected
      → IdleFrom start (timer h)
      → Quiet start (after (x, h) (check_work r cloud settings injected now))
  unfolding check_work
  after_describe start now (ok running) h l e v = check_timer-IdleFrom start now h l e v
  after_describe start now (ok _) h l e v = (inl (simp redis_laws), λ q. cc)
  after_describe start now (err x) h l e v = (v, λ q. cc)

  pub describe_state_db :
      (h : State r cloud settings injected)
      → (describe_state r cloud settings injected h).1.db ≡ h.db
  unfolding describe_state
  describe_state_db h = ground arith

  pub stop_if_idle-Quiet :
      (start now : ℕ) (h : State r cloud settings injected)
      → start ≤ now
      → now < start + threshold r cloud settings injected
      → IdleFrom start (timer h)
      → Quiet start (stop_if_idle r cloud settings injected now h)
  unfolding stop_if_idle
  stop_if_idle-Quiet start now h l e v =
      elim (Bool-cases (is_configured r cloud settings injected)) [
        | inl p ↦ rw p (
            settle-Quiet start _ (
              after_describe start now (describe_state r cloud settings injected h).0
                (describe_state r cloud settings injected h).1 l e
                (subst (λ (d : r.Db). IdleFrom start (r.entry d gpu_idle_since))
                  (sym (describe_state_db h)) v)))
        | inr p ↦ rw p (v, λ q. cc)
      ]

  -- A call that found work, or a machine that does not run, turns the timer off.
  abbrev pub IsOff : Result GpuError Status × State r cloud settings injected → Type 0
  IsOff p = (p.0 ≡ ok busy) ⊎ (p.0 ≡ ok skipped) → timer p.1 ≡ none

  check_timer_status :
      (now : ℕ) (o : Option ℕ) (h : State r cloud settings injected)
      → ((check_timer r cloud settings injected now o h).0 ≢ ok busy)
        × ((check_timer r cloud settings injected now o h).0 ≢ ok skipped)
  unfolding check_timer
  check_timer_status now none h = ground arith
  check_timer_status now (some since) h = ground arith

  check_work-IsOff :
      (now : ℕ) (x : Result GpuError InstanceState) (h : State r cloud settings injected)
      → IsOff (after (x, h) (check_work r cloud settings injected now))
  unfolding check_work
  check_work-IsOff now (ok running) h =
      elim (Bool-cases (face_work_in_progress r cloud settings injected h)) [
        | inl p ↦ rw p (λ q. simp redis_laws)
        | inr p ↦ rw p λ q.
            let (a, b) = check_timer_status now (idle_since r cloud settings injected now h) h in
            elim q [ inl e ↦ absurd (a e) | inr e ↦ absurd (b e) ]
      ]
  check_work-IsOff now (ok _) h = λ q. simp redis_laws
  check_work-IsOff now (err x) h = λ q. ground arith

  settle_error_other :
      (p : Result GpuError Status × State r cloud settings injected)
      → IsOff p
      → IsOff (settle_error p)
  settle_error_other (ok s, h) f = f
  settle_error_other (err gpu_host_error, h) f = λ q. ground arith
  settle_error_other (err (aws e), h) f = f

  pub stop_if_idle-IsOff :
      (now : ℕ) (h : State r cloud settings injected)
      → is_configured r cloud settings injected ≡ true
      → IsOff (stop_if_idle r cloud settings injected now h)
  unfolding stop_if_idle
  stop_if_idle-IsOff now h c = rw c (
      settle_error_other _ (
        check_work-IsOff now (describe_state r cloud settings injected h).0
          (describe_state r cloud settings injected h).1))

  -- What starting the machine does to Redis: nothing, or the timer is turned off.
  abbrev pub OnlyClears : r.Db → r.Db → Type 0
  OnlyClears db db' = (db' ≡ db) ⊎ (db' ≡ r.delete gpu_idle_since db)

  boot-OnlyClears :
      (h : State r cloud settings injected)
      → OnlyClears h.db (boot r cloud settings injected h).1.db
  unfolding boot
  boot-OnlyClears h = ground arith

  wait_stopped_db :
      (h : State r cloud settings injected) → (wait_stopped r cloud settings injected h).1.db ≡ h.db
  unfolding wait_stopped
  wait_stopped_db h = ground arith

  after_wait :
      (x : Result GpuError Unit) (h : State r cloud settings injected)
      → OnlyClears h.db (after (x, h) (λ _. boot r cloud settings injected)).1.db
  after_wait (ok _) h = boot-OnlyClears h
  after_wait (err e) h = inl refl

  pub launch-OnlyClears :
      (s : InstanceState) (h : State r cloud settings injected)
      → OnlyClears h.db (launch r cloud settings injected s h).1.db
  unfolding launch
  launch-OnlyClears running h = inr refl
  launch-OnlyClears pending h = inr refl
  launch-OnlyClears shutting_down h = inl refl
  launch-OnlyClears stopping h =
      subst (λ (d : r.Db). OnlyClears d (launch r cloud settings injected stopping h).1.db)
        (wait_stopped_db h)
        (after_wait (wait_stopped r cloud settings injected h).0
          (wait_stopped r cloud settings injected h).1)
  launch-OnlyClears _ h = boot-OnlyClears h

  OnlyClears-IdleFrom :
      (start : ℕ) (db db' : r.Db)
      → OnlyClears db db'
      → IdleFrom start (r.entry db gpu_idle_since)
      → IdleFrom start (r.entry db' gpu_idle_since)
  OnlyClears-IdleFrom start db db' (inl e) v = rw e v
  OnlyClears-IdleFrom start db db' (inr e) v = inl (rw e (simp redis_laws))

  after-launch :
      (start : ℕ) (x : Result GpuError InstanceState) (h : State r cloud settings injected)
      → IdleFrom start (timer h)
      → IdleFrom start (timer (after (x, h) (launch r cloud settings injected)).1)
  after-launch start (ok s) h v =
      OnlyClears-IdleFrom start h.db (launch r cloud settings injected s h).1.db
        (launch-OnlyClears s h) v
  after-launch start (err e) h v = v

  -- `ensure_running` turns the timer off or leaves it.
  pub ensure_running-IdleFrom :
      (start : ℕ) (h : State r cloud settings injected)
      → IdleFrom start (timer h)
      → IdleFrom start (timer (ensure_running r cloud settings injected h).1)
  unfolding ensure_running
  ensure_running-IdleFrom start h v = elim (Bool-cases (is_configured r cloud settings injected)) [
    | inl p ↦ rw p (
        rw settle_error_state (
          after-launch start (describe_state r cloud settings injected h).0
            (describe_state r cloud settings injected h).1
            (subst (λ (d : r.Db). IdleFrom start (r.entry d gpu_idle_since))
              (sym (describe_state_db h)) v)))
    | inr p ↦ rw p v
  ]
