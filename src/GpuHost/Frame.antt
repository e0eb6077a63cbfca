-- ===== src/GpuHost/Frame.antt =====
-- The calls of the GPU host service and the app's Redis.
use event_vision_pipeline.Base.{Bool, ◌≡◌, refl, inl, inr, Bool-cases}
use event_vision_pipeline.Base.Effect.{Result, ok, err, after}
use event_vision_pipeline.Redis.{Redis}
use mathlib.Core.Path.{subst}
use event_vision_pipeline.GpuHost.{
  Settings, Cloud, State, GpuError, gpu_host_error, aws, InstanceState, running, pending, launch,
  describe_state, is_configured, is_reachable, ensure_running, reachable,
}
use event_vision_pipeline.GpuHost.Idle.{
  OnlyClears, launch-OnlyClears, describe_state_db, settle_error_state,
}

reachable_state : {S : Type 0} (p : Result GpuError InstanceState × S) → (reachable p).1 ≡ p.1
reachable_state (ok running, s) = refl
reachable_state (ok pending, s) = refl
reachable_state (ok _, s) = refl
reachable_state (err gpu_host_error, s) = refl
reachable_state (err (aws e), s) = refl

module _ (r : Redis) (cloud : Cloud) (settings : Settings) (injected : Bool) where
  pub is_reachable_db :
      (h : State r cloud settings injected) → (is_reachable r cloud settings injected h).1.db ≡ h.db
  unfolding is_reachable
  is_reachable_db h = elim (Bool-cases (is_configured r cloud settings injected)) [
    | inl c ↦ rw c (rw reachable_state (describe_state_db r cloud settings injected h))
    | inr c ↦ rw c
  ]

  after-launch-OnlyClears :
      (x : Result GpuError InstanceState) (h : State r cloud settings injected)
      → OnlyClears r cloud settings injected h.db
          (after (x, h) (launch r cloud settings injected)).1.db
  after-launch-OnlyClears (ok s) h = launch-OnlyClears r cloud settings injected s h
  after-launch-OnlyClears (err e) h = inl refl

  pub ensure_running-OnlyClears :
      (h : State r cloud settings injected)
      → OnlyClears r cloud settings injected h.db (ensure_running r cloud settings injected h).1.db
  unfolding ensure_running
  ensure_running-OnlyClears h = elim (Bool-cases (is_configured r cloud settings injected)) [
    | inl c ↦ rw c (
        rw settle_error_state (
          subst
            (λ (d : r.Db).
              OnlyClears r cloud settings injected d
                (after (describe_state r cloud settings injected h)
                  (launch r cloud settings injected)).1.db)
            (describe_state_db r cloud settings injected h)
            (after-launch-OnlyClears (describe_state r cloud settings injected h).0
              (describe_state r cloud settings injected h).1)))
    | inr c ↦ rw c (inl refl)
  ]
