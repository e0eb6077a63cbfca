-- ===== src/GpuHost/Start.antt =====
-- `ensure_running` of services/gpu_host_service.py, and the machine where it answers `started`.
use event_vision_pipeline.Base.{Bool, none, some, ◌≡◌, ◌≢◌, inl, inr, arith, Bool-cases}
use event_vision_pipeline.Base.Effect.{Result, ok, err, after}
use event_vision_pipeline.Redis.{Redis, gpu_idle_since}
use event_vision_pipeline.GpuHost.{
  Settings, Cloud, State, GpuError, gpu_host_error, aws, Status, started, status_running,
  InstanceState, running, pending, shutting_down, stopping, ensure_running, boot, launch,
  wait_stopped, describe_state, is_configured, settle_error,
}
use event_vision_pipeline.GpuHost.Idle.{timer, settle_error_state}

-- The documented promise of the waiter: when it returns, the instance is described as running.
abbrev pub WaiterPromise : Cloud → Type 0
WaiterPromise cloud =
    (w : cloud.World)
    → (cloud.wait_until_running w).0 ≡ ok tt
    → (cloud.describe_instances (cloud.wait_until_running w).1).0 ≡ ok (some running)

settle_error_started :
    {S : Type 0} (p : Result GpuError Status × S)
    → (settle_error p).0 ≡ ok started
    → p.0 ≡ ok started
settle_error_started (ok s, h) e = e
settle_error_started (err gpu_host_error, h) e = cc
settle_error_started (err (aws x), h) e = cc

module _ (r : Redis) (cloud : Cloud) (settings : Settings) (injected : Bool) where
  -- EC2 describes the instance as running, and the idle timer is off.
  abbrev pub IsUp : State r cloud settings injected → Type 0
  IsUp h =
      ((cloud.describe_instances h.world).0 ≡ ok (some running))
      × (timer r cloud settings injected h ≡ none)

  boot-IsUp :
      (h : State r cloud settings injected)
      → WaiterPromise cloud
      → (boot r cloud settings injected h).0 ≡ ok started
      → IsUp (boot r cloud settings injected h).1
  unfolding boot
  boot-IsUp h p s = ground (
    arith,
    p (cloud.start_instances h.world).1,
    r.entry_delete gpu_idle_since h.db gpu_idle_since,
  )

  boot_status :
      (h : State r cloud settings injected)
      → (boot r cloud settings injected h).0 ≢ ok status_running
  unfolding boot
  boot_status h = ground arith

  after_wait-IsUp :
      (x : Result GpuError Unit) (h : State r cloud settings injected)
      → WaiterPromise cloud
      → (after (x, h) (λ _. boot r cloud settings injected)).0 ≡ ok started
      → IsUp (after (x, h) (λ _. boot r cloud settings injected)).1
  after_wait-IsUp (ok _) h p s = boot-IsUp h p s
  after_wait-IsUp (err e) h p s = cc

  launch-IsUp :
      (i : InstanceState) (h : State r cloud settings injected)
      → WaiterPromise cloud
      → (launch r cloud settings injected i h).0 ≡ ok started
      → IsUp (launch r cloud settings injected i h).1
  unfolding launch
  launch-IsUp running h p s = cc
  launch-IsUp pending h p s = cc
  launch-IsUp shutting_down h p s = cc
  launch-IsUp stopping h p s =
      after_wait-IsUp (wait_stopped r cloud settings injected h).0
        (wait_stopped r cloud settings injected h).1 p s
  launch-IsUp _ h p s = boot-IsUp h p s

  after-launch-IsUp :
      (x : Result GpuError InstanceState) (h : State r cloud settings injected)
      → WaiterPromise cloud
      → (after (x, h) (launch r cloud settings injected)).0 ≡ ok started
      → IsUp (after (x, h) (launch r cloud settings injected)).1
  after-launch-IsUp (ok i) h p s = launch-IsUp i h p s
  after-launch-IsUp (err e) h p s = cc

  -- Where the waiter keeps its promise, the answer `started` means that EC2 now describes the instance
  -- as running, and that the idle timer is off.
  pub ensure_running-IsUp :
      (h : State r cloud settings injected)
      → WaiterPromise cloud
      → (ensure_running r cloud settings injected h).0 ≡ ok started
      → IsUp (ensure_running r cloud settings injected h).1
  unfolding ensure_running
  ensure_running-IsUp h p s = elim (Bool-cases (is_configured r cloud settings injected)) [
    | inl c ↦ rw c (
        rw settle_error_state (
          after-launch-IsUp (describe_state r cloud settings injected h).0
            (describe_state r cloud settings injected h).1 p (settle_error_started _ (rw c at s))))
    | inr c ↦ let never = rw c at s in cc
  ]
