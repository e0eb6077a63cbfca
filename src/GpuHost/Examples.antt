-- ===== src/GpuHost/Examples.antt =====
-- The GPU service on a concrete machine, with the server in memory.
use event_vision_pipeline.Base.{
  ℕ, ◌+◌, true, false, none, some, List, [], ◌∷◌, ltb, ◌≡◌, refl, inl, arith, if◌then◌else◌,
}
use event_vision_pipeline.Base.Effect.{Result, ok, err}
use event_vision_pipeline.Redis.{gpu_idle_since, stamp}
use event_vision_pipeline.Redis.Memory.{memory, empty, write, Store}
use event_vision_pipeline.GpuHost.{
  Settings, Cloud, State, AwsError, boto_core_error, aws, InstanceState, running, stopped, stopping,
  error, skipped, waiting, status_stopped, ensure_running, stop_if_idle, is_configured, threshold,
  face_work_in_progress,
}
use event_vision_pipeline.GpuHost.Idle.{timer}
use event_vision_pipeline.GpuHost.Start.{IsUp, ensure_running-IsUp}
use event_vision_pipeline.GpuHost.Plan.{has_client, answer_to, ensure_running_follows_plan}
use event_vision_pipeline.GpuHost.Stop.{
  Event, tick, start, outside, NeverStops, step, stop_needs_idle_threshold, idle_twice, timer_after,
}

-- A machine that starts and stops at once, and the length of the face queue.
record Machine : Type 0 where
  state : InstanceState
  queue : ℕ

-- EC2 with a waiter that waits for the machine, or fails.
abbrev ec2 : Result AwsError Unit → Cloud
ec2 waited = record {
  World = Machine;
  describe_instances = λ w. (ok (some w.state), w);
  start_instances = λ w. (ok tt, record w { state = running });
  stop_instances = λ w. (ok tt, record w { state = stopped });
  wait_until_stopped = λ w. (ok tt, record w { state = stopped });
  wait_until_running = λ w. (waited, record w { state = running });
  pipeline_lock_pages = λ w. [];
  clustering_lock_pages = λ w. [];
  queue_length = λ w. w.queue;
}

abbrev settings : Settings
settings = record {
  gpu_instance_id = "i-0123456789abcdef0";
  aws_compute_access_key_id = "";
  aws_compute_secret_access_key = "";
  gpu_idle_stop_minutes = 15;
}

abbrev machine : InstanceState → ℕ → Machine
machine s n = record { state = s; queue = n }

abbrev host : Result AwsError Unit → Machine → Store → State memory (ec2 (ok tt)) settings true
host waited w db = record { world = w; db = db }

abbrev timer_set : Store
timer_set = write gpu_idle_since (some (record { value = stamp 5; expires = none })) empty

ensure_running-IsUp_example :
    IsUp memory
      (ec2 (ok tt))
      settings
      true
      (ensure_running memory
        (ec2 (ok tt))
        settings
        true
        (host (ok tt) (machine stopped 1) timer_set)).1
unfolding ensure_running
ensure_running-IsUp_example =
    ensure_running-IsUp memory (ec2 (ok tt)) settings true
      (host (ok tt) (machine stopped 1) timer_set) (λ w e. refl) refl

-- With keys and no given client.
abbrev keyed : Settings
keyed = record settings {
  aws_compute_access_key_id = "AKIA";
  aws_compute_secret_access_key = "secret";
}

ensure_running_follows_plan_example :
    (ensure_running memory
      (ec2 (err boto_core_error))
      keyed
      false
      (record { world = machine stopping 1; db = empty })).0
    ≡ (if is_configured memory (ec2 (err boto_core_error)) keyed false
        then (if has_client keyed false
            then answer_to (ec2 (err boto_core_error)) (ok (some stopping), machine stopping 1)
            else ok error)
        else ok skipped)
ensure_running_follows_plan_example =
    ensure_running_follows_plan memory (ec2 (err boto_core_error)) keyed false
      (record { world = machine stopping 1; db = empty })

waiter_escapes :
    (ensure_running memory
      (ec2 (err boto_core_error))
      keyed
      false
      (record { world = machine stopping 1; db = empty })).0
    ≡ err (aws boto_core_error)
unfolding is_configured
waiter_escapes = ensure_running_follows_plan_example

abbrev later : List (Event Machine)
later = outside (machine running 0) ∷ tick 1000000 ∷ start ∷ tick 800000000 ∷ []

stop_needs_idle_threshold_example :
    NeverStops memory (ec2 (ok tt)) settings true later (
      step memory (ec2 (ok tt)) settings true (tick 0) (host (ok tt) (machine running 3) timer_set))
unfolding is_configured threshold stop_if_idle face_work_in_progress
stop_needs_idle_threshold_example =
    stop_needs_idle_threshold memory (ec2 (ok tt)) settings true 0 later
      (host (ok tt) (machine running 3) timer_set) (inl refl) refl
      (omega arith, omega arith, (omega arith, omega arith, tt))

idle_twice_example :
    let first =
      stop_if_idle memory
        (ec2 (ok tt))
        keyed
        false
        7
        (record { world = machine running 0; db = empty }) in
    let second = stop_if_idle memory (ec2 (ok tt)) keyed false 900000007 first.1 in
    (first.0 ≡ ok waiting)
    × (second.0 ≡ (
        if ltb 900000007 (7 + threshold memory (ec2 (ok tt)) keyed false)
        then ok waiting
        else ok status_stopped))
    × (timer memory (ec2 (ok tt)) keyed false second.1
        ≡ timer_after memory (ec2 (ok tt)) keyed false 7 900000007)
unfolding is_configured face_work_in_progress
idle_twice_example =
    idle_twice memory (ec2 (ok tt)) keyed false 7 900000007 (machine running 0) empty
      (record {
        configured = refl;
        client = refl;
        described = refl;
        stops = refl;
        no_work = λ db. refl;
      })
      refl
