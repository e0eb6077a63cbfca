-- ===== src/GpuHost.antt =====
-- services/gpu_host_service.py: the machine that runs the face pipeline is started on demand and
-- stopped when it has been idle. EC2 and the Celery broker are parameters; log lines and the texts of
-- errors are left out. The proofs are in the modules below.
pub mod Idle
pub mod Frame
pub mod Start
pub mod Plan
pub mod Stop
mod Examples
use event_vision_pipeline.Base.{
  ℕ, ◌+◌, ◌*◌, String, Bool, true, false, not, ◌&&◌, ◌||◌, Option, none, some, List, [], ◌∷◌, ltb,
  ◌==◌, str_eq, if◌then◌else◌,
}
use event_vision_pipeline.Base.Effect.{Result, ok, err, Effect, pure, raise, gets, ◌>>=◌, ◌>>◌}
use event_vision_pipeline.Redis.{Redis, Value, gpu_idle_since, stamp, seconds}

-- The settings that the service reads, stripped of surrounding white space.
pub record Settings : Type 0 where
  pub gpu_instance_id : String
  pub aws_compute_access_key_id : String
  pub aws_compute_secret_access_key : String
  pub gpu_idle_stop_minutes : ℕ

-- The states of an EC2 instance.
pub data InstanceState : Type 0 where
  pending running shutting_down terminated stopping stopped : InstanceState

-- A refused request (ClientError), or any other failure of the client, such as a waiter's.
pub data AwsError : Type 0 where
  client_error boto_core_error : AwsError

-- One reply to SCAN: the next cursor, and whether the page holds a key.
pub record Page : Type 0 where
  pub cursor : ℕ
  pub has_keys : Bool

-- What the service talks to, besides its own key in Redis: EC2, the pages that successive SCAN
-- calls give for the two lock patterns, and the length of the face queue at the broker.
pub record Cloud : Type 1 where
  pub World : Type 0
  -- no state where the response names no instance
  pub describe_instances : World → Result AwsError (Option InstanceState) × World
  pub start_instances : World → Result AwsError Unit × World
  pub stop_instances : World → Result AwsError Unit × World
  pub wait_until_stopped : World → Result AwsError Unit × World
  pub wait_until_running : World → Result AwsError Unit × World
  pub pipeline_lock_pages : World → List Page
  pub clustering_lock_pages : World → List Page
  pub queue_length : World → ℕ

-- GpuHostError, or a client failure that the service does not translate.
pub data GpuError : Type 0 where
  gpu_host_error : GpuError
  aws : AwsError → GpuError

pub data Status : Type 0 where
  skipped status_running started error busy waiting status_stopped : Status

-- `_scan_exists`; a scan that ends has the cursor 0 on its last page.
pub scan_exists : List Page → Bool
scan_exists [] = false
scan_exists (p ∷ rest) =
    let more = scan_exists rest in
    if p.has_keys then true else if p.cursor == 0 then false else more

-- ClientError is translated to GpuHostError, and anything else passes.
abbrev translate : AwsError → GpuError
translate client_error = gpu_host_error
translate boto_core_error = aws boto_core_error

abbrev translated : {A : Type 0} → Result AwsError A → Result GpuError A
translated (ok a) = ok a
translated (err e) = err (translate e)

-- What the waiters raise is passed on as it is.
abbrev passed_on : {A : Type 0} → Result AwsError A → Result GpuError A
passed_on (ok a) = ok a
passed_on (err e) = err (aws e)

abbrev found : Option InstanceState → Result GpuError InstanceState
found none = err gpu_host_error
found (some s) = ok s

abbrev idle_value : Option Value → Option ℕ
idle_value (some (stamp t)) = some t
idle_value _ = none

-- The world outside and the app's Redis.
pub record Host (World Db : Type 0) : Type 0 where
  pub world : World
  pub db : Db

-- A failure of GpuHostError becomes the status `error`.
abbrev pub settle_error : {S : Type 0} → Result GpuError Status × S → Result GpuError Status × S
settle_error (err gpu_host_error, s) = (ok error, s)
settle_error (x, s) = (x, s)

abbrev pub or_error : {S : Type 0} → Effect S GpuError Status → Effect S GpuError Status
or_error m s = settle_error (m s)

abbrev pub reachable : {S : Type 0} → Result GpuError InstanceState × S → Result GpuError Bool × S
reachable (ok running, s) = (ok true, s)
reachable (ok pending, s) = (ok true, s)
reachable (ok _, s) = (ok false, s)
reachable (err gpu_host_error, s) = (ok false, s)
reachable (err (aws e), s) = (err (aws e), s)

module _ (r : Redis) (cloud : Cloud) (settings : Settings) (injected : Bool) where
  abbrev pub State : Type 0
  State = Host cloud.World r.Db

  abbrev pub Method : Type 0 → Type 0
  Method A = Effect State GpuError A

  unfoldable pub is_configured : Bool
  is_configured = not (str_eq settings.gpu_instance_id "")

  -- `_ec2_client`: an injected client, or one from the two keys
  ec2_client : Method Unit
  ec2_client =
      if injected
        || not (str_eq settings.aws_compute_access_key_id "")
          && not (str_eq settings.aws_compute_secret_access_key "")
      then pure tt
      else raise gpu_host_error

  request :
      {A : Type 0} → (cloud.World → Result AwsError A × cloud.World) → Method (Result AwsError A)
  request call h = let (x, w) = call h.world in (ok x, record h { world = w })

  lift : {A : Type 0} → Result GpuError A → Method A
  lift x h = (x, h)

  pub describe_state : Method InstanceState
  unfolding ec2_client request lift
  describe_state = do
    ec2_client
    response ← request cloud.describe_instances
    instances ← lift (translated response)
    lift (found instances)

  start_instances : Method Unit
  unfolding ec2_client request lift
  start_instances = do
    ec2_client
    response ← request cloud.start_instances
    lift (translated response)

  stop_instances : Method Unit
  unfolding ec2_client request lift
  stop_instances = do
    ec2_client
    response ← request cloud.stop_instances
    lift (translated response)

  pub wait_stopped : Method Unit
  unfolding ec2_client request lift
  wait_stopped = do
    ec2_client
    response ← request cloud.wait_until_stopped
    lift (passed_on response)

  wait_running : Method Unit
  unfolding ec2_client request lift
  wait_running = do
    ec2_client
    response ← request cloud.wait_until_running
    lift (passed_on response)

  unfoldable pub face_work_in_progress : State → Bool
  unfolding scan_exists
  face_work_in_progress h =
      scan_exists (cloud.pipeline_lock_pages h.world)
      || scan_exists (cloud.clustering_lock_pages h.world)
      || ltb 0 (cloud.queue_length h.world)

  pub idle_since : ℕ → State → Option ℕ
  idle_since now h = idle_value (r.get now gpu_idle_since h.db)

  mark_idle_since : ℕ → Method Unit
  mark_idle_since when h = (ok tt, record h { db = r.set gpu_idle_since (stamp when) h.db })

  clear_idle_since : Method Unit
  clear_idle_since h = (ok tt, record h { db = r.delete gpu_idle_since h.db })

  unfoldable pub is_reachable : Method Bool
  unfolding is_configured describe_state
  is_reachable h = if is_configured then reachable (describe_state h) else (ok true, h)

  pub boot : Method Status
  unfolding start_instances wait_running clear_idle_since
  boot = do start_instances; wait_running; clear_idle_since; pure started

  -- The branches of `ensure_running` on the described state.
  pub launch : InstanceState → Method Status
  unfolding boot wait_stopped clear_idle_since
  launch running = do clear_idle_since; pure status_running
  launch pending = do clear_idle_since; pure status_running
  launch shutting_down = pure error
  launch stopping = do wait_stopped; boot
  launch _ = boot

  unfoldable pub ensure_running : Method Status
  unfolding is_configured describe_state launch
  ensure_running =
      if not is_configured then pure skipped else or_error (do state ← describe_state; launch state)

  unfoldable pub threshold : ℕ
  threshold = seconds (settings.gpu_idle_stop_minutes * 60)

  stop_now : Method Status
  unfolding stop_instances clear_idle_since
  stop_now = do stop_instances; clear_idle_since; pure status_stopped

  -- The rest of `stop_if_idle` where the machine runs and has no work, on the idle timer.
  pub check_timer : ℕ → Option ℕ → Method Status
  unfolding mark_idle_since threshold stop_now
  check_timer now none = do mark_idle_since now; pure waiting
  check_timer now (some since) = if ltb now (since + threshold) then pure waiting else stop_now

  pub check_work : ℕ → InstanceState → Method Status
  unfolding clear_idle_since face_work_in_progress idle_since check_timer
  check_work now running h =
      if face_work_in_progress h
      then (do clear_idle_since; pure busy) h
      else check_timer now (idle_since now h) h
  check_work now _ h = (do clear_idle_since; pure skipped) h

  unfoldable pub stop_if_idle : ℕ → Method Status
  unfolding is_configured describe_state check_work
  stop_if_idle now =
      if not is_configured
      then pure skipped
      else or_error (do state ← describe_state; check_work now state)
