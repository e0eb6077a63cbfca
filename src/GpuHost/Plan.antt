-- ===== src/GpuHost/Plan.antt =====
-- `ensure_running` of services/gpu_host_service.py against a table of its requests to EC2.
use event_vision_pipeline.Base.{
  Bool, true, not, ◌&&◌, ◌||◌, Option, none, some, List, [], ◌∷◌, ◌≡◌, refl, inl, inr, Bool-cases,
  str_eq, if◌then◌else◌,
}
use event_vision_pipeline.Base.Effect.{Result, ok, err, after, Result-cases}
use event_vision_pipeline.Redis.{Redis}
use event_vision_pipeline.GpuHost.{
  Settings, Cloud, State, GpuError, aws, AwsError, client_error, boto_core_error, Status, skipped,
  started, error, status_running, InstanceState, running, pending, shutting_down, terminated,
  stopping, stopped, ensure_running, boot, wait_stopped, settle_error, is_configured,
}

-- The requests after the first, which describes the instance.
pub data Request : Type 0 where
  until_stopped start_instance until_running : Request

-- What is asked of EC2 for an instance in a state, and the answer where nothing fails.
abbrev pub plan : InstanceState → List Request
plan stopping = until_stopped ∷ start_instance ∷ until_running ∷ []
plan stopped = start_instance ∷ until_running ∷ []
plan terminated = start_instance ∷ until_running ∷ []
plan _ = []

abbrev pub success : InstanceState → Status
success running = status_running
success pending = status_running
success shutting_down = error
success _ = started

-- A refusal of the start is answered; a waiter that fails, or any other failure, is raised.
abbrev pub verdict : Status → Option (Request × AwsError) → Result GpuError Status
verdict status none = ok status
verdict status (some (start_instance, client_error)) = ok error
verdict status (some (request, e)) = err (aws e)

module _ (cloud : Cloud) where
  abbrev pub perform : Request → cloud.World → Result AwsError Unit × cloud.World
  perform until_stopped w = cloud.wait_until_stopped w
  perform start_instance w = cloud.start_instances w
  perform until_running w = cloud.wait_until_running w

  abbrev pub failure :
      Request → Result AwsError Unit → Option (Request × AwsError) → Option (Request × AwsError)
  failure request (ok _) later = later
  failure request (err e) later = some (request, e)

  abbrev pub first_failure : List Request → cloud.World → Option (Request × AwsError)
  first_failure [] w = none
  first_failure (request ∷ rest) w =
      let later = first_failure rest (perform request w).1 in
      failure request (perform request w).0 later

  -- The answer by what EC2 says of the instance.
  abbrev pub answer_to :
      Result AwsError (Option InstanceState) × cloud.World → Result GpuError Status
  answer_to (err client_error, w) = ok error
  answer_to (err boto_core_error, w) = err (aws boto_core_error)
  answer_to (ok none, w) = ok error
  answer_to (ok (some i), w) = verdict (success i) (first_failure (plan i) w)

abbrev pub has_client : Settings → Bool → Bool
has_client settings injected =
    injected
    || not (str_eq settings.aws_compute_access_key_id "")
      && not (str_eq settings.aws_compute_secret_access_key "")

module _ (r : Redis) (cloud : Cloud) (settings : Settings) (injected : Bool)
    (client : has_client settings injected ≡ true) where
  booted :
      (h : State r cloud settings injected)
      → (settle_error (boot r cloud settings injected h)).0
        ≡ verdict started (first_failure cloud (start_instance ∷ until_running ∷ []) h.world)
  unfolding boot
  booted h = rw client (elim (Result-cases (cloud.start_instances h.world).0) [
    | inr (client_error, e) ↦ rw e refl
    | inr (boto_core_error, e) ↦ rw e refl
    | inl (done, e) ↦
        rw e (elim (Result-cases (cloud.wait_until_running (cloud.start_instances h.world).1).0) [
          | inr (x, f) ↦ rw f refl
          | inl (up, f) ↦ rw f refl
        ])
  ])

  stopped_first :
      (h : State r cloud settings injected)
      → (settle_error (
          after (wait_stopped r cloud settings injected h) (λ _. boot r cloud settings injected))).0
        ≡ verdict started
            (first_failure cloud (until_stopped ∷ start_instance ∷ until_running ∷ []) h.world)
  unfolding wait_stopped
  stopped_first h = rw client (elim (Result-cases (cloud.wait_until_stopped h.world).0) [
    | inr (x, e) ↦ rw e refl
    | inl (done, e) ↦ rw e (booted (record h { world = (cloud.wait_until_stopped h.world).1 }))
  ])

module _ (r : Redis) (cloud : Cloud) (settings : Settings) (injected : Bool)
    (h : State r cloud settings injected) where
  after_reply :
      (p : Result AwsError (Option InstanceState) × cloud.World)
      → cloud.describe_instances h.world ≡ p
      → is_configured r cloud settings injected ≡ true
      → has_client settings injected ≡ true
      → (ensure_running r cloud settings injected h).0 ≡ answer_to cloud p
  unfolding ensure_running
  after_reply (err client_error, w) e c k = rw (c, k, e) refl
  after_reply (err boto_core_error, w) e c k = rw (c, k, e) refl
  after_reply (ok none, w) e c k = rw (c, k, e) refl
  after_reply (ok (some running), w) e c k = rw (c, k, e) refl
  after_reply (ok (some pending), w) e c k = rw (c, k, e) refl
  after_reply (ok (some shutting_down), w) e c k = rw (c, k, e) refl
  after_reply (ok (some terminated), w) e c k =
      rw (c, k, e) (booted r cloud settings injected k (record h { world = w }))
  after_reply (ok (some stopping), w) e c k =
      rw (c, k, e) (stopped_first r cloud settings injected k (record h { world = w }))
  after_reply (ok (some stopped), w) e c k =
      rw (c, k, e) (booted r cloud settings injected k (record h { world = w }))

  pub ensure_running_follows_plan : (ensure_running r cloud settings injected h).0 ≡ (
      if is_configured r cloud settings injected
      then (if has_client settings injected
          then answer_to cloud (cloud.describe_instances h.world)
          else ok error)
      else ok skipped)
  unfolding ensure_running
  ensure_running_follows_plan = elim (Bool-cases (is_configured r cloud settings injected)) [
    | inr c ↦ rw c refl
    | inl c ↦ elim (Bool-cases (has_client settings injected)) [
      | inl k ↦ rw (after_reply (cloud.describe_instances h.world) refl c k) (rw (c, k) refl)
      | inr k ↦ rw (c, k) refl
    ]
  ]
