-- ===== src/Redis/Data.antt =====
-- Keys and values that the backend stores in Redis, and the life of an entry.
use event_vision_pipeline.Base.{
  ℕ, ◌+◌, ◌*◌, String, Bool, true, false, ◌&&◌, Option, none, some, leb, ◌==◌, str_eq,
  if◌then◌else◌, ◌≡◌, refl, str_eq_refl, arith, eq_iff,
}

-- The key templates of utils/otp.py, ml/clustering/locks.py, ml/processing_progress.py,
-- ml/face_processing_watch.py and services/gpu_host_service.py. A destination is a phone number or
-- an email address and a purpose is one of three labels, so the formatted keys are as distinct as
-- these constructors are. An event id is a number.
pub data Key : Type 0 where
  otp_code otp_attempts otp_cooldown : String → String → Key
  clustering_lock face_pipeline_lock : ℕ → Key
  processing face_watch face_requeue face_give_up : ℕ → Key
  gpu_idle_since : Key

abbrev pub same_key : Key → Key → Bool
same_key (otp_code a b) (otp_code c d) = str_eq a c && str_eq b d
same_key (otp_attempts a b) (otp_attempts c d) = str_eq a c && str_eq b d
same_key (otp_cooldown a b) (otp_cooldown c d) = str_eq a c && str_eq b d
same_key (clustering_lock a) (clustering_lock b) = a == b
same_key (face_pipeline_lock a) (face_pipeline_lock b) = a == b
same_key (processing a) (processing b) = a == b
same_key (face_watch a) (face_watch b) = a == b
same_key (face_requeue a) (face_requeue b) = a == b
same_key (face_give_up a) (face_give_up b) = a == b
same_key gpu_idle_since gpu_idle_since = true
same_key _ _ = false

pub same_key_refl : (k : Key) → same_key k k ≡ true
same_key_refl (otp_code a b) = ground (arith, str_eq_refl a, str_eq_refl b)
same_key_refl (otp_attempts a b) = ground (arith, str_eq_refl a, str_eq_refl b)
same_key_refl (otp_cooldown a b) = ground (arith, str_eq_refl a, str_eq_refl b)
same_key_refl gpu_idle_since = refl
same_key_refl _ = ground arith

-- A bulk face-processing progress hash (the fields of ProcessingProgress).
pub record Progress : Type 0 where
  pub total_photos : ℕ
  pub processed_photos : ℕ
  pub failed_photos : ℕ
  pub total_faces : ℕ
  pub embedded_faces : ℕ
  pub status : String
  pub started_at : Option ℕ
  pub eta_seconds : Option ℕ

-- What is stored: a text, a counter, an instant in ISO form, a lock token, the mark "1", and the
-- two hashes. A HSET of the backend always writes every field of its hash.
pub data Value : Type 0 where
  text : String → Value
  count : ℕ → Value
  stamp : ℕ → Value
  token : ℕ → Value
  mark : Value
  watch : Option ℕ → Option ℕ → Value
  progress : Progress → Value

pub record Entry : Type 0 where
  pub value : Value
  pub expires : Option ℕ

abbrev pub seconds : ℕ → ℕ
seconds n = n * 1000000

abbrev pub deadline : ℕ → ℕ → Option ℕ
deadline now ttl = some (now + seconds ttl)

-- An entry is gone from its deadline on.
abbrev pub alive : ℕ → Entry → Option ℕ → Option Entry
alive now e none = some e
alive now e (some t) = if leb t now then none else some e

abbrev pub live : ℕ → Option Entry → Option Entry
live now none = none
live now (some e) = alive now e e.expires

-- INCR: a missing key counts as 0, the time to live stays, a value that is no number is refused.
abbrev pub counted : Value → Option ℕ
counted (count n) = some (n + 1)
counted _ = none

abbrev pub incr_reply : Option Entry → Option ℕ
incr_reply none = some 1
incr_reply (some e) = counted e.value

abbrev pub recount : Option ℕ → Entry → Entry
recount none e = e
recount (some n) e = record e { value = count n }

abbrev pub incr_entry : Option Entry → Option Entry
incr_entry none = some (record { value = count 1; expires = none })
incr_entry (some e) = some (recount (counted e.value) e)

abbrev pub expire_entry : Option ℕ → Option Entry → Option Entry
expire_entry t none = none
expire_entry t (some e) = some (record e { expires = t })

abbrev pub kept_expiry : Option Entry → Option ℕ
kept_expiry none = none
kept_expiry (some e) = e.expires

abbrev pub value_of : Option Entry → Option Value
value_of none = none
value_of (some e) = some e.value

abbrev pub is_none {ℓ} : {A : Type ℓ} → Option A → Bool
is_none none = true
is_none (some _) = false

abbrev pub is_some {ℓ} : {A : Type ℓ} → Option A → Bool
is_some none = false
is_some (some _) = true

pub same_key-eq : (k j : Key) → same_key k j ≡ true → k ≡ j
same_key-eq (otp_code a b) (otp_code c d) h = ground (arith, eq_iff a c, eq_iff b d)
same_key-eq (otp_attempts a b) (otp_attempts c d) h = ground (arith, eq_iff a c, eq_iff b d)
same_key-eq (otp_cooldown a b) (otp_cooldown c d) h = ground (arith, eq_iff a c, eq_iff b d)
same_key-eq (clustering_lock a) (clustering_lock b) h = ground arith
same_key-eq (face_pipeline_lock a) (face_pipeline_lock b) h = ground arith
same_key-eq (processing a) (processing b) h = ground arith
same_key-eq (face_watch a) (face_watch b) h = ground arith
same_key-eq (face_requeue a) (face_requeue b) h = ground arith
same_key-eq (face_give_up a) (face_give_up b) h = ground arith
same_key-eq gpu_idle_since gpu_idle_since h = refl
same_key-eq _ _ h = cc
