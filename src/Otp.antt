-- ===== src/Otp.antt =====
-- utils/otp.py, the class OTPService: one-time codes in Redis. A method that writes to Redis and may
-- raise is an `Effect`; the clock is read once for each call, and log lines are left out.
-- The proofs are in the modules below.
mod Slot
pub mod Attempts
pub mod Cooldown
pub mod Pair
mod Examples
use event_vision_pipeline.Base.{
  ℕ, String, Bool, true, false, not, ◌&&◌, ◌||◌, Option, none, some, leb, ltb, ◌==◌, str_eq,
  if◌then◌else◌,
}
use event_vision_pipeline.Base.Effect.{
  Result, ok, err, Effect, pure, raise, gets, modify, ◌>>=◌, ◌>>◌,
}
use event_vision_pipeline.Redis.{
  Redis, Key, otp_code, otp_attempts, otp_cooldown, Value, text, count,
}

-- The settings that the service reads. `development` stands for the test of the environment's name.
pub record Settings : Type 0 where
  pub otp_expiry_seconds : ℕ
  pub otp_max_attempts : ℕ
  pub otp_cooldown_seconds : ℕ
  pub debug : Bool
  pub development : Bool

-- What the methods raise. `not_a_number` is Python's or Redis's own error on a malformed counter.
pub data OtpError : Type 0 where
  cooldown_error max_attempts_error sms_delivery_error email_delivery_error not_a_number : OtpError

-- The delivery adapters: whether a message was delivered.
pub record Delivery : Type 0 where
  pub email_send : String → String → String → Bool
  pub sms_send_otp : String → String → Bool

abbrev pub otp_channel_email : String
otp_channel_email = "email"

abbrev pub otp_channel_sms : String
otp_channel_sms = "sms"

-- int(count), and 0 where there is no value
abbrev pub cooldown_count : Option Value → Result OtpError ℕ
cooldown_count none = ok 0
cooldown_count (some (count n)) = ok n
cooldown_count (some v) = err not_a_number

-- phone_stored == phone_otp, of a code that was stored as text
abbrev pub stored_equals : Option Value → String → Bool
stored_equals (some (text s)) otp = str_eq s otp
stored_equals _ otp = false

-- stored_otp and stored_otp == otp: an empty text is false
abbrev pub stored_matches : Option Value → String → Bool
stored_matches (some (text s)) otp = not (str_eq s "") && str_eq s otp
stored_matches _ otp = false

abbrev pub reply : Option ℕ → Result OtpError ℕ
reply none = err not_a_number
reply (some n) = ok n

module _ (r : Redis) (settings : Settings) where
  abbrev Method : Type 0 → Type 0
  Method A = Effect r.Db OtpError A

  incr : ℕ → Key → Method ℕ
  incr now k db = let (n, db') = r.incr now k db in (reply n, db')

  module _ (delivery : Delivery) where
    pub deliver : String → String → String → String → Bool
    deliver destination purpose otp channel =
        if str_eq channel otp_channel_email
        then delivery.email_send destination purpose otp
        else delivery.sms_send_otp destination otp

    -- The tail of `send_otp`, from the delivery on.
    settle : String → String → String → String → Method Unit
    unfolding deliver
    settle destination purpose otp channel =
        if deliver destination purpose otp channel
        then pure tt
        else if settings.debug
        then pure tt
        else do
          modify (r.delete (otp_code destination purpose))
          modify (r.delete (otp_cooldown destination purpose))
          raise (
              if str_eq channel otp_channel_email then email_delivery_error else sms_delivery_error)

    -- `otp` is the code that `_generate_otp` drew.
    pub send_otp : ℕ → String → String → String → String → Method Unit
    unfolding incr settle
    send_otp now destination purpose channel otp = do
      held ← gets (r.get now (otp_cooldown destination purpose))
      sent ← λ db. (cooldown_count held, db)
      if leb 2 sent then raise cooldown_error else do
        modify (r.setex now (otp_code destination purpose) settings.otp_expiry_seconds (text otp))
        new_count ← incr now (otp_cooldown destination purpose)
        if new_count == 1
            then modify
                (r.expire now (otp_cooldown destination purpose) settings.otp_cooldown_seconds)
            else pure tt
        modify (r.delete (otp_attempts destination purpose))
        settle destination purpose otp channel

  pub peek_otp : ℕ → String → String → Method (Option Value)
  peek_otp now destination purpose = gets (r.get now (otp_code destination purpose))

  -- The code 123456 passes on development machines.
  pub bypass : String → Bool
  bypass otp = (settings.debug || settings.development) && str_eq otp "123456"

  -- The tail of `verify_otp` on a match, and that of `verify_otp_pair`.
  consume : String → String → Method Bool
  consume destination purpose = do
    modify (r.delete (otp_code destination purpose))
    modify (r.delete (otp_attempts destination purpose))
    pure true

  consume_pair : String → String → String → Method Bool
  consume_pair phone email purpose = do
    modify (r.delete (otp_code phone purpose))
    modify (r.delete (otp_code email purpose))
    modify (r.delete (otp_attempts phone purpose))
    modify (r.delete (otp_attempts email purpose))
    pure true

  pub verify_otp : ℕ → String → String → String → Method Bool
  unfolding bypass incr consume
  verify_otp now destination purpose otp = if bypass otp then pure true else do
    attempts ← incr now (otp_attempts destination purpose)
    modify (r.expire now (otp_attempts destination purpose) settings.otp_expiry_seconds)
    if ltb settings.otp_max_attempts attempts then raise max_attempts_error else do
      stored_otp ← gets (r.get now (otp_code destination purpose))
      if stored_matches stored_otp otp then consume destination purpose else pure false

  pub verify_otp_pair : ℕ → String → String → String → String → String → Method Bool
  unfolding bypass incr peek_otp consume_pair
  verify_otp_pair now phone phone_otp email email_otp purpose =
      if bypass phone_otp && str_eq email_otp "123456" then pure true else do
        phone_attempts ← incr now (otp_attempts phone purpose)
        email_attempts ← incr now (otp_attempts email purpose)
        modify (r.expire now (otp_attempts phone purpose) settings.otp_expiry_seconds)
        modify (r.expire now (otp_attempts email purpose) settings.otp_expiry_seconds)
        if ltb settings.otp_max_attempts phone_attempts
              || ltb settings.otp_max_attempts email_attempts
            then raise max_attempts_error
            else do
              phone_stored ← peek_otp now phone purpose
              email_stored ← peek_otp now email purpose
              if stored_equals phone_stored phone_otp && stored_equals email_stored email_otp
                  then consume_pair phone email purpose
                  else pure false
