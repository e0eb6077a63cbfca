-- ===== src/Otp/Examples.antt =====
-- The theorems about one-time codes at concrete inputs, on the server in memory.
use event_vision_pipeline.Base.{ℕ, String, true, false, none, List, [], ◌∷◌, ◌≡◌, ◌≢◌, refl, arith}
use event_vision_pipeline.Base.Effect.{ok, err}
use event_vision_pipeline.Redis.Memory.{memory, empty}
use event_vision_pipeline.Otp.{
  Settings, email_delivery_error, Delivery, bypass, otp_channel_sms, otp_channel_email, send_otp,
  verify_otp, verify_otp_pair, deliver,
}
use event_vision_pipeline.Otp.Slot.{slot}
use event_vision_pipeline.Otp.Attempts.{Guess, verify_all, accepted_exactly, expired-ne-true}
use event_vision_pipeline.Otp.Cooldown.{Request, send, count_sent, third_refused, undelivered}
use event_vision_pipeline.Otp.Pair.{pair_all_or_nothing}

-- The defaults of config.py, and adapters that deliver by SMS and fail by email.
abbrev settings : Settings
settings = record {
  otp_expiry_seconds = 300;
  otp_max_attempts = 3;
  otp_cooldown_seconds = 60;
  debug = false;
  development = false;
}

abbrev delivery : Delivery
delivery = record { email_send = λ to purpose otp. false; sms_send_otp = λ to otp. true }

abbrev phone : String
phone = "+919800000001"

abbrev start : ℕ
start = 1000000000

abbrev two_guesses : List Guess
two_guesses = (1001000000, "111111") ∷ (1002000000, "222222") ∷ []

abbrev three_guesses : List Guess
three_guesses = (1000500000, "000000") ∷ two_guesses

accepted_exactly_example :
    (verify_otp memory settings 1003000000 phone "login" "424242" (
      verify_all memory settings phone "login" two_guesses
        (send_otp memory settings delivery start phone "login" otp_channel_sms "424242" empty).1)).0
    ≡ ok true
unfolding send_otp bypass
accepted_exactly_example =
    accepted_exactly memory settings phone "login" "424242" start delivery otp_channel_sms empty
      two_guesses 1002000000 1003000000 refl (omega arith) (refl, refl, (refl, refl, tt))
      (omega arith) (omega arith) refl refl

expired-ne-true_example :
    (verify_otp memory settings 1300000000 phone "login" "424242" (
      verify_all memory settings phone "login" two_guesses
        (send_otp memory settings delivery start phone "login" otp_channel_sms "424242" empty).1)).0
    ≢ ok true
unfolding send_otp bypass
expired-ne-true_example =
    expired-ne-true memory settings phone "login" "424242" start delivery otp_channel_sms empty
      two_guesses 1002000000 1300000000 "424242" refl (omega arith) (refl, refl, (refl, refl, tt))
      (omega arith) (omega arith) refl

abbrev request : ℕ → String → Request
request now otp = record { at = now; channel = otp_channel_sms; otp = otp }

abbrev later_requests : List Request
later_requests =
    request 1010000000 "222222" ∷ request 1020000000 "333333" ∷ request 1059000000 "444444" ∷ []

third_refused_example :
    count_sent memory settings delivery phone "login"
      (request start "111111" ∷ later_requests)
      empty
    ≡ 2
unfolding deliver
third_refused_example =
    third_refused memory settings delivery phone "login" (request start "111111") later_requests
      empty (omega arith) refl refl
      (omega arith, refl, (omega arith, refl, (omega arith, refl, tt)))

abbrev by_email : Request
by_email = record { at = start; channel = otp_channel_email; otp = "111111" }

undelivered_example :
    ((send memory settings delivery phone "login" by_email empty).0 ≡ err email_delivery_error)
    × (slot memory (send memory settings delivery phone "login" by_email empty).1 phone "login"
        ≡ record { code = none; attempts = none; cooldown = none })
unfolding deliver
undelivered_example =
    undelivered memory settings delivery phone "login" by_email empty 0 refl (omega arith) refl refl

pair_all_or_nothing_example :
    (verify_otp_pair memory settings 1001000000 phone "424242" "a@b.in" "737373" "registration"
      (send_otp memory settings delivery start phone "registration" otp_channel_sms "424242"
        empty).1).0
    ≡ ok false
unfolding send_otp bypass
pair_all_or_nothing_example =
    (pair_all_or_nothing memory settings 1001000000 phone "424242" "a@b.in" "737373" "registration"
      (send_otp memory settings delivery start phone "registration" otp_channel_sms "424242"
        empty).1
      refl 1 1 refl refl refl).0
