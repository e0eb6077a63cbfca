-- ===== src/Otp/Slot.antt =====
-- The state of one destination and purpose, and what each method does to it.
use event_vision_pipeline.Base.{
  ℕ, ◌+◌, String, Bool, true, false, ◌||◌, Option, none, some, leb, ltb, ◌==◌, str_eq,
  if◌then◌else◌, ◌≡◌, arith,
}
use event_vision_pipeline.Base.Effect.{Result, ok, err}
use event_vision_pipeline.Redis.{
  Redis, Entry, otp_code, otp_attempts, otp_cooldown, text, deadline, live, value_of, incr_reply,
  incr_entry, expire_entry, redis_laws,
}
use event_vision_pipeline.Otp.{
  Settings, OtpError, cooldown_error, max_attempts_error, sms_delivery_error, email_delivery_error,
  not_a_number, Delivery, stored_matches, cooldown_count, deliver, send_otp, otp_channel_email,
  verify_otp, bypass,
}

pub record Slot : Type 0 where
  pub code : Option Entry
  pub attempts : Option Entry
  pub cooldown : Option Entry

abbrev pub slot : (r : Redis) → r.Db → String → String → Slot
slot r db destination purpose = record {
  code = r.entry db (otp_code destination purpose);
  attempts = r.entry db (otp_attempts destination purpose);
  cooldown = r.entry db (otp_cooldown destination purpose);
}

-- After the guard on the number of attempts: the code is compared, and consumed on a match.
abbrev compare_slot : ℕ → String → Slot → Result OtpError Bool × Slot
compare_slot now otp s =
    if stored_matches (value_of (live now s.code)) otp
    then (ok true, record s { code = none; attempts = none })
    else (ok false, s)

abbrev pub count_attempt : ℕ → ℕ → Option Entry → Option Entry
count_attempt expiry now e = expire_entry (deadline now expiry) (live now (incr_entry (live now e)))

abbrev guard_attempt : Settings → ℕ → String → Option ℕ → Slot → Result OtpError Bool × Slot
guard_attempt settings now otp none s = (err not_a_number, s)
guard_attempt settings now otp (some n) s =
    let counted : Slot = record s {
      attempts = count_attempt settings.otp_expiry_seconds now s.attempts;
    } in
    if ltb settings.otp_max_attempts n
    then (err max_attempts_error, counted)
    else compare_slot now otp counted

abbrev pub verify_slot : Settings → ℕ → String → Slot → Result OtpError Bool × Slot
verify_slot settings now otp s = guard_attempt settings now otp (incr_reply (live now s.attempts)) s

-- `send_otp`: nothing changes on a refusal; else a new code, no attempts, one more send in the window.
abbrev window : Settings → ℕ → ℕ → Option Entry → Option Entry
window settings now n e =
    if n + 1 == 1
    then expire_entry (deadline now settings.otp_cooldown_seconds) (live now (incr_entry e))
    else incr_entry e

abbrev pub delivery_error : String → OtpError
delivery_error channel =
    if str_eq channel otp_channel_email then email_delivery_error else sms_delivery_error

abbrev send_counted :
    Settings → Bool → String → ℕ → String → Result OtpError ℕ → Slot → Result OtpError Unit × Slot
send_counted settings delivered channel now otp (err e) s = (err e, s)
send_counted settings delivered channel now otp (ok n) s =
    if leb 2 n
    then (err cooldown_error, s)
    else if delivered || settings.debug
    then (
      ok tt,
      record {
        code =
            some (record { value = text otp; expires = deadline now settings.otp_expiry_seconds });
        attempts = none;
        cooldown = window settings now n (live now s.cooldown);
      },
    )
    else (err (delivery_error channel), record { code = none; attempts = none; cooldown = none })

abbrev pub send_slot : Settings → Bool → String → ℕ → String → Slot → Result OtpError Unit × Slot
send_slot settings delivered channel now otp s =
    send_counted settings delivered channel now otp
      (cooldown_count (value_of (live now s.cooldown))) s

module _ (r : Redis) (settings : Settings) (now : ℕ) (destination purpose otp : String) where
  pub verify_otp-slot :
      (db : r.Db)
      → bypass r settings otp ≡ false
      → ((verify_otp r settings now destination purpose otp db).0
          ≡ (verify_slot settings now otp (slot r db destination purpose)).0)
        × (slot r (verify_otp r settings now destination purpose otp db).1 destination purpose
            ≡ (verify_slot settings now otp (slot r db destination purpose)).1)
  unfolding verify_otp
  verify_otp-slot db h = rw h (simp redis_laws (grind (arith, redis_laws)))

module _ (r : Redis) (settings : Settings) (delivery : Delivery) (now : ℕ)
    (destination purpose channel otp : String) where
  pub send_otp-slot :
      (db : r.Db)
      → ((send_otp r settings delivery now destination purpose channel otp db).0
          ≡ (send_slot settings
              (deliver r settings delivery destination purpose otp channel)
              channel
              now
              otp
              (slot r db destination purpose)).0)
        × (slot r
              (send_otp r settings delivery now destination purpose channel otp db).1
              destination
              purpose
            ≡ (send_slot settings
                (deliver r settings delivery destination purpose otp channel)
                channel
                now
                otp
                (slot r db destination purpose)).1)
  unfolding send_otp
  send_otp-slot db = simp redis_laws (grind (arith, redis_laws))
