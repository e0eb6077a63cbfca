-- ===== src/Otp/Pair.antt =====
-- `verify_otp_pair` of utils/otp.py.
use event_vision_pipeline.Base.{
  ℕ, String, Bool, false, not, ◌&&◌, ◌||◌, none, some, ltb, str_eq, if◌then◌else◌, ◌≡◌, refl, inl,
  inr, Bool-cases, str_ne_sym,
}
use event_vision_pipeline.Base.Effect.{Result, ok, err}
use event_vision_pipeline.Redis.{Redis, live, value_of, incr_reply, redis_laws}
use event_vision_pipeline.Otp.{
  Settings, OtpError, max_attempts_error, stored_equals, verify_otp_pair, bypass,
}
use event_vision_pipeline.Otp.Slot.{Slot, slot, count_attempt}

-- What becomes of the two slots: both lose code and attempts, or both keep their code and count the
-- guess.
abbrev consumed : Slot → Slot
consumed s = record s { code = none; attempts = none }

abbrev counted : Settings → ℕ → Slot → Slot
counted settings now s = record s {
  attempts = count_attempt settings.otp_expiry_seconds now s.attempts;
}

abbrev both_match : ℕ → String → String → Slot → Slot → Bool
both_match now phone_otp email_otp s t =
    stored_equals (value_of (live now s.code)) phone_otp
    && stored_equals (value_of (live now t.code)) email_otp

module _ (r : Redis) (settings : Settings) (now : ℕ)
    (phone phone_otp email email_otp purpose : String) (db : r.Db)
    (different : str_eq phone email ≡ false) (m n : ℕ)
    (phone_tries : incr_reply (live now (slot r db phone purpose).attempts) ≡ some m)
    (email_tries : incr_reply (live now (slot r db email purpose).attempts) ≡ some n)
    (guarded : (bypass r settings phone_otp && str_eq email_otp "123456") ≡ false) where
  abbrev s : Slot
  s = slot r db phone purpose

  abbrev t : Slot
  t = slot r db email purpose

  abbrev result : Result OtpError Bool × r.Db
  result = verify_otp_pair r settings now phone phone_otp email email_otp purpose db

  abbrev over : Bool
  over = ltb settings.otp_max_attempts m || ltb settings.otp_max_attempts n

  apart : str_eq email phone ≡ false
  apart = str_ne_sym phone email different

  -- What a slot becomes: it keeps its code and counts the guess, unless both codes match.
  abbrev settled : Slot → Slot
  settled u =
      if not over && both_match now phone_otp email_otp s t
      then consumed u
      else counted settings now u

  -- For two destinations that differ, with `m` and `n` attempts counted by this one, and no
  -- development codes: the error of too many attempts is raised exactly where one of the counts
  -- passes the limit; else the answer is whether both codes match. Both codes are consumed where
  -- the answer is true, and in every other case both stay and both attempts are counted.
  pub pair_all_or_nothing :
      (result.0
        ≡ (if over then err max_attempts_error else ok (both_match now phone_otp email_otp s t)))
      × (slot r result.1 phone purpose ≡ settled s)
      × (slot r result.1 email purpose ≡ settled t)
  unfolding verify_otp_pair
  pair_all_or_nothing = rw guarded (
      simp redis_laws (
        rw phone_tries (
          simp (redis_laws, different, email_tries)
            (elim (Bool-cases over) [
              | inl o ↦ rw o (simp (redis_laws, different, apart) (refl, refl, refl))
              | inr o ↦ rw o (
                  simp (redis_laws, different, apart)
                    (elim (Bool-cases (both_match now phone_otp email_otp s t)) [
                      | inl q ↦ rw q (simp (redis_laws, different, apart) (refl, refl, refl))
                      | inr q ↦ rw q (simp (redis_laws, different, apart) (refl, refl, refl))
                    ]))
            ]))))
