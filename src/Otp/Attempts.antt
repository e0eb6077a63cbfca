-- ===== src/Otp/Attempts.antt =====
-- Guesses at one code: `send_otp` of utils/otp.py followed by calls of `verify_otp`.
use event_vision_pipeline.Base.{
  ℕ, suc, ◌+◌, ◌≤◌, ◌<◌, String, Bool, true, false, ltb, Option, none, some, List, [], ◌∷◌, length,
  str_eq, if◌then◌else◌, ◌≢◌, ◌≡◌, refl, ◌⊎◌, inl, inr, ◌∙◌, sym, arith, str_eq_refl, Bool-cases,
}
use native.Mathlib.Nat.{zero-add, add-zero, add-suc, suc-add}
use event_vision_pipeline.Base.Effect.{ok, err}
use event_vision_pipeline.Redis.{Redis, Entry, text, count, seconds}
use event_vision_pipeline.Otp.{
  Settings, max_attempts_error, Delivery, deliver, send_otp, verify_otp, bypass,
}
use event_vision_pipeline.Otp.Slot.{
  Slot, slot, verify_slot, send_slot, verify_otp-slot, send_otp-slot,
}

-- A guess is a clock value and a code.
abbrev pub Guess : Type 0
Guess = ℕ × String

-- The guesses are made one after the other, from `from` on, and the last one not after `last`.
abbrev pub InOrder : ℕ → ℕ → List Guess → Type 0
InOrder from last [] = from ≤ last
InOrder from last ((t, g) ∷ rest) = (from ≤ t) × InOrder t last rest

-- No guess is the code, and none is the development code on a development machine.
abbrev pub AllWrong : Redis → Settings → String → List Guess → Type 0
AllWrong r settings otp [] = Unit
AllWrong r settings otp ((t, g) ∷ rest) =
    (str_eq otp g ≡ false) × (bypass r settings g ≡ false) × AllWrong r settings otp rest

-- The database after the guesses; what each of them returned is dropped.
abbrev pub verify_all : (r : Redis) → Settings → String → String → List Guess → r.Db → r.Db
verify_all r settings destination purpose [] db = db
verify_all r settings destination purpose ((t, g) ∷ rest) db =
    verify_all r settings destination purpose rest
      (verify_otp r settings t destination purpose g db).1

-- `n` guesses are counted until the code's own deadline `d` at least.
abbrev Counts : ℕ → ℕ → Option Entry → Type 0
Counts n d attempts =
    ((attempts ≡ none) × (n ≡ 0))
    ⊎ ((a : ℕ) × (attempts ≡ some (record { value = count n; expires = some a })) × (d ≤ a))

-- At time `t` the code is stored until `d`, and is dead or guarded by the count.
record IsGuarded (otp : String) (d n t : ℕ) (s : Slot) : Type 0 where
  pub stored : s.code ≡ some (record { value = text otp; expires = some d })
  pub guarded : (d ≤ t) ⊎ Counts n d s.attempts

module _ (settings : Settings) (otp : String) (d : ℕ) where
  verify_slot-IsGuarded :
      (n u t : ℕ) (g : String) (s : Slot)
      → u ≤ t
      → d ≤ t + seconds settings.otp_expiry_seconds
      → str_eq otp g ≡ false
      → IsGuarded otp d n u s
      → IsGuarded otp d (suc n) t (verify_slot settings t g s).1
  verify_slot-IsGuarded n u t g s h e w v = record {
    stored = ground arith;
    guarded = elim (Bool-cases (ltb t d)) [
      | inl q ↦ inr (inr (t + seconds settings.otp_expiry_seconds, ground arith, e))
      | inr q ↦ inl (ground arith)
    ];
  }

  verify_slot_exact :
      (n u t : ℕ) (s : Slot)
      → u ≤ t
      → t < d
      → str_eq otp "" ≡ false
      → IsGuarded otp d n u s
      → (verify_slot settings t otp s).0
        ≡ (if ltb n settings.otp_max_attempts then ok true else err max_attempts_error)
  verify_slot_exact n u t s h e m v = ground (arith, str_eq_refl otp)

  verify_slot_expired :
      (n u t : ℕ) (g : String) (s : Slot)
      → d ≤ t
      → IsGuarded otp d n u s
      → (verify_slot settings t g s).0 ≢ ok true
  verify_slot_expired n u t g s e v p = ground arith

send_slot-IsGuarded :
    (settings : Settings) (otp : String) (now : ℕ) (delivered : Bool) (channel : String) (s : Slot)
    → (send_slot settings delivered channel now otp s).0 ≡ ok tt
    → IsGuarded otp
        (now + seconds settings.otp_expiry_seconds)
        0
        now
        (send_slot settings delivered channel now otp s).1
send_slot-IsGuarded settings otp now delivered channel s h = record {
  stored = ground arith;
  guarded = inr (inl (ground arith, refl));
}

module _ (r : Redis) (settings : Settings) (destination purpose otp : String) (sent : ℕ) where
  abbrev expiry : ℕ
  expiry = sent + seconds settings.otp_expiry_seconds

  -- `n` guesses were made by time `t`, and the code of `sent` was not consumed.
  abbrev Guarded : ℕ → ℕ → r.Db → Type 0
  Guarded n t db = IsGuarded otp expiry n t (slot r db destination purpose)

  verify_otp-Guarded :
      (n u t : ℕ) (g : String) (db : r.Db)
      → sent ≤ u
      → u ≤ t
      → str_eq otp g ≡ false
      → bypass r settings g ≡ false
      → Guarded n u db
      → Guarded (suc n) t (verify_otp r settings t destination purpose g db).1
  verify_otp-Guarded n u t g db s h w b v =
      rw (verify_otp-slot r settings t destination purpose g db b).1 (
        verify_slot-IsGuarded settings otp expiry n u t g (slot r db destination purpose) h
          (omega arith) w v)

  verify_all-Guarded :
      (n from last : ℕ) (guesses : List Guess) (db : r.Db)
      → sent ≤ from
      → InOrder from last guesses
      → AllWrong r settings otp guesses
      → Guarded n from db
      → (u : ℕ) × (u ≤ last)
        × Guarded (n + length guesses) u (verify_all r settings destination purpose guesses db)
  verify_all-Guarded n from last [] db s o w v = (from, o, rw add-zero v)
  verify_all-Guarded n from last ((t, g) ∷ rest) db s o w v =
      rw (add-suc, ← suc-add)
        (verify_all-Guarded (suc n) t last rest (verify_otp r settings t destination purpose g db).1
          (omega arith) o.1 w.2 (verify_otp-Guarded n from t g db s o.0 w.0 w.1 v))

  module _ (delivery : Delivery) (channel : String) where
    send_otp-Guarded :
        (db : r.Db)
        → (send_otp r settings delivery sent destination purpose channel otp db).0 ≡ ok tt
        → Guarded 0 sent (send_otp r settings delivery sent destination purpose channel otp db).1
    send_otp-Guarded db h =
        rw (send_otp-slot r settings delivery sent destination purpose channel otp db).1 (
          send_slot-IsGuarded settings otp sent
            (deliver r settings delivery destination purpose otp channel) channel
            (slot r db destination purpose)
            (sym (send_otp-slot r settings delivery sent destination purpose channel otp db).0 ∙ h))

    after_guesses :
        (db : r.Db) (guesses : List Guess) (last : ℕ)
        → (send_otp r settings delivery sent destination purpose channel otp db).0 ≡ ok tt
        → InOrder sent last guesses
        → AllWrong r settings otp guesses
        → (u : ℕ) × (u ≤ last)
          × Guarded (length guesses) u (
              verify_all r settings destination purpose guesses
                (send_otp r settings delivery sent destination purpose channel otp db).1)
    after_guesses db guesses last h o w = rw zero-add at (
        verify_all-Guarded 0 sent last guesses
          (send_otp r settings delivery sent destination purpose channel otp db).1 (omega arith) o w
          (send_otp-Guarded db h))

    -- Let a code be sent, and let guesses that are wrong be made after it, in order of time. Then
    -- the code itself, given within its lifetime, passes exactly while fewer than
    -- `otp_max_attempts` guesses were made, and raises the error of too many attempts from then on.
    pub accepted_exactly :
        (db : r.Db) (guesses : List Guess) (last t : ℕ)
        → (send_otp r settings delivery sent destination purpose channel otp db).0 ≡ ok tt
        → InOrder sent last guesses
        → AllWrong r settings otp guesses
        → last ≤ t
        → t < expiry
        → bypass r settings otp ≡ false
        → str_eq otp "" ≡ false
        → (verify_otp r settings t destination purpose otp (
            verify_all r settings destination purpose guesses
              (send_otp r settings delivery sent destination purpose channel otp db).1)).0
          ≡ (if ltb (length guesses) settings.otp_max_attempts
              then ok true
              else err max_attempts_error)
    accepted_exactly db guesses last t h o w l e b m =
        let (u, q, v) = after_guesses db guesses last h o w in
        rw (verify_otp-slot r settings t destination purpose otp _ b).0
          (verify_slot_exact settings otp expiry (length guesses) u t _ (omega arith) e m v)

    -- Whatever wrong guesses were made, from the end of the lifetime on no code passes but the development
    -- bypass (123456, and only in debug mode or on a development machine).
    pub expired-ne-true :
        (db : r.Db) (guesses : List Guess) (last t : ℕ) (g : String)
        → (send_otp r settings delivery sent destination purpose channel otp db).0 ≡ ok tt
        → InOrder sent last guesses
        → AllWrong r settings otp guesses
        → last ≤ t
        → expiry ≤ t
        → bypass r settings g ≡ false
        → (verify_otp r settings t destination purpose g (
            verify_all r settings destination purpose guesses
              (send_otp r settings delivery sent destination purpose channel otp db).1)).0
          ≢ ok true
    expired-ne-true db guesses last t g h o w l e b p =
        let (u, q, v) = after_guesses db guesses last h o w in
        verify_slot_expired settings otp expiry (length guesses) u t g _ e v
          (sym (verify_otp-slot r settings t destination purpose g _ b).0 ∙ p)
