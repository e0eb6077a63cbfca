-- ===== src/Otp/Cooldown.antt =====
-- Rows of calls of `send_otp` (utils/otp.py), and its failed deliveries.
use event_vision_pipeline.Base.{
  ℕ, suc, ◌+◌, ◌≤◌, ◌<◌, String, Bool, true, false, Option, none, some, List, [], ◌∷◌, length, min,
  leb, ◌≡◌, ◌⊎◌, inl, inr, ap, ◌∙◌, sym, arith, Bool-cases,
}
use mathlib.Core.Path.{subst₂}
use event_vision_pipeline.Base.Effect.{Result, ok, err}
use event_vision_pipeline.Redis.{Redis, Entry, count, seconds, live, value_of}
use event_vision_pipeline.Otp.{
  Settings, OtpError, cooldown_error, Delivery, deliver, send_otp, cooldown_count,
}
use event_vision_pipeline.Otp.Slot.{Slot, slot, send_slot, delivery_error, send_otp-slot}

-- One request for a code: the clock, the channel and the code that was drawn.
pub record Request : Type 0 where
  pub at : ℕ
  pub channel : String
  pub otp : String

-- `n` codes were sent in the window that ends at `end`.
abbrev Sent : ℕ → ℕ → Option Entry → Type 0
Sent n end cooldown = cooldown ≡ some (record { value = count n; expires = some end })

-- What one more request does in an open window, told of its result `x` and the slot `t` after it.
abbrev Again : ℕ → ℕ → Result OtpError Unit → Slot → Type 0
Again n end x t =
    ((n < 2) × (x ≡ ok tt) × Sent (suc n) end t.cooldown)
    ⊎ ((2 ≤ n) × (x ≡ err cooldown_error) × Sent n end t.cooldown)

module _ (settings : Settings) (channel otp : String) (now : ℕ) (s : Slot) where
  resend_slot :
      (n end : ℕ)
      → now < end
      → Sent (suc n) end s.cooldown
      → Again
          (suc n)
          end
          (send_slot settings true channel now otp s).0
          (send_slot settings true channel now otp s).1
  resend_slot n end h v = elim (Bool-cases (leb 2 (suc n))) [
    | inl p ↦ inr (ground arith, ground arith, ground arith)
    | inr p ↦ inl (ground arith, ground arith, ground arith)
  ]

  send_slot_undelivered :
      (n : ℕ)
      → cooldown_count (value_of (live now s.cooldown)) ≡ ok n
      → n < 2
      → settings.debug ≡ false
      → ((send_slot settings false channel now otp s).0 ≡ err (delivery_error channel))
        × ((send_slot settings false channel now otp s).1
            ≡ record { code = none; attempts = none; cooldown = none })
  send_slot_undelivered n c m g = ground arith

  send_slot_first :
      0 < settings.otp_cooldown_seconds
      → live now s.cooldown ≡ none
      → ((send_slot settings true channel now otp s).0 ≡ ok tt)
        × Sent 1
            (now + seconds settings.otp_cooldown_seconds)
            (send_slot settings true channel now otp s).1.cooldown
  send_slot_first h v = ground arith

module _ (r : Redis) (settings : Settings) (delivery : Delivery)
    (destination purpose : String) where
  abbrev pub send : Request → r.Db → Result OtpError Unit × r.Db
  send q = send_otp r settings delivery q.at destination purpose q.channel q.otp

  abbrev pub delivered : Request → Bool
  delivered q = deliver r settings delivery destination purpose q.otp q.channel

  -- How many requests of a row were answered with a code, from a database on.
  abbrev is_ok : Result OtpError Unit → ℕ
  is_ok (ok _) = 1
  is_ok (err _) = 0

  pub count_sent : List Request → r.Db → ℕ
  count_sent [] db = 0
  count_sent (q ∷ rest) db = is_ok (send q db).0 + count_sent rest (send q db).1

  -- All requests fall before the end of the window, and each code is delivered.
  abbrev pub InWindow : ℕ → List Request → Type 0
  InWindow end [] = Unit
  InWindow end (q ∷ rest) = (q.at < end) × (delivered q ≡ true) × InWindow end rest

  resend :
      (n end : ℕ) (q : Request) (db : r.Db)
      → q.at < end
      → delivered q ≡ true
      → Sent (suc n) end (slot r db destination purpose).cooldown
      → Again (suc n) end (send q db).0 (slot r (send q db).1 destination purpose)
  resend n end q db h d v =
      let (e, e') = send_otp-slot r settings delivery q.at destination purpose q.channel q.otp db in
      subst₂ (Again (suc n) end) (sym e) (sym e')
        (rw d (resend_slot settings q.channel q.otp q.at (slot r db destination purpose) n end h v))

  send_first :
      (q : Request) (db : r.Db)
      → 0 < settings.otp_cooldown_seconds
      → delivered q ≡ true
      → live q.at (slot r db destination purpose).cooldown ≡ none
      → ((send q db).0 ≡ ok tt)
        × Sent 1
            (q.at + seconds settings.otp_cooldown_seconds)
            (slot r (send q db).1 destination purpose).cooldown
  send_first q db h d v =
      let (e, e') = send_otp-slot r settings delivery q.at destination purpose q.channel q.otp db in
      let (a, b) =
        send_slot_first settings q.channel q.otp q.at (slot r db destination purpose) h v in
      (e ∙ rw d a, ap (λ (t : Slot). t.cooldown) e' ∙ rw d b)

  count_sent_open :
      (n end : ℕ) (rest : List Request) (db : r.Db)
      → InWindow end rest
      → n < 2
      → Sent (suc n) end (slot r db destination purpose).cooldown
      → suc n + count_sent rest db ≡ min 2 (suc n + length rest)
  unfolding count_sent
  count_sent_open n end [] db w m v = omega arith
  count_sent_open n end (q ∷ rest) db w m v = elim (resend n end q db w.0 w.1 v) [
    | inl (a, x, v') ↦
        omega (arith, ap is_ok x, count_sent_open (suc n) end rest (send q db).1 w.2 a v')
    | inr (a, x, v') ↦ omega (arith, ap is_ok x, count_sent_open n end rest (send q db).1 w.2 m v')
  ]

  -- Where no earlier send is remembered, of any row of deliverable requests that all fall into the
  -- cooldown of the first one exactly the first two are answered with a code.
  pub third_refused :
      (q : Request) (rest : List Request) (db : r.Db)
      → 0 < settings.otp_cooldown_seconds
      → live q.at (slot r db destination purpose).cooldown ≡ none
      → delivered q ≡ true
      → InWindow (q.at + seconds settings.otp_cooldown_seconds) rest
      → count_sent (q ∷ rest) db ≡ min 2 (1 + length rest)
  unfolding count_sent
  third_refused q rest db h v d w =
      let (x, v') = send_first q db h d v in
      omega (
        arith,
        ap is_ok x,
        count_sent_open 0 (q.at + seconds settings.otp_cooldown_seconds) rest (send q db).1 w
            (omega arith) v',
      )

  -- Where the delivery fails and the machine is no debug machine, a request that the cooldown lets
  -- through raises a delivery error, and no code, no attempts and no cooldown are kept.
  pub undelivered :
      (q : Request) (db : r.Db) (n : ℕ)
      → cooldown_count (value_of (live q.at (slot r db destination purpose).cooldown)) ≡ ok n
      → n < 2
      → delivered q ≡ false
      → settings.debug ≡ false
      → ((send q db).0 ≡ err (delivery_error q.channel))
        × (slot r (send q db).1 destination purpose
            ≡ record { code = none; attempts = none; cooldown = none })
  undelivered q db n c m d g =
      let (e, e') = send_otp-slot r settings delivery q.at destination purpose q.channel q.otp db in
      let (a, b) =
        send_slot_undelivered settings q.channel q.otp q.at (slot r db destination purpose) n c m
          g in
      (e ∙ rw d a, e' ∙ rw d b)
