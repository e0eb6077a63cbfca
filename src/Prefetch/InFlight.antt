-- ===== src/Prefetch/InFlight.antt =====
-- The downloads that `iter_prefetched` of services/storage_prefetch.py has in flight.
use event_vision_pipeline.Base.{
  ℕ, zero, suc, max, min, ◌+◌, ◌-◌, ◌<◌, ◌≤◌, true, false, Option, none, some, List, [], ◌∷◌, ◌++◌,
  ◌≡◌, ◌≢◌, refl, ap, ◌⊎◌, inl, inr, arith, length, length-append, Bool-cases,
}
use mathlib.Core.List.{append_assoc}
use event_vision_pipeline.Prefetch.Order.{remaining, Supplied, start_next-Supplied, begin_lem}
use event_vision_pipeline.Prefetch.{Window, is_empty, start_next, fill, begin, next}

module _ {Item : Type 0} where
  -- The window after so many items were handed out.
  abbrev after_next : Option (Item × Window Item) → Window Item → Window Item
  after_next none w = w
  after_next (some (item, w')) w = w'

  pub window_after : ℕ → ℕ → List Item → Window Item
  window_after ahead zero items = begin ahead items
  window_after ahead (suc n) items =
      after_next (next (window_after ahead n items)) (window_after ahead n items)

  -- No more than the width in flight, and no fewer while an item is left to start.
  abbrev IsFull : ℕ → Window Item → Type 0
  IsFull width w = (length w.pending ≤ width) × (w.iterator ≢ [] → length w.pending ≡ width)

  fill_over :
      (n : ℕ) (p : List Item)
      → fill n (record { pending = p; iterator = [] }) ≡ record { pending = p; iterator = [] }
  unfolding fill start_next
  fill_over zero p = refl
  fill_over (suc n) p = elim (Bool-cases (is_empty p)) [
    | inl e ↦ rw e refl
    | inr e ↦ rw e (fill_over n p)
  ]

  is_empty-append : (p : List Item) (x : Item) → is_empty (p ++ (x ∷ [])) ≡ false
  is_empty-append [] x = refl
  is_empty-append (y ∷ p) x = refl

  fill-IsFull :
      (n : ℕ) (p it : List Item)
      → IsFull (length p + n) (fill n (record { pending = p; iterator = it }))
  unfolding fill start_next
  fill-IsFull zero p it = (omega arith, λ m. omega arith)
  fill-IsFull (suc n) p [] = rw (fill_over (suc n) p) (omega arith, λ m. absurd (m refl))
  fill-IsFull (suc n) p (x ∷ it) =
      let (bound, full) = fill-IsFull n (p ++ (x ∷ [])) it in
      let longer = length-append p (x ∷ []) in
      rw (is_empty-append p x) (omega arith, λ m. let f = full m in omega arith)

  begin-IsFull : (ahead : ℕ) (items : List Item) → IsFull (max 1 ahead) (begin ahead items)
  unfolding begin
  begin-IsFull ahead items =
      let (bound, full) = fill-IsFull (max 1 ahead) [] items in
      (omega arith, λ m. let f = full m in omega arith)

  next-IsFull :
      (width : ℕ) (p it : List Item)
      → 0 < width
      → IsFull width (record { pending = p; iterator = it })
      → let w : Window Item = record { pending = p; iterator = it } in
        IsFull width (after_next (next w) w)
  unfolding next start_next
  next-IsFull width [] it h full = full
  next-IsFull width (x ∷ p) [] h full = (omega (arith, full.0), λ m. absurd (m refl))
  next-IsFull width (x ∷ p) (y ∷ it) h full =
      let filled = full.1 (λ e. cc) in
      let longer = length-append p (y ∷ []) in (omega arith, λ m. omega arith)

  next_left :
      (p it : List Item)
      → let w : Window Item = record { pending = p; iterator = it } in
        (is_empty p ≡ true → it ≡ [])
        → (length (remaining (after_next (next w) w)) ≡ length (p ++ it) - 1)
          × Supplied (after_next (next w) w)
  unfolding next start_next
  next_left [] it s = rw (s refl) (omega arith, λ e. refl)
  next_left (x ∷ p) [] s = (omega arith, λ e. refl)
  next_left (x ∷ p) (y ∷ it) s = (
    omega (arith, ap (λ (xs : List Item). length xs) (append_assoc p (y ∷ []) it)),
    start_next-Supplied p (y ∷ it),
  )

  window_left :
      (ahead n : ℕ) (items : List Item)
      → (length (remaining (window_after ahead n items)) ≡ length items - n)
        × Supplied (window_after ahead n items)
  unfolding window_after
  window_left ahead zero items =
      let (same, supplied) = begin_lem ahead items in
      (omega (arith, ap (λ (xs : List Item). length xs) same), supplied)
  window_left ahead (suc n) items =
      let w = window_after ahead n items in
      let (left, supplied) = window_left ahead n items in
      let (fewer, kept) = next_left w.pending w.iterator supplied in (omega arith, kept)

  window_after-IsFull :
      (ahead n : ℕ) (items : List Item) → IsFull (max 1 ahead) (window_after ahead n items)
  unfolding window_after
  window_after-IsFull ahead zero items = begin-IsFull ahead items
  window_after-IsFull ahead (suc n) items =
      let w = window_after ahead n items in
      next-IsFull (max 1 ahead) w.pending w.iterator (ground arith)
        (window_after-IsFull ahead n items)

  empty_or_not : (xs : List Item) → (xs ≡ []) ⊎ (xs ≢ [])
  empty_or_not [] = inl refl
  empty_or_not (x ∷ xs) = inr (λ e. cc)

  -- After any number of items is handed out, the downloads in flight are as many as `ahead` (or one
  -- where `ahead` is 0), and all that is left where that is less.
  pub in_flight_exactly :
      (ahead n : ℕ) (items : List Item)
      → length (window_after ahead n items).pending ≡ min (max 1 ahead) (length items - n)
  in_flight_exactly ahead n items =
      let w = window_after ahead n items in
      let (left, supplied) = window_left ahead n items in
      let (bound, full) = window_after-IsFull ahead n items in
      let counted = length-append w.pending w.iterator in
      elim (empty_or_not w.iterator) [
        | inl e ↦ let over = ap (λ (xs : List Item). length xs) e in ground arith
        | inr e ↦ let f = full e in ground arith
      ]
