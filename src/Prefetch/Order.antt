-- ===== src/Prefetch/Order.antt =====
-- `iter_prefetched` of services/storage_prefetch.py, as the loop of its caller sees it.
use event_vision_pipeline.Base.{
  ℕ, zero, suc, max, ◌+◌, ◌-◌, ◌<◌, true, some, List, [], ◌∷◌, ◌++◌, ◌≡◌, refl, ap, ◌∙◌, inl, inr,
  arith, length, length-append, Bool-cases,
}
use event_vision_pipeline.Base.Effect.{Result}
use event_vision_pipeline.Prefetch.{
  Window, is_empty, start_next, fill, begin, consume, for_each_prefetched, for_each,
}
use mathlib.Core.List.{append_assoc}

module _ {Item : Type 0} where
  abbrev pub remaining : Window Item → List Item
  remaining w = w.pending ++ w.iterator

  remaining-start_next :
      (p it : List Item) → remaining (start_next (record { pending = p; iterator = it })) ≡ p ++ it
  unfolding start_next
  remaining-start_next p [] = refl
  remaining-start_next p (x ∷ it) = append_assoc p (x ∷ []) it

  -- No item is left to start where nothing is in flight.
  abbrev pub Supplied : Window Item → Type 0
  Supplied w = is_empty w.pending ≡ true → w.iterator ≡ []

  pub start_next-Supplied :
      (p it : List Item) → Supplied (start_next (record { pending = p; iterator = it }))
  unfolding start_next
  start_next-Supplied p [] e = refl
  start_next-Supplied [] (x ∷ it) e = cc
  start_next-Supplied (y ∷ p) (x ∷ it) e = cc

  fill_lem :
      (n : ℕ) (w : Window Item)
      → Supplied w
      → (remaining (fill n w) ≡ remaining w) × Supplied (fill n w)
  unfolding fill
  fill_lem zero w s = (refl, s)
  fill_lem (suc n) w s =
      let started = start_next w in
      let same = remaining-start_next w.pending w.iterator in
      let supplied = start_next-Supplied w.pending w.iterator in
      let (later, kept) = fill_lem n started supplied in
      elim (Bool-cases (is_empty started.pending)) [
        | inl e ↦ rw e (same, supplied)
        | inr e ↦ rw e (later ∙ same, kept)
      ]

  -- The window after the first loop holds all items, in order, and is not empty before they are over.
  pub begin_lem :
      (ahead : ℕ) (items : List Item)
      → (remaining (begin ahead items) ≡ items) × Supplied (begin ahead items)
  unfolding begin fill
  begin_lem ahead items =
      let empty : Window Item = record { pending = []; iterator = items } in
      let e : max 1 ahead ≡ suc (max 1 ahead - 1) = ground arith in
      let first = start_next-Supplied [] items in
      rw e (elim (Bool-cases (is_empty (start_next empty).pending)) [
        | inl done ↦ rw done (remaining-start_next [] items, first)
        | inr more ↦
            let (later, kept) = fill_lem (max 1 ahead - 1) (start_next empty) first in
            rw more (later ∙ remaining-start_next [] items, kept)
      ])

  module _ {Error Bytes State : Type 0} (download : Item → Result Error Bytes)
      (body : Item → Result Error Bytes → State → State) where
    consume_lem :
        (fuel : ℕ) (p it : List Item) (s : State)
        → (is_empty p ≡ true → it ≡ [])
        → length p + length it < fuel
        → consume download body fuel (record { pending = p; iterator = it }) s
          ≡ some (for_each download body (p ++ it) s)
    unfolding consume start_next
    consume_lem zero p it s supplied h = absurd (omega arith)
    consume_lem (suc fuel) [] it s supplied h = rw (supplied refl) refl
    consume_lem (suc fuel) (x ∷ p) [] s supplied h =
        consume_lem fuel p [] (body x (download x) s) (λ e. refl) (omega arith)
    consume_lem (suc fuel) (x ∷ p) (y ∷ it) s supplied h =
        let s' = body x (download x) s in
        consume_lem fuel (p ++ (y ∷ [])) it s' (start_next-Supplied p (y ∷ it))
          (omega (arith, length-append p (y ∷ [])))
        ∙ ap (λ items. some (for_each download body items s')) (append_assoc p (y ∷ []) it)

    -- However wide the window is, the loop over the prefetched items ends, given one unit of fuel more
    -- than there are items, and does what the loop does that downloads each item when its turn comes: the
    -- items come in order, each once, with what came of its own download.
    pub prefetched_in_order :
        (ahead fuel : ℕ) (items : List Item) (s : State)
        → length items < fuel
        → for_each_prefetched download body ahead items fuel s
          ≡ some (for_each download body items s)
    unfolding for_each_prefetched
    prefetched_in_order ahead fuel items s h =
        let w = begin ahead items in
        let (same, supplied) = begin_lem ahead items in
        let enough = length-append w.pending w.iterator in
        let counted = ap (λ xs. length xs) same in
        consume_lem fuel w.pending w.iterator s supplied (omega arith)
        ∙ ap (λ items. some (for_each download body items s)) same
