-- ===== src/Prefetch.antt =====
-- services/storage_prefetch.py: the generator that keeps up to `ahead` downloads in flight. A download
-- that was started is kept with its item; what comes of it is a parameter, and is there when awaited.
-- The proofs are in the modules below.
pub mod Order
pub mod InFlight
mod Examples
use event_vision_pipeline.Base.{
  ℕ, zero, suc, max, Bool, true, false, Option, none, some, List, [], ◌∷◌, ◌++◌, if◌then◌else◌,
}
use event_vision_pipeline.Base.Effect.{Result}

abbrev pub is_empty {ℓ} : {A : Type ℓ} → List A → Bool
is_empty [] = true
is_empty (x ∷ xs) = false

-- The generator's locals: the items whose download is in flight, and those that are still to start.
pub record Window (Item : Type 0) : Type 0 where
  pub pending : List Item
  pub iterator : List Item

module _ {Item : Type 0} where
  abbrev start_item : List Item → List Item → Window Item
  start_item pending [] = record { pending = pending; iterator = [] }
  start_item pending (item ∷ rest) = record { pending = pending ++ (item ∷ []); iterator = rest }

  unfoldable pub start_next : Window Item → Window Item
  start_next w = start_item w.pending w.iterator

  -- The first loop, of as many rounds as the window is wide.
  unfoldable pub fill : ℕ → Window Item → Window Item
  unfolding start_next
  fill zero w = w
  fill (suc n) w =
      let rest = fill n (start_next w) in
      if is_empty (start_next w).pending then start_next w else rest

  unfoldable pub begin : ℕ → List Item → Window Item
  unfolding fill
  begin ahead items = fill (max 1 ahead) (record { pending = []; iterator = items })

  abbrev pop : List Item → List Item → Option (Item × Window Item)
  pop [] iterator = none
  pop (item ∷ pending) iterator = some (item, record { pending = pending; iterator = iterator })

  -- One round of the second loop up to its yield: what is awaited is started, so the first is taken,
  -- the next started, and the first handed out.
  abbrev refill : Option (Item × Window Item) → Option (Item × Window Item)
  refill none = none
  refill (some (item, w)) = some (item, start_next w)

  unfoldable pub next : Window Item → Option (Item × Window Item)
  unfolding start_next
  next w = refill (pop w.pending w.iterator)

  module _ {Error Bytes State : Type 0} (download : Item → Result Error Bytes)
      (body : Item → Result Error Bytes → State → State) where
    -- `async for item, data, error in iter_prefetched(...)`, with fuel; none where it runs out.
    pub consume : ℕ → Window Item → State → Option State
    unfolding next
    consume zero w s = none
    consume (suc fuel) w s = elim (next w) [
      | none ↦ some s
      | some (item, w') ↦ consume fuel w' (body item (download item) s)
    ]

    unfoldable pub for_each_prefetched : ℕ → List Item → ℕ → State → Option State
    unfolding consume begin
    for_each_prefetched ahead items fuel s = consume fuel (begin ahead items) s

    -- The same without a window: each item is downloaded when its turn comes.
    abbrev pub for_each : List Item → State → State
    for_each [] s = s
    for_each (item ∷ rest) s = for_each rest (body item (download item) s)
