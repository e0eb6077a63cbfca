-- ===== src/Prefetch/Examples.antt =====
-- Five keys, one of which cannot be downloaded, with two downloads in flight.
use event_vision_pipeline.Base.{
  ℕ, ◌+◌, min, length, String, some, List, [], ◌∷◌, ◌≡◌, refl, arith, ◌==◌, if◌then◌else◌,
}
use event_vision_pipeline.Base.Effect.{Result, ok, err}
use event_vision_pipeline.Prefetch.{for_each_prefetched, for_each}
use event_vision_pipeline.Prefetch.Order.{prefetched_in_order}
use event_vision_pipeline.Prefetch.InFlight.{window_after, in_flight_exactly}

abbrev keys : List ℕ
keys = 10 ∷ 20 ∷ 30 ∷ 40 ∷ 50 ∷ []

abbrev download : ℕ → Result String ℕ
download k = if k == 30 then err "missing" else ok (k + 1)

abbrev note : ℕ → Result String ℕ → List ℕ → List ℕ
note k (ok bytes) s = bytes ∷ s
note k (err e) s = 0 ∷ s

two_ahead : for_each_prefetched download note 2 keys 6 [] ≡ some (51 ∷ 41 ∷ 0 ∷ 21 ∷ 11 ∷ [])
unfolding for_each_prefetched
two_ahead = refl

prefetched_in_order_example :
    for_each_prefetched download note 2 keys 6 [] ≡ some (for_each download note keys [])
prefetched_in_order_example = prefetched_in_order download note 2 6 keys [] (omega arith)

in_flight_exactly_example : length (window_after 2 4 keys).pending ≡ min 2 1
in_flight_exactly_example = in_flight_exactly 2 4 keys
