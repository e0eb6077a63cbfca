-- ===== src/Progress/Examples.antt =====
-- The progress hash at concrete updates, with the server in memory.
use event_vision_pipeline.Base.{none, some, ◌≡◌, refl, arith}
use event_vision_pipeline.Redis.Memory.{memory, empty}
use event_vision_pipeline.Progress.{
  Counts, status_processing, status_error, eta_seconds, read, update, mark_error,
}
use event_vision_pipeline.Progress.Seconds.{nearest, divide}
use event_vision_pipeline.Progress.Counters.{snapshot, error_keeps_counters}

abbrev half_done : Counts
half_done = record {
  total_photos = 40;
  processed_photos = 20;
  failed_photos = 1;
  total_faces = 55;
  embedded_faces = 50;
}

error_keeps_counters_example :
    let updated =
      update memory 7 86400 1000000 half_done status_processing
        (record { db = empty; started_at = some 500000 }) in
    (read memory 7 86400 3000000 (mark_error memory 7 86400 2000000 updated).db
      ≡ some (snapshot half_done status_error 500000 none))
    × (read memory 7 86400 3000000
          (mark_error memory 7 86400 2000000 (record { db = updated.db; started_at = none })).db
        ≡ some (snapshot half_done status_error 2000000 none))
error_keeps_counters_example =
    error_keeps_counters memory 7 86400 1000000 2000000 3000000 half_done status_processing
      (record { db = empty; started_at = some 500000 }) none (omega arith) (omega arith)

-- 1 / (1 / 93.0) is a little less than 93 in floats.
one_of_two : eta_seconds (some 0) 1 2 93000000 ≡ some 92
unfolding eta_seconds nearest divide
one_of_two = refl

seven_left : eta_seconds (some 0) 3 10 7000000 ≡ some 16
unfolding eta_seconds nearest divide
seven_left = refl

-- The first two are one less than the exact quotient.
uneven :
    (eta_seconds (some 0) 350 3145 81900000000 ≡ some 654029)
    × (eta_seconds (some 0) 394 1576 10565000000 ≡ some 31694)
    × (eta_seconds (some 0) 228 3268 93984067574 ≡ some 1253120)
    × (eta_seconds (some 0) 136 3677 70533598152 ≡ some 1836466)
unfolding eta_seconds nearest divide
uneven = (refl, refl, refl, refl)
