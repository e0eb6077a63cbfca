-- ===== src/Lock/Examples.antt =====
-- The lock at a concrete interleaving of two workers, on the server in memory.
use event_vision_pipeline.Base.{ℕ, true, List, [], ◌∷◌, ◌≡◌, refl, arith}
use event_vision_pipeline.Redis.Memory.{memory, empty}
use event_vision_pipeline.Lock.{face_pipeline, EventClusteringLock, acquire, extend}
use event_vision_pipeline.Lock.Exclusion.{
  Call, acquires, extends, releases, AllRefused, perform_all, acquire_exclusive,
}

abbrev worker : ℕ → EventClusteringLock
worker id = record { kind = face_pipeline; event_id = 7; ttl_seconds = 600; own_token = id }

abbrev rival_calls : List Call
rival_calls =
    acquires 1000000 (worker 2) ∷ extends 2000000 (worker 2) ∷ releases 3000000 (worker 2) ∷ []

acquire_exclusive_example :
    AllRefused
      (worker 1)
      rival_calls
      (perform_all memory rival_calls (acquire memory 0 (worker 1) empty).1).0
    × ((extend memory 599999999
          (worker 1)
          (perform_all memory rival_calls (acquire memory 0 (worker 1) empty).1).1).0
        ≡ true)
unfolding acquire
acquire_exclusive_example =
    acquire_exclusive memory (worker 1) 0 empty rival_calls 599999999 refl
      (refl, omega arith, (refl, omega arith, (refl, omega arith, tt))) (omega arith)
