-- ===== src/RateLimit/Examples.antt =====
-- Four requests to a limit of two in ten seconds, on sorted sets in memory.
use event_vision_pipeline.Base.{
  ℕ, String, Option, none, List, [], ◌∷◌, ◌≡◌, refl, arith, leb, str_eq, if◌then◌else◌, add,
  distinct, length,
}
use event_vision_pipeline.Redis.{deadline}
use event_vision_pipeline.RateLimit.{
  ZSet, SortedSets, live, times_of, expiry_of, outside, zset_of, expire_zset, check,
}
use event_vision_pipeline.RateLimit.Window.{recent, run, check_counts_window}

abbrev Store : Type 0
Store = String → Option ZSet

abbrev write : String → Option ZSet → Store → Store
write k z db j = if str_eq k j then z else db j

abbrev sets : SortedSets
sets = record {
  Db = Store;
  zset = λ db k. db k;
  zremrangebyscore = λ now k low high db.
      write k
        (zset_of (outside low high (times_of (live now (db k)))) (expiry_of (live now (db k)))) db;
  zadd = λ now k score db.
      write k (zset_of (add score (times_of (live now (db k)))) (expiry_of (live now (db k)))) db;
  zcard = λ now k db. length (times_of (live now (db k)));
  expire = λ now k ttl db. write k (expire_zset (deadline now ttl) (live now (db k))) db;
  zset_zremrangebyscore = λ now k low high db j. refl;
  zset_zadd = λ now k score db j. refl;
  zcard_length = λ now k db. refl;
  zset_expire = λ now k ttl db j. refl;
}

abbrev key : String
key = "rl:auth:203.0.113.9"

-- Two that pass and one that is refused, within two seconds.
abbrev calls : List (ℕ × ℕ)
calls = (3000000, 2) ∷ (2000000, 2) ∷ (1000000, 2) ∷ []

check_counts_window_example :
    (check sets 12500000 key 2 10 (run sets key 10 (omega arith) calls (λ k. none))).0
    ≡ leb
        (length (recent 10000000 12500000 (distinct (12500000 ∷ 3000000 ∷ 2000000 ∷ 1000000 ∷ []))))
        2
check_counts_window_example =
    check_counts_window sets key 10 (omega arith) 12500000 2 calls (λ k. none) refl
      (omega arith, (omega arith, (omega arith, tt)))
