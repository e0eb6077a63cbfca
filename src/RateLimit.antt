-- ===== src/RateLimit.antt =====
-- core/rate_limit.py: the sliding window of RateLimiter on a sorted set in Redis. Sorted sets are an
-- interface with the documented effect of each command; a member is the text of its score, and both are
-- one number of microseconds. The proofs are in the modules below.
pub mod Window
mod Examples
use event_vision_pipeline.Base.{
  ℕ, ◌+◌, ◌-◌, String, Bool, true, false, ◌&&◌, Option, none, some, List, [], ◌∷◌, ◌≡◌, leb, ltb,
  str_eq, if◌then◌else◌, add, length,
}
use event_vision_pipeline.Redis.{deadline, seconds}

-- A sorted set that is not empty, and the end of its life.
pub record ZSet : Type 0 where
  pub times : List ℕ
  pub expires : Option ℕ

abbrev alive : ℕ → ZSet → Option ℕ → Option ZSet
alive now z none = some z
alive now z (some d) = if leb d now then none else some z

abbrev pub live : ℕ → Option ZSet → Option ZSet
live now none = none
live now (some z) = alive now z z.expires

abbrev pub times_of : Option ZSet → List ℕ
times_of none = []
times_of (some z) = z.times

abbrev pub expiry_of : Option ZSet → Option ℕ
expiry_of none = none
expiry_of (some z) = z.expires

-- The scores outside a range.
abbrev pub outside : ℕ → ℕ → List ℕ → List ℕ
outside low high [] = []
outside low high (x ∷ xs) =
    let rest = outside low high xs in if leb low x && leb x high then rest else x ∷ rest

-- A key goes away with the last member of its set.
abbrev pub zset_of : List ℕ → Option ℕ → Option ZSet
zset_of [] expires = none
zset_of (x ∷ xs) expires = some (record { times = x ∷ xs; expires = expires })

abbrev pub expire_zset : Option ℕ → Option ZSet → Option ZSet
expire_zset d none = none
expire_zset d (some z) = some (record { times = z.times; expires = d })

pub record SortedSets : Type 1 where
  pub Db : Type 0
  -- what a key holds, expired or not
  pub zset : Db → String → Option ZSet
  pub zremrangebyscore : ℕ → String → ℕ → ℕ → Db → Db
  pub zadd : ℕ → String → ℕ → Db → Db
  pub zcard : ℕ → String → Db → ℕ
  pub expire : ℕ → String → ℕ → Db → Db
  pub zset_zremrangebyscore :
      (now : ℕ) (k : String) (low high : ℕ) (db : Db) (j : String)
      → zset (zremrangebyscore now k low high db) j ≡ (
          if str_eq k j
          then zset_of
              (outside low high (times_of (live now (zset db k))))
              (expiry_of (live now (zset db k)))
          else zset db j)
  pub zset_zadd :
      (now : ℕ) (k : String) (score : ℕ) (db : Db) (j : String)
      → zset (zadd now k score db) j ≡ (
          if str_eq k j
          then zset_of
              (add score (times_of (live now (zset db k))))
              (expiry_of (live now (zset db k)))
          else zset db j)
  pub zcard_length :
      (now : ℕ) (k : String) (db : Db) → zcard now k db ≡ length (times_of (live now (zset db k)))
  pub zset_expire :
      (now : ℕ) (k : String) (ttl : ℕ) (db : Db) (j : String)
      → zset (expire now k ttl db) j
        ≡ (if str_eq k j then expire_zset (deadline now ttl) (live now (zset db k)) else zset db j)

module _ (r : SortedSets) where
  -- ZREMRANGEBYSCORE key 0 (now - window_seconds); a range with a negative end is empty.
  pub remove_old : ℕ → String → ℕ → r.Db → r.Db
  remove_old now key window_seconds db =
      if leb (seconds window_seconds) now
      then r.zremrangebyscore now key 0 (now - seconds window_seconds) db
      else db

  -- `check`: the pipeline runs as one step.
  unfoldable pub check : ℕ → String → ℕ → ℕ → r.Db → Bool × r.Db
  unfolding remove_old
  check now key limit window_seconds db =
      let added = r.zadd now key now (remove_old now key window_seconds db) in
      (leb (r.zcard now key added) limit, r.expire now key window_seconds added)
