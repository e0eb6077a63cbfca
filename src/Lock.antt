-- ===== src/Lock.antt =====
-- ml/clustering/locks.py: the lock of one event in Redis, taken by SET NX with a random token, and
-- extended and released by scripts that Redis runs as one step. The proofs are in the module below.
pub mod Exclusion
mod Examples
use event_vision_pipeline.Base.{ℕ, Bool, true, false, Option, some, ◌==◌, if◌then◌else◌}
use event_vision_pipeline.Redis.{
  Redis, Key, Value, clustering_lock, face_pipeline_lock, token, is_some,
}

-- The two key templates.
pub data LockKind : Type 0 where
  clustering face_pipeline : LockKind

abbrev pub lock_key : LockKind → ℕ → Key
lock_key clustering event_id = clustering_lock event_id
lock_key face_pipeline event_id = face_pipeline_lock event_id

-- One lock object; its token is the random id that `__init__` draws.
pub record EventClusteringLock : Type 0 where
  pub kind : LockKind
  pub event_id : ℕ
  pub ttl_seconds : ℕ
  pub own_token : ℕ

abbrev pub key_of : EventClusteringLock → Key
key_of lock = lock_key lock.kind lock.event_id

-- redis.call("get", KEYS[1]) == ARGV[1]
abbrev pub token_matches : Option Value → ℕ → Bool
token_matches (some (token t)) own = t == own
token_matches _ own = false

module _ (r : Redis) where
  unfoldable pub acquire : ℕ → EventClusteringLock → r.Db → Bool × r.Db
  acquire now lock db = r.set_nx now (key_of lock) (token lock.own_token) lock.ttl_seconds db

  -- The reply of EXPIRE is 1 on a key that is there.
  unfoldable pub extend : ℕ → EventClusteringLock → r.Db → Bool × r.Db
  extend now lock db =
      if token_matches (r.get now (key_of lock) db) lock.own_token
      then (true, r.expire now (key_of lock) lock.ttl_seconds db)
      else (false, db)

  unfoldable pub release : ℕ → EventClusteringLock → r.Db → r.Db
  release now lock db =
      if token_matches (r.get now (key_of lock) db) lock.own_token
      then r.delete (key_of lock) db
      else db

  -- EXISTS, as the callers test that some worker holds the lock.
  unfoldable pub lock_held : ℕ → LockKind → ℕ → r.Db → Bool
  lock_held now kind event_id db = is_some (r.get now (lock_key kind event_id) db)
