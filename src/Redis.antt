-- ===== src/Redis.antt =====
-- The Redis server as the backend uses it: an interface of commands with their documented
-- behaviour. core/redis_client.py only hands the client out, and the server itself is not part of
-- the repository, so the commands are parameters of every model that uses them.
-- Times are microseconds since the epoch; a time to live is in seconds, as in the commands.
mod Data
mod Server
pub mod Memory
pub use Data.*
pub use Server.*
use event_vision_pipeline.Base.{
  ℕ, ◌<◌, true, false, Option, none, some, ◌≡◌, refl, arith, if◌then◌else◌, str_eq_refl, ==_refl,
}

-- The laws by name, for rule sets.
module _ (r : Redis) where
  pub get_live :
      (now : ℕ) (k : Key) (db : r.Db) → r.get now k db ≡ value_of (live now (r.entry db k))
  get_live = r.get_live

  pub entry_set :
      (k : Key) (v : Value) (db : r.Db) (j : Key)
      → r.entry (r.set k v db) j
        ≡ (if same_key k j then some (record { value = v; expires = none }) else r.entry db j)
  entry_set = r.entry_set

  pub entry_hset :
      (now : ℕ) (k : Key) (v : Value) (db : r.Db) (j : Key)
      → r.entry (r.hset now k v db) j ≡ (
          if same_key k j
          then some (record { value = v; expires = kept_expiry (live now (r.entry db k)) })
          else r.entry db j)
  entry_hset = r.entry_hset

  pub entry_setex :
      (now : ℕ) (k : Key) (ttl : ℕ) (v : Value) (db : r.Db) (j : Key)
      → r.entry (r.setex now k ttl v db) j ≡ (
          if same_key k j
          then some (record { value = v; expires = deadline now ttl })
          else r.entry db j)
  entry_setex = r.entry_setex

  pub reply_set_nx :
      (now : ℕ) (k : Key) (v : Value) (ttl : ℕ) (db : r.Db)
      → (r.set_nx now k v ttl db).0 ≡ is_none (live now (r.entry db k))
  reply_set_nx = r.reply_set_nx

  pub entry_set_nx :
      (now : ℕ) (k : Key) (v : Value) (ttl : ℕ) (db : r.Db) (j : Key)
      → r.entry (r.set_nx now k v ttl db).1 j ≡ (
          if is_none (live now (r.entry db k))
          then (if same_key k j
              then some (record { value = v; expires = deadline now ttl })
              else r.entry db j)
          else r.entry db j)
  entry_set_nx = r.entry_set_nx

  pub reply_incr :
      (now : ℕ) (k : Key) (db : r.Db) → (r.incr now k db).0 ≡ incr_reply (live now (r.entry db k))
  reply_incr = r.reply_incr

  pub entry_incr :
      (now : ℕ) (k : Key) (db : r.Db) (j : Key)
      → r.entry (r.incr now k db).1 j
        ≡ (if same_key k j then incr_entry (live now (r.entry db k)) else r.entry db j)
  entry_incr = r.entry_incr

  pub entry_expire :
      (now : ℕ) (k : Key) (ttl : ℕ) (db : r.Db) (j : Key)
      → r.entry (r.expire now k ttl db) j ≡ (
          if same_key k j
          then expire_entry (deadline now ttl) (live now (r.entry db k))
          else r.entry db j)
  entry_expire = r.entry_expire

  pub entry_delete :
      (k : Key) (db : r.Db) (j : Key)
      → r.entry (r.delete k db) j ≡ (if same_key k j then none else r.entry db j)
  entry_delete = r.entry_delete

live_kept :
    (now : ℕ) (v : Value) (o : Option Entry)
    → live now (some (record { value = v; expires = kept_expiry (live now o) }))
      ≡ some (record { value = v; expires = kept_expiry (live now o) })
live_kept now v none = refl
live_kept now v (some e) = ground arith

-- A hash that is written and then given a time to live, as all writers of hashes do.
pub entry_hset_expire :
    (r : Redis) (now : ℕ) (k : Key) (ttl : ℕ) (v : Value) (db : r.Db) (j : Key)
    → r.entry (r.expire now k ttl (r.hset now k v db)) j ≡ (
        if same_key k j
        then some (record { value = v; expires = deadline now ttl })
        else r.entry db j)
entry_hset_expire r now k ttl v db j =
    simp (entry_expire, entry_hset, same_key_refl) (rw live_kept (ground arith))

pub entry_set_nx_other :
    (r : Redis) (now : ℕ) (k : Key) (v : Value) (ttl : ℕ) (db : r.Db) (j : Key)
    → same_key k j ≡ false
    → r.entry (r.set_nx now k v ttl db).1 j ≡ r.entry db j
entry_set_nx_other r now k v ttl db j d = ground (arith, r.entry_set_nx now k v ttl db j)

pub entry_set_nx_self :
    (r : Redis) (now : ℕ) (k : Key) (v : Value) (ttl : ℕ) (db : r.Db)
    → (r.set_nx now k v ttl db).0 ≡ true
    → r.entry (r.set_nx now k v ttl db).1 k
      ≡ some (record { value = v; expires = deadline now ttl })
entry_set_nx_self r now k v ttl db h =
    ground (arith, r.entry_set_nx now k v ttl db k, r.reply_set_nx now k v ttl db, same_key_refl k)

pub entry_set_nx_taken :
    (r : Redis) (now : ℕ) (k : Key) (v w : Value) (ttl d : ℕ) (db : r.Db)
    → r.entry db k ≡ some (record { value = w; expires = some d })
    → now < d
    → ((r.set_nx now k v ttl db).0 ≡ false)
      × (r.entry (r.set_nx now k v ttl db).1 k ≡ some (record { value = w; expires = some d }))
entry_set_nx_taken r now k v w ttl d db e h =
    ground (arith, r.entry_set_nx now k v ttl db k, r.reply_set_nx now k v ttl db, same_key_refl k)

pub ruleset redis_laws = (
  get_live, entry_set, entry_hset, entry_setex, reply_set_nx, entry_set_nx, reply_incr, entry_incr,
  entry_expire, entry_delete, str_eq_refl, ==_refl,
)
