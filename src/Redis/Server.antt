-- ===== src/Redis/Server.antt =====
-- The commands and their documented effect on what each key holds.
use event_vision_pipeline.Base.{ℕ, Bool, Option, none, some, ◌≡◌, if◌then◌else◌}
use event_vision_pipeline.Redis.Data.{
  Key, Value, Entry, same_key, deadline, live, incr_reply, incr_entry, expire_entry, kept_expiry,
  value_of, is_none,
}

pub record Redis : Type 1 where
  pub Db : Type 0
  -- what a key holds, expired or not
  pub entry : Db → Key → Option Entry
  pub get : ℕ → Key → Db → Option Value
  pub set : Key → Value → Db → Db
  pub setex : ℕ → Key → ℕ → Value → Db → Db
  -- SET with NX and EX: the reply says whether the key was written
  pub set_nx : ℕ → Key → Value → ℕ → Db → Bool × Db
  -- no reply where Redis refuses a value that is no number
  pub incr : ℕ → Key → Db → Option ℕ × Db
  pub expire : ℕ → Key → ℕ → Db → Db
  pub delete : Key → Db → Db
  -- HSET of all the fields of a hash, and HGETALL
  pub hset : ℕ → Key → Value → Db → Db
  pub get_live : (now : ℕ) (k : Key) (db : Db) → get now k db ≡ value_of (live now (entry db k))
  pub entry_set :
      (k : Key) (v : Value) (db : Db) (j : Key)
      → entry (set k v db) j
        ≡ (if same_key k j then some (record { value = v; expires = none }) else entry db j)
  pub entry_setex :
      (now : ℕ) (k : Key) (ttl : ℕ) (v : Value) (db : Db) (j : Key)
      → entry (setex now k ttl v db) j ≡ (
          if same_key k j
          then some (record { value = v; expires = deadline now ttl })
          else entry db j)
  pub reply_set_nx :
      (now : ℕ) (k : Key) (v : Value) (ttl : ℕ) (db : Db)
      → (set_nx now k v ttl db).0 ≡ is_none (live now (entry db k))
  pub entry_set_nx :
      (now : ℕ) (k : Key) (v : Value) (ttl : ℕ) (db : Db) (j : Key)
      → entry (set_nx now k v ttl db).1 j ≡ (
          if is_none (live now (entry db k))
          then (if same_key k j
              then some (record { value = v; expires = deadline now ttl })
              else entry db j)
          else entry db j)
  pub reply_incr :
      (now : ℕ) (k : Key) (db : Db) → (incr now k db).0 ≡ incr_reply (live now (entry db k))
  pub entry_incr :
      (now : ℕ) (k : Key) (db : Db) (j : Key)
      → entry (incr now k db).1 j
        ≡ (if same_key k j then incr_entry (live now (entry db k)) else entry db j)
  pub entry_expire :
      (now : ℕ) (k : Key) (ttl : ℕ) (db : Db) (j : Key)
      → entry (expire now k ttl db) j ≡ (
          if same_key k j
          then expire_entry (deadline now ttl) (live now (entry db k))
          else entry db j)
  pub entry_delete :
      (k : Key) (db : Db) (j : Key)
      → entry (delete k db) j ≡ (if same_key k j then none else entry db j)
  pub entry_hset :
      (now : ℕ) (k : Key) (v : Value) (db : Db) (j : Key)
      → entry (hset now k v db) j ≡ (
          if same_key k j
          then some (record { value = v; expires = kept_expiry (live now (entry db k)) })
          else entry db j)
