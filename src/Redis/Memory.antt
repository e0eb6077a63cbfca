-- ===== src/Redis/Memory.antt =====
-- A server in memory: a function from keys to entries. The tests run on it.
use event_vision_pipeline.Base.{Option, none, some, refl, if◌then◌else◌}
use event_vision_pipeline.Redis.Data.{
  Key, Entry, same_key, deadline, live, incr_reply, incr_entry, expire_entry, kept_expiry, value_of,
  is_none,
}
use event_vision_pipeline.Redis.Server.{Redis}

abbrev pub Store : Type 0
Store = Key → Option Entry

abbrev pub empty : Store
empty k = none

abbrev pub write : Key → Option Entry → Store → Store
write k e db j = if same_key k j then e else db j

abbrev pub memory : Redis
memory = record {
  Db = Store;
  entry = λ db k. db k;
  get = λ now k db. value_of (live now (db k));
  set = λ k v db. write k (some (record { value = v; expires = none })) db;
  setex = λ now k ttl v db. write k (some (record { value = v; expires = deadline now ttl })) db;
  set_nx = λ now k v ttl db. (
    is_none (live now (db k)),
    λ j.
        if is_none (live now (db k))
        then write k (some (record { value = v; expires = deadline now ttl })) db j
        else db j,
  );
  incr = λ now k db. (incr_reply (live now (db k)), write k (incr_entry (live now (db k))) db);
  expire = λ now k ttl db. write k (expire_entry (deadline now ttl) (live now (db k))) db;
  delete = λ k db. write k none db;
  hset = λ now k v db.
      write k (some (record { value = v; expires = kept_expiry (live now (db k)) })) db;
  get_live = λ now k db. refl;
  entry_set = λ k v db j. refl;
  entry_setex = λ now k ttl v db j. refl;
  reply_set_nx = λ now k v ttl db. refl;
  entry_set_nx = λ now k v ttl db j. refl;
  reply_incr = λ now k db. refl;
  entry_incr = λ now k db j. refl;
  entry_expire = λ now k ttl db j. refl;
  entry_delete = λ k db j. refl;
  entry_hset = λ now k v db j. refl;
}
