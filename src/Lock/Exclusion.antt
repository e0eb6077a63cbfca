-- ===== src/Lock/Exclusion.antt =====
-- Calls of the methods of EventClusteringLock (ml/clustering/locks.py) by several workers, in any
-- order.
use event_vision_pipeline.Base.{
  ℕ, ◌+◌, ◌<◌, Bool, true, false, some, List, [], ◌∷◌, ◌==◌, ◌≡◌, inl, inr, arith, Bool-cases,
}
use event_vision_pipeline.Redis.{
  Redis, token, seconds, redis_laws, same_key, same_key_refl, same_key-eq,
}
use event_vision_pipeline.Lock.{EventClusteringLock, key_of, acquire, extend, release}

-- What another worker does on the same event: a call, its time, and that worker's lock object.
pub data Call : Type 0 where
  acquires extends releases : ℕ → EventClusteringLock → Call

abbrev pub time_of : Call → ℕ
time_of (acquires t l) = t
time_of (extends t l) = t
time_of (releases t l) = t

abbrev pub lock_of : Call → EventClusteringLock
lock_of (acquires t l) = l
lock_of (extends t l) = l
lock_of (releases t l) = l

-- A call returns whether it got or kept the lock.
abbrev pub perform : (r : Redis) → Call → r.Db → Bool × r.Db
perform r (acquires t l) db = acquire r t l db
perform r (extends t l) db = extend r t l db
perform r (releases t l) db = (false, release r t l db)

abbrev pub perform_all : (r : Redis) → List Call → r.Db → List Bool × r.Db
perform_all r [] db = ([], db)
perform_all r (c ∷ rest) db =
    let (b, db') = perform r c db in let (bs, db'') = perform_all r rest db' in (b ∷ bs, db'')

-- The calls are other workers', on any lock, all before the deadline of ours.
abbrev pub AreOthers : EventClusteringLock → ℕ → List Call → Type 0
AreOthers mine end [] = Unit
AreOthers mine end (c ∷ rest) =
    (((lock_of c).own_token == mine.own_token) ≡ false)
    × (time_of c < end)
    × AreOthers mine end rest

-- No call on our key got or kept it.
abbrev pub AllRefused : EventClusteringLock → List Call → List Bool → Type 0
AllRefused mine (c ∷ rest) (b ∷ bs) =
    (key_of (lock_of c) ≡ key_of mine → b ≡ false) × AllRefused mine rest bs
AllRefused mine _ _ = Unit

module _ (r : Redis) (mine : EventClusteringLock) (end : ℕ) where
  abbrev Held : r.Db → Type 0
  Held db =
      r.entry db (key_of mine) ≡ some (record { value = token mine.own_token; expires = some end })

  perform-Held :
      (c : Call) (db : r.Db)
      → ((lock_of c).own_token == mine.own_token) ≡ false
      → time_of c < end
      → Held db
      → Held (perform r c db).1
        × (same_key (key_of (lock_of c)) (key_of mine) ≡ true → (perform r c db).0 ≡ false)
  unfolding acquire extend release
  perform-Held (acquires t l) db o e h = elim (Bool-cases (same_key (key_of l) (key_of mine))) [
    | inl p ↦ rw (same_key-eq (key_of l) (key_of mine) p) (simp redis_laws (rw h (ground arith)))
    | inr p ↦ simp redis_laws (rw (p, h) (ground arith))
  ]
  perform-Held (extends t l) db o e h = elim (Bool-cases (same_key (key_of l) (key_of mine))) [
    | inl p ↦ rw (same_key-eq (key_of l) (key_of mine) p) (simp redis_laws (rw h (ground arith)))
    | inr p ↦ ground (arith, r.entry_expire t (key_of l) l.ttl_seconds db (key_of mine))
  ]
  perform-Held (releases t l) db o e h = elim (Bool-cases (same_key (key_of l) (key_of mine))) [
    | inl p ↦ rw (same_key-eq (key_of l) (key_of mine) p) (simp redis_laws (rw h (ground arith)))
    | inr p ↦ ground (arith, r.entry_delete (key_of l) db (key_of mine))
  ]

  perform_all-Held :
      (calls : List Call) (db : r.Db)
      → AreOthers mine end calls
      → Held db
      → Held (perform_all r calls db).1 × AllRefused mine calls (perform_all r calls db).0
  perform_all-Held [] db o h = (h, tt)
  perform_all-Held (c ∷ rest) db o h =
      let (h', refused) = perform-Held c db o.0 o.1 h in
      let (h'', all) = perform_all-Held rest (perform r c db).1 o.2 h' in
      (h'', (λ q. refused (rw q (same_key_refl (key_of mine))), all))

module _ (r : Redis) (mine : EventClusteringLock) (now : ℕ) (db : r.Db) where
  abbrev end : ℕ
  end = now + seconds mine.ttl_seconds

  acquire-Held : (acquire r now mine db).0 ≡ true → Held r mine end (acquire r now mine db).1
  unfolding acquire
  acquire-Held h = ground (
    arith,
    r.entry_set_nx now (key_of mine) (token mine.own_token) mine.ttl_seconds db (key_of mine),
    r.reply_set_nx now (key_of mine) (token mine.own_token) mine.ttl_seconds db,
    same_key_refl (key_of mine),
  )

  -- After a worker acquired a lock, and whatever workers with other tokens call before it expires,
  -- on this lock or another: none of their calls on this lock succeeds, and the worker can still
  -- extend it until its deadline.
  pub acquire_exclusive :
      (calls : List Call) (t : ℕ)
      → (acquire r now mine db).0 ≡ true
      → AreOthers mine end calls
      → t < end
      → AllRefused mine calls (perform_all r calls (acquire r now mine db).1).0
        × ((extend r t mine (perform_all r calls (acquire r now mine db).1).1).0 ≡ true)
  unfolding extend
  acquire_exclusive calls t h o e =
      let (h', refused) =
        perform_all-Held r mine end calls (acquire r now mine db).1 o (acquire-Held h) in
      (refused, simp redis_laws (rw h' (ground arith)))
