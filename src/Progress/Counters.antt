-- ===== src/Progress/Counters.antt =====
-- What the dashboard reads back from the progress hash.
use event_vision_pipeline.Base.{ℕ, ◌+◌, ◌<◌, String, Option, none, some, ◌≡◌, arith, ap, ◌∙◌, false}
use event_vision_pipeline.Redis.{
  Redis, Key, same_key, Progress, processing, seconds, redis_laws, entry_hset_expire,
}
use event_vision_pipeline.Progress.{
  Counts, counts_of, Tracked, status_error, or_now, eta_seconds, read, write, update, mark_error,
}

-- The snapshot that the hash holds.
abbrev pub snapshot : Counts → String → ℕ → Option ℕ → Progress
snapshot c status started eta = record {
  total_photos = c.total_photos;
  processed_photos = c.processed_photos;
  failed_photos = c.failed_photos;
  total_faces = c.total_faces;
  embedded_faces = c.embedded_faces;
  status = status;
  started_at = some started;
  eta_seconds = eta;
}

module _ (r : Redis) (event_id ttl : ℕ) where
  pub read-write :
      (now u : ℕ) (c : Counts) (status : String) (eta : Option ℕ) (t : Tracked r.Db)
      → u < now + seconds ttl
      → read r event_id ttl u (write r event_id ttl now c status eta t).db
        ≡ some (snapshot c status (or_now now t.started_at) eta)
  unfolding read write
  read-write now u c status eta t h =
      rw r.get_live (rw entry_hset_expire (simp redis_laws (ground arith)))

  -- A failure writes no other key.
  pub mark_error_entry :
      (now : ℕ) (t : Tracked r.Db) (k : Key)
      → same_key (processing event_id) k ≡ false
      → r.entry (mark_error r event_id ttl now t).db k ≡ r.entry t.db k
  unfolding mark_error write
  mark_error_entry now t k d = rw entry_hset_expire (rw d)

  mark_error_counters :
      (u v : ℕ) (c : Counts) (status : String) (started : ℕ) (eta : Option ℕ) (t : Tracked r.Db)
      → read r event_id ttl u t.db ≡ some (snapshot c status started eta)
      → v < u + seconds ttl
      → read r event_id ttl v (mark_error r event_id ttl u t).db
        ≡ some (snapshot c status_error (or_now u t.started_at) none)
  unfolding mark_error
  mark_error_counters u v c status started eta t e k =
      read-write u v (counts_of (read r event_id ttl u t.db)) status_error none t k
      ∙ ap (λ o. some (snapshot (counts_of o) status_error (or_now u t.started_at) none)) e

  -- While the hash lives, a failure keeps the counters of the last update, marks the status and drops
  -- the estimate, whichever tracker notes it. The start time is kept where the tracker is the one of the
  -- run; a tracker that was made for the failure, as by the reconciler, has none and writes its own time.
  pub error_keeps_counters :
      (now u v : ℕ) (c : Counts) (status : String) (t : Tracked r.Db) (own : Option ℕ)
      → u < now + seconds ttl
      → v < u + seconds ttl
      → let updated = update r event_id ttl now c status t in
        (read r event_id ttl v (mark_error r event_id ttl u updated).db
          ≡ some (snapshot c status_error (or_now now t.started_at) none))
        × (read r event_id ttl v
              (mark_error r event_id ttl u (record { db = updated.db; started_at = own })).db
            ≡ some (snapshot c status_error (or_now u own) none))
  unfolding update write
  error_keeps_counters now u v c status t own h k =
      let eta = eta_seconds t.started_at c.processed_photos c.total_photos now in
      let started = or_now now t.started_at in
      let updated = write r event_id ttl now c status eta t in
      let last = read-write now u c status eta t h in
      (
        mark_error_counters u v c status started eta updated last k,
        mark_error_counters u v c status started eta (record { db = updated.db; started_at = own })
            last k,
      )
