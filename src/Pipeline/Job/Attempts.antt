-- ===== src/Pipeline/Job/Attempts.antt =====
-- `_acquire_pipeline_lock` of ml/pipeline.py: the attempts, and the sleep between them.
use event_vision_pipeline.Base.{
  ℕ, zero, suc, min, ◌+◌, ◌-◌, ◌*◌, ◌≤◌, true, false, List, [], ◌∷◌, ◌≡◌, refl, ◌∙◌, inl, inr,
  arith, length, Bool-cases,
}
use event_vision_pipeline.Base.Effect.{Result, err}
use event_vision_pipeline.Redis.{Redis, Key, token}
use event_vision_pipeline.Lock.{EventClusteringLock, key_of, acquire}
use event_vision_pipeline.Pipeline.{PipelineError, lock_busy}
use event_vision_pipeline.Pipeline.Job.{BulkConfig, Shared, attempt_lock, acquire_pipeline_lock}

-- Every delay is within the bound.
abbrev pub AllWithin : ℕ → List ℕ → Type 0
AllWithin bound [] = Unit
AllWithin bound (d ∷ rest) = (d ≤ bound) × AllWithin bound rest

module _ (r : Redis) (config : BulkConfig) (clock : ℕ → ℕ) (lock : EventClusteringLock) where
  refused_entry :
      (now : ℕ) (db : r.Db) (k : Key)
      → (acquire r now lock db).0 ≡ false
      → r.entry (acquire r now lock db).1 k ≡ r.entry db k
  unfolding acquire
  refused_entry now db k e = ground (
    arith,
    r.entry_set_nx now (key_of lock) (token lock.own_token) lock.ttl_seconds db k,
    r.reply_set_nx now (key_of lock) (token lock.own_token) lock.ttl_seconds db,
  )

  -- After so many attempts that all were refused.
  abbrev pub GaveUp : ℕ → Shared r.Db → Result PipelineError Unit × Shared r.Db → Type 0
  GaveUp attempts s p =
      (p.1.readings ≡ s.readings + attempts)
      × (length p.1.slept ≡ length s.slept + (attempts - 1))
      × (AllWithin 8000 s.slept → AllWithin 8000 p.1.slept)
      × ((k : Key) → r.entry p.1.tracked.db k ≡ r.entry s.tracked.db k)

  refused_state : Shared r.Db → Shared r.Db
  refused_state s = record s {
    tracked = record s.tracked { db = (acquire r (clock s.readings) lock s.tracked.db).1 };
    readings = suc s.readings;
  }

  attempt_lock-GaveUp :
      (n delay : ℕ) (s : Shared r.Db) (x : PipelineError)
      → delay ≤ 8000
      → (attempt_lock r config clock (suc n) delay lock s).0 ≡ err x
      → (x ≡ lock_busy) × GaveUp (suc n) s (attempt_lock r config clock (suc n) delay lock s)
  unfolding attempt_lock refused_state
  attempt_lock-GaveUp zero delay s x within e =
      let now = clock s.readings in
      elim (Bool-cases (acquire r now lock s.tracked.db).0) [
        | inl got ↦ let q = rw got at e in cc
        | inr busy ↦
            let q = rw busy at e in
            rw busy
              (cc, (omega arith, omega arith, λ w. w, λ k. refused_entry now s.tracked.db k busy))
      ]
  attempt_lock-GaveUp (suc n) delay s x within e =
      let now = clock s.readings in
      let next_state = record (refused_state s) { slept = delay ∷ s.slept } in
      elim (Bool-cases (acquire r now lock s.tracked.db).0) [
        | inl got ↦ let q = rw got at e in cc
        | inr busy ↦
            let (is_busy, (counted, slept, within_all, same)) =
              attempt_lock-GaveUp n (min (delay * 2) 8000) next_state x (ground arith)
                (rw busy at e) in
            rw busy (
              is_busy,
              (
                omega arith,
                omega arith,
                λ w. within_all (within, w),
                λ k. same k ∙ refused_entry now s.tracked.db k busy,
              ),
            )
      ]

  attempts-GaveUp :
      (n : ℕ) (s : Shared r.Db) (x : PipelineError)
      → config.lock_retry_base_delay ≤ 8000
      → (attempt_lock r config clock n config.lock_retry_base_delay lock s).0 ≡ err x
      → (x ≡ lock_busy)
        × GaveUp n s (attempt_lock r config clock n config.lock_retry_base_delay lock s)
  attempts-GaveUp zero s x within e =
      unfold attempt_lock in (cc, (omega arith, omega arith, λ w. w, λ k. refl))
  attempts-GaveUp (suc n) s x within e =
      attempt_lock-GaveUp n config.lock_retry_base_delay s x within e

  -- The attempts are all made, with a sleep between two of them.
  pub busy-GaveUp :
      (s : Shared r.Db) (x : PipelineError)
      → config.lock_retry_base_delay ≤ 8000
      → (acquire_pipeline_lock r config clock true lock s).0 ≡ err x
      → (x ≡ lock_busy)
        × GaveUp config.lock_retry_attempts s (acquire_pipeline_lock r config clock true lock s)
  unfolding acquire_pipeline_lock
  busy-GaveUp s x within e = attempts-GaveUp config.lock_retry_attempts s x within e
