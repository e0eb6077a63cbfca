-- ===== src/Pipeline/Process/Release.antt =====
-- The lock of the run in `process_event_photos` of ml/pipeline.py: given back, or never got.
use event_vision_pipeline.Base.{
  ℕ, suc, ◌+◌, ◌-◌, ◌≤◌, Bool, true, false, Option, none, some, ◌≡◌, ◌⊎◌, refl, ap, subst, inl, inr,
  arith, length, leb, Bool-cases,
}
use event_vision_pipeline.Base.Effect.{Result, ok, err}
use event_vision_pipeline.Redis.{Redis, Key, Entry, alive, live, value_of, same_key_refl}
use event_vision_pipeline.Lock.{EventClusteringLock, key_of, token_matches, release}
use event_vision_pipeline.Pipeline.{PhotoRow, PipelineError, lock_busy, Models, Tables}
use event_vision_pipeline.Pipeline.Bulk.{fresh_run}
use event_vision_pipeline.Pipeline.Job.{BulkConfig, Shared, acquire_pipeline_lock}
use event_vision_pipeline.Pipeline.Job.Attempts.{AllWithin, busy-GaveUp}
use event_vision_pipeline.Pipeline.Process.{
  EventClusterer, Done, process_pending, marked, released_after, locked, process_event_photos,
}

-- A token that is not ours stays so: the entry may only expire.
other_alive :
    (now u own : ℕ) (e : Entry) (expires : Option ℕ)
    → now ≤ u
    → token_matches (value_of (alive now e expires)) own ≡ false
    → token_matches (value_of (alive u e expires)) own ≡ false
other_alive now u own e none h other = other
other_alive now u own e (some t) h other = elim (Bool-cases (leb t u)) [
  | inl over ↦ rw over refl
  | inr more ↦ let before : leb t now ≡ false = ground arith in rw more (rw before at other)
]

other_live :
    (now u own : ℕ) (x : Option Entry)
    → now ≤ u
    → token_matches (value_of (live now x)) own ≡ false
    → token_matches (value_of (live u x)) own ≡ false
other_live now u own none h other = refl
other_live now u own (some e) h other = other_alive now u own e e.expires h other

module _ (r : Redis) where
  release_lem :
      (now u : ℕ) (lock : EventClusteringLock) (db : r.Db)
      → now ≤ u
      → token_matches (r.get u (key_of lock) (release r now lock db)) lock.own_token ≡ false
  unfolding release
  release_lem now u lock db h =
      elim (Bool-cases (token_matches (r.get now (key_of lock) db) lock.own_token)) [
        | inl mine ↦
            rw mine (rw r.get_live (rw r.entry_delete (rw (same_key_refl (key_of lock)) refl)))
        | inr other ↦ rw other (
            rw r.get_live (
              other_live now u lock.own_token (r.entry db (key_of lock)) h
                (rw r.get_live at other)))
      ]

module _ (r : Redis) (models : Models) (config : BulkConfig) (clock pulses : ℕ → ℕ)
    (lock : EventClusteringLock) (clusterer : EventClusterer models r.Db)
    (ready pulse_end : Result PipelineError Unit)
    (download : PhotoRow → Result PipelineError models.Bytes) where
  abbrev DoneHere : Type 0
  DoneHere = Done r models config clock pulses lock clusterer ready pulse_end download

  -- The time of the last call, which releases the lock.
  abbrev pub last_time : Shared r.Db → ℕ
  last_time s = clock (s.readings - 1)

  abbrev holds_own : ℕ → Shared r.Db → Bool
  holds_own u s = token_matches (r.get u (key_of lock) s.tracked.db) lock.own_token

  -- A run gives the lock back, or the task of its pulse has raised, and so does the run.
  abbrev GivenBack : ℕ → DoneHere → Type 0
  GivenBack u (answer, job, clusters) =
      ((pulse_end ≡ ok tt) × (holds_own u job.shared ≡ false))
      ⊎ ((e : PipelineError) × (pulse_end ≡ err e) × (answer ≡ err e))

  released_free :
      (u : ℕ) (x : Result PipelineError Unit) (done : DoneHere)
      → pulse_end ≡ x
      → clock (
          (released_after r models config clock pulses lock clusterer ready pulse_end download x
            done).1.shared.readings
          - 1)
        ≤ u
      → GivenBack u (
          released_after r models config clock pulses lock clusterer ready pulse_end download x
            done)
  released_free u (err e) (answer, job, clusters) p h = inr (e, p, refl)
  released_free u (ok _) (answer, job, clusters) p h =
      let n = job.shared.readings in
      let one_less : suc n - 1 ≡ n = omega arith in
      inl (
        p,
        release_lem r (clock n) u lock job.shared.tracked.db
            (subst (λ (m : ℕ). clock m ≤ u) one_less h),
      )

  locked_free :
      (u : ℕ) (p : Result PipelineError Unit × Shared r.Db) (t : Tables models)
      (clusters : clusterer.Clusters)
      → p.0 ≡ ok tt
      → last_time
          (locked r models config clock pulses lock clusterer ready pulse_end download p t
            clusters).1.shared
        ≤ u
      → GivenBack u
          (locked r models config clock pulses lock clusterer ready pulse_end download p t clusters)
  locked_free u (err x, s) t clusters got h = cc
  locked_free u (ok _, s) t clusters got h =
      released_free u pulse_end
        (marked r models config clock pulses lock clusterer ready pulse_end download (
          process_pending r models config clock pulses lock clusterer ready pulse_end download t s
            clusters))
        refl h

  -- A run that acquired the lock gives it back, whatever becomes of the photos and the clusters: from its
  -- last call on, the key of the lock does not hold the token of the run, unless a later call writes it.
  -- Only where the task of the pulse has died with an error is there no promise: the run raises that
  -- error.
  pub lock_given_back :
      (has_redis : Bool) (t : Tables models) (s : Shared r.Db) (clusters : clusterer.Clusters)
      (u : ℕ)
      → (acquire_pipeline_lock r config clock has_redis lock s).0 ≡ ok tt
      → last_time
          (process_event_photos r models config clock pulses lock clusterer ready pulse_end download
            has_redis t s clusters).1.shared
        ≤ u
      → let (answer, job, after) =
          process_event_photos r models config clock pulses lock clusterer ready pulse_end download
            has_redis t s clusters in
        ((pulse_end ≡ ok tt)
          × (token_matches (r.get u (key_of lock) job.shared.tracked.db) lock.own_token ≡ false))
        ⊎ ((e : PipelineError) × (pulse_end ≡ err e) × (answer ≡ err e))
  unfolding process_event_photos
  lock_given_back has_redis t s clusters u got h =
      locked_free u (acquire_pipeline_lock r config clock has_redis lock s) t clusters got h

  locked_refused :
      (p : Result PipelineError Unit × Shared r.Db) (t : Tables models)
      (clusters : clusterer.Clusters) (x : PipelineError)
      → p.0 ≡ err x
      → locked r models config clock pulses lock clusterer ready pulse_end download p t clusters
        ≡ (err x, record { run = fresh_run t; shared = p.1 }, clusters)
  locked_refused (ok _, s) t clusters x e = cc
  locked_refused (err y, s) t clusters x e = let same : y ≡ x = cc in rw same refl

  -- Where the lock cannot be acquired, with base delays of eight seconds at most, the run raises "busy"
  -- after all the attempts and a sleep between each two, none longer than eight seconds. No row, no
  -- cluster and no key of Redis has changed.
  pub busy_changes_nothing :
      (t : Tables models) (s : Shared r.Db) (clusters : clusterer.Clusters) (x : PipelineError)
      (k : Key)
      → config.lock_retry_base_delay ≤ 8000
      → AllWithin 8000 s.slept
      → (acquire_pipeline_lock r config clock true lock s).0 ≡ err x
      → let (answer, job, after) =
          process_event_photos r models config clock pulses lock clusterer ready pulse_end download
            true t s clusters in
        (answer ≡ err lock_busy)
        × (job.run ≡ fresh_run t)
        × (after ≡ clusters)
        × (r.entry job.shared.tracked.db k ≡ r.entry s.tracked.db k)
        × (job.shared.readings ≡ s.readings + config.lock_retry_attempts)
        × (length job.shared.slept ≡ length s.slept + (config.lock_retry_attempts - 1))
        × AllWithin 8000 job.shared.slept
  unfolding process_event_photos
  busy_changes_nothing t s clusters x k within short e =
      let p = acquire_pipeline_lock r config clock true lock s in
      let (is_busy, (counted, slept, within_all, same)) =
        busy-GaveUp r config clock lock s x within e in
      rw (locked_refused p t clusters x e) (
        ap (λ (y : PipelineError). err y) is_busy,
        refl,
        refl,
        same k,
        counted,
        slept,
        within_all short,
      )
