-- ===== src/ClusterManager/Ends.antt =====
-- A clustering pass of ml/clustering/cluster_manager.py comes to an end.
use event_vision_pipeline.Base.{
  ℕ, zero, suc, ◌<◌, ◌≤◌, Bool, true, Option, some, List, [], ◌∷◌, ◌++◌, ◌≡◌, refl, ◌⊎◌, inl, inr,
  arith, str_eq, take, occurrences, occurrences-append, Bool-cases,
}
use event_vision_pipeline.Base.Effect.{Result, ok, err}
use event_vision_pipeline.Redis.{Redis}
use event_vision_pipeline.Lock.{EventClusteringLock}
use event_vision_pipeline.Clustering.{
  Numerics, Dict, ClusterError, ClusteringResult, ClusteringTypeConfig, empty_result,
}
use event_vision_pipeline.ClusterStore.{FaceRow, Store}
use event_vision_pipeline.Pipeline.{PipelineError, failed}
use event_vision_pipeline.Pipeline.Job.{BulkConfig, Shared, acquire_pipeline_lock}
use event_vision_pipeline.ClusterManager.{
  Pass, keys, is_empty, open_faces, load_unclustered_embeddings, apply_clustering_result, clustered,
  next_faces, run_batch, continue, run_batches, finished, locked, face_count, run_clustering_pass,
}
use event_vision_pipeline.ClusterManager.Batch.{face_ids, face_ids-write_result}
use event_vision_pipeline.Base.Remaining.{left, left-lt}
use event_vision_pipeline.ClusterManager.Selection.{keys-load, first_key}

-- The id of a face is its primary key.
abbrev pub DistinctFaces : {V : Type 0} → List (FaceRow V) → Type 0
DistinctFaces fs = (k : ℕ) → occurrences k (face_ids fs) ≤ 1

is_empty-take :
    {V : Type 0} (n : ℕ) (d : Dict V) → 0 < n → is_empty (take n d) ≡ true → is_empty d ≡ true
is_empty-take zero d h e = absurd (omega arith)
is_empty-take (suc n) [] h e = refl
is_empty-take (suc n) (x ∷ d) h e = cc

module _ (r : Redis) (numerics : Numerics) (clock : ℕ → ℕ) (fresh : ℕ → ℕ → ℕ) (fails : ℕ → Bool)
    (size : ℕ) (type : ClusteringTypeConfig) (range : ℕ × ℕ) (lock : EventClusteringLock) where
  open numerics use {Vector}

  abbrev P : Type 0
  P = Pass Vector r.Db

  -- A batch ends with the faces that it took up attempted, and with the same rows; the error, if any, is
  -- of the clusterer or of the write.
  abbrev pub IsExpected : PipelineError → Type 0
  IsExpected x = (x ≡ failed "clusterer") ⊎ (x ≡ failed "cluster persistence")

  abbrev Tries : Dict Vector → P → Result PipelineError Unit × P → Type 0
  Tries faces p (ok _, p') =
      (p'.attempted ≡ p.attempted ++ keys faces)
      × (face_ids p'.store.faces ≡ face_ids p.store.faces)
  Tries faces p (err x, p') =
      IsExpected x × (p'.attempted ≡ p.attempted ++ keys faces) × (p'.store ≡ p.store)

  apply-Tries :
      (faces : Dict Vector) (result : ClusteringResult Vector) (p : P)
      → Tries faces p (
          apply_clustering_result r numerics clock fresh fails size type range lock result
            (record p { attempted = p.attempted ++ keys faces }))
  unfolding apply_clustering_result
  apply-Tries faces result p = elim (Bool-cases (fails p.batches)) [
    | inl e ↦ rw e (inr refl, refl, refl)
    | inr e ↦ rw e (refl, face_ids-write_result numerics lock.event_id result p.store)
  ]

  clustered-Tries :
      (faces : Dict Vector) (answer : Result ClusterError (ClusteringResult Vector)) (p : P)
      → Tries faces p (
          clustered r numerics clock fresh fails size type range lock answer
            (record p { attempted = p.attempted ++ keys faces }))
  clustered-Tries faces (err e) p = (inl refl, refl, refl)
  clustered-Tries faces (ok result) p = apply-Tries faces result p

  run_batch-Tries :
      (faces : Dict Vector) (p : P)
      → Tries faces p (run_batch r numerics clock fresh fails size type range lock faces p)
  unfolding run_batch
  run_batch-Tries faces p = clustered-Tries faces _ p

  abbrev Once : List ℕ → Type 0
  Once attempted = (k : ℕ) → occurrences k attempted ≤ 1

  -- The end of the loop: no face is left to take up, or an error that is expected.
  abbrev Ended : Result PipelineError Unit × P → Type 0
  Ended (ok _, p) = is_empty (next_faces r numerics clock fresh fails size type range lock p) ≡ true
  Ended (err x, p) = IsExpected x

  abbrev Reaches : Option (Result PipelineError Unit × P) → Type 0
  Reaches o =
      (done : Result PipelineError Unit × P) × (o ≡ some done) × Ended done × Once done.1.attempted

  continue-Reaches :
      (faces : Dict Vector) (p : P) (q : Result PipelineError Unit × P)
      (rest : P → Option (Result PipelineError Unit × P))
      → Tries faces p q
      → Once (p.attempted ++ keys faces)
      → ((p' : P)
          → p'.attempted ≡ p.attempted ++ keys faces
          → face_ids p'.store.faces ≡ face_ids p.store.faces
          → Reaches (rest p'))
      → Reaches (continue r numerics clock fresh fails size type range lock q rest)
  continue-Reaches faces p (ok _, p') rest t once later = later p' t.0 t.1
  continue-Reaches faces p (err x, p') rest t once later = ((err x, p'), refl, t.0, rw t.1 once)

  run_batches-Reaches :
      (fuel : ℕ) (p : P)
      → left p.attempted (face_ids p.store.faces) < fuel
      → DistinctFaces p.store.faces
      → Once p.attempted
      → Reaches (run_batches r numerics clock fresh fails size type range lock fuel p)
  unfolding run_batches
  run_batches-Reaches zero p h distinct once = absurd (omega arith)
  run_batches-Reaches (suc fuel) p h distinct once =
      let faces = next_faces r numerics clock fresh fails size type range lock p in
      let loaded = λ (k : ℕ).
        keys-load k lock.event_id size (str_eq type.name "sweeper") range p.attempted
          p.store.faces in
      elim (Bool-cases (is_empty faces)) [
        | inl e ↦ rw (e, run_batches) ((ok tt, p), refl, e, once)
        | inr e ↦
            let (k, there) = first_key faces e in
            let at_k = loaded k in
            let fewer =
              left-lt k p.attempted (keys faces) (face_ids p.store.faces) (omega arith) there
                (at_k.1 there) in
            rw (e, run_batches)
              (continue-Reaches faces p
                (run_batch r numerics clock fresh fails size type range lock faces p)
                (run_batches r numerics clock fresh fails size type range lock fuel)
                (run_batch-Tries faces p)
                (λ j.
                  let at_j = loaded j in
                  let d = distinct j in
                  let o = once j in ground (arith, occurrences-append j p.attempted (keys faces)))
                (λ p' attempts ids.
                  run_batches-Reaches fuel p' (rw (attempts, ids) (omega arith))
                    (λ j. rw ids (distinct j))
                    (λ j. rw attempts (
                      let at_j = loaded j in
                      let d = distinct j in
                      let o = once j in
                      ground (arith, occurrences-append j p.attempted (keys faces))))))
      ]

  all_left :
      (fs : List (FaceRow Vector))
      → left [] (face_ids fs) ≡ face_count r numerics clock fresh fails size type range lock fs
  all_left [] = refl
  all_left (f ∷ rest) = omega (arith, all_left rest)

  abbrev pub Exhausts : Result PipelineError (ClusteringResult Vector) → P → Type 0
  Exhausts (ok _) p =
      is_empty
        (open_faces lock.event_id (str_eq type.name "sweeper") range p.attempted p.store.faces)
      ≡ true
  Exhausts (err x) p = IsExpected x

  none_loaded :
      (p : P)
      → 0 < size
      → Ended (ok tt, p)
      → is_empty
          (open_faces lock.event_id (str_eq type.name "sweeper") range p.attempted p.store.faces)
        ≡ true
  unfolding load_unclustered_embeddings
  none_loaded p some_size ended =
      is_empty-take size
        (open_faces lock.event_id (str_eq type.name "sweeper") range p.attempted p.store.faces)
        some_size ended

  answered_ends :
      (k : ℕ) (start : P) (o : Option (Result PipelineError Unit × P))
      (done : Result PipelineError Unit × P)
      → 0 < size
      → o ≡ some done
      → Ended done
      → Once done.1.attempted
      → let (answer, p) = finished r numerics clock fresh fails size type range lock start o in
        Exhausts answer p × (occurrences k p.attempted ≤ 1)
  answered_ends k start o (ok u, p) some_size e ended once =
      rw e (none_loaded p some_size ended, once k)
  answered_ends k start o (err x, p) some_size e ended once = rw e (ended, once k)

  locked_ends :
      (k : ℕ) (q : Result PipelineError Unit × Shared r.Db) (store : Store Vector)
      → 0 < size
      → q.0 ≡ ok tt
      → DistinctFaces store.faces
      → let (answer, p) = locked r numerics clock fresh fails size type range lock q store in
        Exhausts answer p × (occurrences k p.attempted ≤ 1)
  locked_ends k (err x, s) store some_size got distinct = cc
  locked_ends k (ok u, s) store some_size got distinct =
      let start : P = record {
        store = store;
        shared = s;
        attempted = [];
        combined = empty_result;
        batches = 0;
      } in
      let fuel = suc (face_count r numerics clock fresh fails size type range lock store.faces) in
      let (done, e, ended, once) =
        run_batches-Reaches fuel start (omega (arith, all_left store.faces)) distinct
          (λ j. omega arith) in
      answered_ends k start
        (run_batches r numerics clock fresh fails size type range lock fuel start) done some_size e
        ended once

  -- A pass that got the lock, with a batch size that is not 0, comes to an end. It took up no face
  -- twice. It ends either with an answer, and then no face of the event is open (in no cluster, passed by
  -- the quality filter, with angles in the range of the pass, not taken up), or with an error of the
  -- clusterer or of a write.
  pub pass_ends :
      (config : BulkConfig) (has_redis : Bool) (store : Store Vector) (s : Shared r.Db) (k : ℕ)
      → 0 < size
      → (acquire_pipeline_lock r config clock has_redis lock s).0 ≡ ok tt
      → DistinctFaces store.faces
      → let (answer, p) =
          run_clustering_pass r numerics clock fresh fails size type range lock config has_redis
            store s in
        Exhausts answer p × (occurrences k p.attempted ≤ 1)
  unfolding run_clustering_pass
  pass_ends config has_redis store s k some_size got distinct =
      locked_ends k (acquire_pipeline_lock r config clock has_redis lock s) store some_size got
        distinct
