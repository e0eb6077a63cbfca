-- ===== src/ClusterManager.antt =====
-- ml/clustering/cluster_manager.py: a clustering pass over the faces of an event, in batches, under the
-- lock of the event. The clusterer is that of Clustering, the writes are those of ClusterStore; a write
-- may fail. The passes of orphan recovery are not part of it. The proofs are in the modules below.
mod Batch
mod Selection
pub mod Ends
mod Examples
use event_vision_pipeline.Base.{
  ℕ, zero, suc, ◌+◌, String, Bool, true, false, ◌&&◌, ◌||◌, not, Option, none, some, List, [], ◌∷◌,
  ◌++◌, ◌==◌, leb, ltb, str_eq, take, if◌then◌else◌,
}
use event_vision_pipeline.Base.Effect.{Result, ok, err, after}
use event_vision_pipeline.Redis.{Redis}
use event_vision_pipeline.Lock.{EventClusteringLock, extend, release}
use event_vision_pipeline.Clustering.{
  Numerics, ExistingCluster, Dict, ClusteringInput, ClusteringResult, ClusteringTypeConfig,
  ClusterError, empty_result,
}
use event_vision_pipeline.Clustering.Incremental.{cluster}
use event_vision_pipeline.ClusterStore.{Angles, FaceRow, ClusterRow, Store, among}
use event_vision_pipeline.ClusterStore.Write.{write_result}
use event_vision_pipeline.Pipeline.{PipelineError, failed}
use event_vision_pipeline.Pipeline.Job.{BulkConfig, Shared, on_redis, acquire_pipeline_lock}

-- `load_event_clusters`
abbrev pub load_event_clusters : {V : Type 0} → ℕ → List (ClusterRow V) → Dict (ExistingCluster V)
load_event_clusters event_id [] = []
load_event_clusters event_id (c ∷ rest) =
    let later = load_event_clusters event_id rest in
    let entry : ExistingCluster _ = record {
      centroid = c.centroid;
      size = c.cluster_size;
      crop_ids = [];
      pyr_centroid = c.pyr_centroid;
      pyr_size = c.pyr_size;
    } in
    if c.event_id == event_id then (c.id, entry) ∷ later else later

-- The two conditions on the angles in `_unclustered_statement`.
abbrev in_sweeper_range : ℕ → ℕ → Angles → Bool
in_sweeper_range low high a =
    (leb a.yaw high && leb a.pitch high && leb a.roll high)
    && (leb low a.yaw || leb low a.pitch || leb low a.roll)

abbrev in_cluster_range : ℕ → ℕ → Angles → Bool
in_cluster_range low high a =
    leb low a.yaw
    && ltb a.yaw high
    && leb low a.pitch
    && ltb a.pitch high
    && leb low a.roll
    && ltb a.roll high

abbrev in_range : Bool → ℕ × ℕ → Option Angles → Bool
in_range sweeper (low, high) none = false
in_range sweeper (low, high) (some a) =
    if sweeper then in_sweeper_range low high a else in_cluster_range low high a

abbrev is_none : Option ℕ → Bool
is_none none = true
is_none (some c) = false

-- The rows of `_unclustered_statement` that were not attempted.
abbrev pub is_open : {V : Type 0} → ℕ → Bool → ℕ × ℕ → List ℕ → FaceRow V → Bool
is_open event_id sweeper pyr_range attempted f =
    f.event_id == event_id
    && is_none f.cluster_id
    && f.quality_passed
    && in_range sweeper pyr_range f.angles
    && not (among f.id attempted)

-- ORDER BY id
abbrev by_id : {V : Type 0} → ℕ × V → Dict V → Dict V
by_id e [] = e ∷ []
by_id (k, v) ((j, w) ∷ rest) =
    let later = by_id (k, v) rest in if leb k j then (k, v) ∷ (j, w) ∷ rest else (j, w) ∷ later

pub open_faces : {V : Type 0} → ℕ → Bool → ℕ × ℕ → List ℕ → List (FaceRow V) → Dict V
open_faces event_id sweeper pyr_range attempted [] = []
open_faces event_id sweeper pyr_range attempted (f ∷ rest) =
    let later = open_faces event_id sweeper pyr_range attempted rest in
    if is_open event_id sweeper pyr_range attempted f
    then by_id (f.id, f.embedding) later
    else later

-- `load_unclustered_embeddings`, with a limit
unfoldable pub load_unclustered_embeddings :
    {V : Type 0} → ℕ → Bool → ℕ × ℕ → ℕ → List ℕ → List (FaceRow V) → Dict V
unfolding open_faces
load_unclustered_embeddings event_id sweeper pyr_range limit attempted faces =
    take limit (open_faces event_id sweeper pyr_range attempted faces)

abbrev pub keys : {V : Type 0} → Dict V → List ℕ
keys [] = []
keys ((k, v) ∷ rest) = k ∷ keys rest

-- vector_utils.py
abbrev pub merge_clustering_results :
    {V : Type 0} → ClusteringResult V → ClusteringResult V → ClusteringResult V
merge_clustering_results combined batch = record {
  new_clusters = combined.new_clusters ++ batch.new_clusters;
  expanded_clusters = combined.expanded_clusters ++ batch.expanded_clusters;
  merged_clusters = combined.merged_clusters ++ batch.merged_clusters;
  unassigned_crop_ids = combined.unassigned_crop_ids ++ batch.unassigned_crop_ids;
}

-- The tables, Redis, and the locals of the pass.
pub record Pass (V Db : Type 0) : Type 0 where
  pub store : Store V
  pub shared : Shared Db
  pub attempted : List ℕ
  pub combined : ClusteringResult V
  pub batches : ℕ

abbrev pub is_empty : {V : Type 0} → Dict V → Bool
is_empty [] = true
is_empty (e ∷ rest) = false

-- The pass over one event. The n-th batch draws its ids from `fresh n`, and its write fails where `fails n`.
module _ (r : Redis) (numerics : Numerics) (clock : ℕ → ℕ) (fresh : ℕ → ℕ → ℕ) (fails : ℕ → Bool)
    (clustering_batch_size : ℕ) (type : ClusteringTypeConfig) (pyr_range : ℕ × ℕ)
    (lock : EventClusteringLock) where
  open numerics use {Vector}

  abbrev pub PassOf : Type 0
  PassOf = Pass Vector r.Db

  abbrev Step : Type 0
  Step = PassOf → Result PipelineError Unit × PassOf

  -- `apply_clustering_result`: a write that fails is rolled back.
  pub apply_clustering_result : ClusteringResult Vector → Step
  apply_clustering_result result p =
      if fails p.batches then (err (failed "cluster persistence"), p) else (
        ok tt,
        record p {
          store = write_result numerics lock.event_id result p.store;
          shared = on_redis r clock (λ t db. (extend r t lock db).1) p.shared;
          combined = merge_clustering_results p.combined result;
          batches = suc p.batches;
        },
      )

  abbrev clustered : Result ClusterError (ClusteringResult Vector) → Step
  clustered (err e) p = (err (failed "clusterer"), p)
  clustered (ok result) p = apply_clustering_result result p

  abbrev pub next_faces : PassOf → Dict Vector
  next_faces p =
      load_unclustered_embeddings lock.event_id (str_eq type.name "sweeper") pyr_range
        clustering_batch_size p.attempted p.store.faces

  -- The body of the loop, on the faces that were loaded.
  unfoldable pub run_batch : Dict Vector → Step
  unfolding apply_clustering_result
  run_batch unclustered p =
      clustered
        (cluster numerics (fresh p.batches) (record {
          new_embeddings = unclustered;
          existing_clusters = load_event_clusters lock.event_id p.store.clusters;
          clustering_type = type;
        }))
        (record p { attempted = p.attempted ++ keys unclustered })

  -- while True, with fuel; none where it runs out
  abbrev continue :
      Result PipelineError Unit × PassOf
      → (PassOf → Option (Result PipelineError Unit × PassOf))
      → Option (Result PipelineError Unit × PassOf)
  continue (ok _, p) rest = rest p
  continue (err e, p) rest = some (err e, p)

  pub run_batches : ℕ → PassOf → Option (Result PipelineError Unit × PassOf)
  unfolding run_batch
  run_batches zero p = none
  run_batches (suc fuel) p = elim (is_empty (next_faces p)) [
    | true ↦ some (ok tt, p)
    | false ↦ continue (run_batch (next_faces p) p) (run_batches fuel)
  ]

  -- `finally`, and the answer
  abbrev released : PassOf → PassOf
  released p = record p { shared = on_redis r clock (λ t db. release r t lock db) p.shared }

  abbrev answered :
      Result PipelineError Unit × PassOf → Result PipelineError (ClusteringResult Vector) × PassOf
  answered (ok _, p) = (ok p.combined, released p)
  answered (err e, p) = (err e, released p)

  abbrev finished :
      PassOf
      → Option (Result PipelineError Unit × PassOf)
      → Result PipelineError (ClusteringResult Vector) × PassOf
  finished p none = (err (failed "the loop did not end"), p)
  finished p (some done) = answered done

  abbrev face_count : List (FaceRow Vector) → ℕ
  face_count [] = 0
  face_count (f ∷ rest) = suc (face_count rest)

  abbrev locked :
      Result PipelineError Unit × Shared r.Db
      → Store Vector
      → Result PipelineError (ClusteringResult Vector) × PassOf
  locked (err e, s) store = (
    err e,
    record { store = store; shared = s; attempted = []; combined = empty_result; batches = 0 },
  )
  locked (ok _, s) store =
      let p : PassOf = record {
        store = store;
        shared = s;
        attempted = [];
        combined = empty_result;
        batches = 0;
      } in
      finished p (run_batches (suc (face_count store.faces)) p)

  -- The lock is acquired as that of the bulk run is (`_acquire_event_lock`).
  unfoldable pub run_clustering_pass :
      BulkConfig
      → Bool
      → Store Vector
      → Shared r.Db
      → Result PipelineError (ClusteringResult Vector) × PassOf
  unfolding run_batches
  run_clustering_pass config has_redis store s =
      locked (acquire_pipeline_lock r config clock has_redis lock s) store
