-- ===== src/Clustering.antt =====
-- ml/clustering/types.py and clustering_config.py: what goes into a clustering pass over the face crops
-- of an event, and what comes out of it. Crops and clusters are numbered by their UUIDs; a text of a
-- UUID has a fixed length, so the order of the texts is that of the numbers. The clusterer and the
-- proofs are in the modules below.
mod Arithmetic
pub mod Members
pub mod Incremental
pub mod Known
pub use Arithmetic.*
use event_vision_pipeline.Base.{
  ℕ, String, Bool, true, false, Option, none, List, [], ◌∷◌, ◌++◌, ◌==◌, if◌then◌else◌, some,
}

-- `centroid_field` and `pyr_range`, which the clusterer does not read, are left out.
pub record ClusteringTypeConfig : Type 0 where
  pub name : String
  pub creates_new_clusters : Bool
  pub expands_existing : Bool
  pub allows_merge_clusters : Bool

abbrev pub cluster_type : ClusteringTypeConfig
cluster_type = record {
  name = "cluster";
  creates_new_clusters = true;
  expands_existing = true;
  allows_merge_clusters = true;
}

abbrev pub sweeper_type_config : ClusteringTypeConfig
sweeper_type_config = record {
  name = "sweeper";
  creates_new_clusters = false;
  expands_existing = true;
  allows_merge_clusters = false;
}

pub record ExistingCluster (Vector : Type 0) : Type 0 where
  pub centroid : Vector
  pub size : ℕ
  pub crop_ids : List ℕ
  pub pyr_centroid : Option Vector
  pub pyr_size : ℕ

-- A dict in the order of its insertions.
abbrev pub Dict : Type 0 → Type 0
Dict A = List (ℕ × A)

abbrev pub get : {A : Type 0} → ℕ → Dict A → Option A
get k [] = none
get k (e ∷ rest) = let found = get k rest in if k == e.0 then some e.1 else found

pub record ClusteringInput (Vector : Type 0) : Type 0 where
  pub new_embeddings : Dict Vector
  pub existing_clusters : Dict (ExistingCluster Vector)
  pub clustering_type : ClusteringTypeConfig

pub record NewCluster (Vector : Type 0) : Type 0 where
  pub cluster_id : ℕ
  pub centroid : Vector
  pub crop_ids : List ℕ
  pub size : ℕ

pub record ExpandedCluster (Vector : Type 0) : Type 0 where
  pub cluster_id : ℕ
  pub new_crop_ids : List ℕ
  pub new_centroid : Option Vector
  pub new_size : Option ℕ
  pub new_pyr_centroid : Option Vector
  pub new_pyr_size : Option ℕ

pub record MergedCluster (Vector : Type 0) : Type 0 where
  pub surviving_cluster_id : ℕ
  pub absorbed_cluster_ids : List ℕ
  pub new_centroid : Vector
  pub all_crop_ids : List ℕ
  pub new_size : ℕ

pub record ClusteringResult (Vector : Type 0) : Type 0 where
  pub new_clusters : List (NewCluster Vector)
  pub expanded_clusters : List (ExpandedCluster Vector)
  pub merged_clusters : List (MergedCluster Vector)
  pub unassigned_crop_ids : List ℕ

abbrev pub empty_result : {Vector : Type 0} → ClusteringResult Vector
empty_result = record {
  new_clusters = [];
  expanded_clusters = [];
  merged_clusters = [];
  unassigned_crop_ids = [];
}

-- ValueError, KeyError and IndexError
pub data ClusterError : Type 0 where
  value_error key_error index_error : ClusterError
