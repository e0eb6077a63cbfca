-- ===== src/ClusterStore.antt =====
-- ml/clustering/cluster_persistence.py: the cluster of each face in the tables face_clusters and
-- face_embeddings, and the writes of a clustering result. A statement of SQL is a walk over the rows; the
-- columns updated_at are left out. The proofs are in the modules below.
pub mod Write
pub mod View
pub mod Refines
pub mod Examples
use event_vision_pipeline.Base.{
  ℕ, ◌+◌, Bool, true, false, ◌&&◌, Option, none, some, List, [], ◌∷◌, ◌++◌, ◌==◌, leb,
  if◌then◌else◌, occurrences, distinct,
}
use event_vision_pipeline.Clustering.{
  Numerics, NewCluster, ExpandedCluster, MergedCluster, ClusteringResult,
}

-- The columns that clustering reads or writes; the angles are the absolute values of yaw, pitch and roll.
pub record Angles : Type 0 where
  pub yaw : ℕ
  pub pitch : ℕ
  pub roll : ℕ

pub record FaceRow (Vector : Type 0) : Type 0 where
  pub id : ℕ
  pub event_id : ℕ
  pub cluster_id : Option ℕ
  pub quality_passed : Bool
  pub angles : Option Angles
  pub embedding : Vector
  pub secondary_embedding : Option Vector

pub record ClusterRow (Vector : Type 0) : Type 0 where
  pub id : ℕ
  pub event_id : ℕ
  pub centroid : Vector
  pub cluster_size : ℕ
  pub pyr_centroid : Option Vector
  pub pyr_size : ℕ
  pub secondary_centroid : Option Vector

pub record Store (Vector : Type 0) : Type 0 where
  pub faces : List (FaceRow Vector)
  pub clusters : List (ClusterRow Vector)

-- x in xs
abbrev pub among : ℕ → List ℕ → Bool
among x xs = leb 1 (occurrences x xs)

abbrev pub in_clusters : Option ℕ → List ℕ → Bool
in_clusters none ids = false
in_clusters (some c) ids = among c ids

abbrev pub or_kept : {A : Type 0} → Option A → A → A
or_kept none old = old
or_kept (some new) old = new

abbrev or_kept_option : {A : Type 0} → Option A → Option A → Option A
or_kept_option none old = old
or_kept_option (some new) old = some new

module _ {Vector : Type 0} where
  -- update(FaceEmbedding).where(event_id == ..., id.in_(members)).values(cluster_id=...)
  unfoldable pub assign : ℕ → List ℕ → ℕ → List (FaceRow Vector) → List (FaceRow Vector)
  assign event_id members cluster_id [] = []
  assign event_id members cluster_id (f ∷ rest) =
      (if f.event_id == event_id && among f.id members
        then record f { cluster_id = some cluster_id }
        else f)
      ∷ assign event_id members cluster_id rest

  -- update(FaceEmbedding).where(event_id == ..., cluster_id.in_(absorbed)).values(cluster_id=...)
  unfoldable pub reassign : ℕ → List ℕ → ℕ → List (FaceRow Vector) → List (FaceRow Vector)
  reassign event_id absorbed survivor [] = []
  reassign event_id absorbed survivor (f ∷ rest) =
      (if f.event_id == event_id && in_clusters f.cluster_id absorbed
        then record f { cluster_id = some survivor }
        else f)
      ∷ reassign event_id absorbed survivor rest

  -- The ids of the cluster rows that a delete hits, ON DELETE SET NULL for the faces of these, and the rows.
  unfoldable pub hit_by_delete : ℕ → List ℕ → List (ClusterRow Vector) → List ℕ
  hit_by_delete event_id ids [] = []
  hit_by_delete event_id ids (c ∷ rest) =
      let later = hit_by_delete event_id ids rest in
      if c.event_id == event_id && among c.id ids then c.id ∷ later else later

  unfoldable pub set_null : List ℕ → List (FaceRow Vector) → List (FaceRow Vector)
  set_null deleted [] = []
  set_null deleted (f ∷ rest) =
      (if in_clusters f.cluster_id deleted then record f { cluster_id = none } else f)
      ∷ set_null deleted rest

  unfoldable pub without_clusters : ℕ → List ℕ → List (ClusterRow Vector) → List (ClusterRow Vector)
  without_clusters event_id ids [] = []
  without_clusters event_id ids (c ∷ rest) =
      let later = without_clusters event_id ids rest in
      if c.event_id == event_id && among c.id ids then later else c ∷ later

  unfoldable pub delete_clusters : ℕ → List ℕ → Store Vector → Store Vector
  unfolding hit_by_delete set_null without_clusters
  delete_clusters event_id ids s = record {
    faces = set_null (hit_by_delete event_id ids s.clusters) s.faces;
    clusters = without_clusters event_id ids s.clusters;
  }

  -- update(FaceCluster).where(id == ..., event_id == ...).values(...)
  abbrev pub update_cluster :
      ℕ
      → ℕ
      → (ClusterRow Vector → ClusterRow Vector)
      → List (ClusterRow Vector)
      → List (ClusterRow Vector)
  update_cluster event_id id values [] = []
  update_cluster event_id id values (c ∷ rest) =
      (if c.id == id && c.event_id == event_id then values c else c)
      ∷ update_cluster event_id id values rest

  -- One round of `insert_new_clusters`; the update hits no row where there is no member.
  unfoldable pub insert_new_cluster : ℕ → NewCluster Vector → Store Vector → Store Vector
  unfolding assign
  insert_new_cluster event_id cluster s = record {
    faces = assign event_id cluster.crop_ids cluster.cluster_id s.faces;
    clusters =
        s.clusters
        ++ (record {
          id = cluster.cluster_id;
          event_id = event_id;
          centroid = cluster.centroid;
          cluster_size = cluster.size;
          pyr_centroid = none;
          pyr_size = 0;
          secondary_centroid = none;
        }
            ∷ []);
  }

  unfoldable pub insert_new_clusters : ℕ → List (NewCluster Vector) → Store Vector → Store Vector
  unfolding insert_new_cluster
  insert_new_clusters event_id [] s = s
  insert_new_clusters event_id (c ∷ rest) s =
      insert_new_clusters event_id rest (insert_new_cluster event_id c s)

  unfoldable pub apply_expanded_cluster : ℕ → ExpandedCluster Vector → Store Vector → Store Vector
  unfolding assign
  apply_expanded_cluster event_id expanded s = record {
    faces = assign event_id expanded.new_crop_ids expanded.cluster_id s.faces;
    clusters =
        update_cluster event_id expanded.cluster_id
          (λ c. record c {
            centroid = or_kept expanded.new_centroid c.centroid;
            cluster_size = or_kept expanded.new_size c.cluster_size;
            pyr_centroid = or_kept_option expanded.new_pyr_centroid c.pyr_centroid;
            pyr_size = or_kept expanded.new_pyr_size c.pyr_size;
          })
          s.clusters;
  }

  unfoldable pub apply_expanded_clusters :
      ℕ → List (ExpandedCluster Vector) → Store Vector → Store Vector
  unfolding apply_expanded_cluster
  apply_expanded_clusters event_id [] s = s
  apply_expanded_clusters event_id (c ∷ rest) s =
      apply_expanded_clusters event_id rest (apply_expanded_cluster event_id c s)
