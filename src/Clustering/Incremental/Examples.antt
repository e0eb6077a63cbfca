-- ===== src/Clustering/Incremental/Examples.antt =====
-- Passes over three new crops and two clusters, with tags in place of vectors: DBSCAN puts equal tags
-- together and takes the tag 0 as noise, and the merging joins the tags 2 and 3, 4 and 5, and so on.
use event_vision_pipeline.Base.{
  ◌<◌, ◌⊎◌, inl, ℕ, ◌/◌, ◌≤◌, Option, none, some, List, [], ◌∷◌, ◌≡◌, refl, arith, length, ◌==◌,
  if◌then◌else◌,
}
use event_vision_pipeline.Base.Effect.{ok}
use event_vision_pipeline.Clustering.{
  Numerics, ClusteringInput, ClusteringResult, ExistingCluster, Dict, cluster_type,
}
use event_vision_pipeline.Clustering.Incremental.{cluster}
use event_vision_pipeline.Clustering.Incremental.Placed.{placed}
use event_vision_pipeline.Clustering.Incremental.Partition.{cluster_places_once}
use event_vision_pipeline.Clustering.Incremental.Survivor.{Among, survivor_largest}
use event_vision_pipeline.Clustering.Incremental.Sweeper.{IsSwept, sweeper_only_expands}

abbrev pub labels : List ℕ → List (Option ℕ)
labels [] = []
labels (v ∷ rest) = (if v == 0 then none else some v) ∷ labels rest

abbrev pub halves : List ℕ → List ℕ
halves [] = []
halves (v ∷ rest) = v / 2 ∷ halves rest

abbrev pub first_tag : List ℕ → ℕ
first_tag [] = 0
first_tag (v ∷ rest) = v

pub length-labels : (vs : List ℕ) → length (labels vs) ≡ length vs
length-labels [] = refl
length-labels (v ∷ rest) = omega (arith, length-labels rest)

pub length-halves : (vs : List ℕ) → length (halves vs) ≡ length vs
length-halves [] = refl
length-halves (v ∷ rest) = omega (arith, length-halves rest)

pub length-merged :
    (vs labels : List ℕ) → some (halves vs) ≡ some labels → length labels ≡ length vs
length-merged vs labels e = let same : halves vs ≡ labels = cc in rw (← same) (length-halves vs)

abbrev pub tags : Numerics
tags = record {
  Vector = ℕ;
  dimension = λ v. 512;
  zeros_like = λ v. 0;
  add_weighted = λ sum v w. v;
  divide = λ v n. v;
  mean = first_tag;
  norm_is_zero = λ v. v == 0;
  divide_by_norm = λ v. v;
  dbscan = labels;
  agglomerative = λ vs. some (halves vs);
  dbscan_length = length-labels;
  agglomerative_length = length-merged;
}

abbrev cluster_of : ℕ → ℕ → List ℕ → ExistingCluster ℕ
cluster_of tag size crops = record {
  centroid = tag;
  size = size;
  crop_ids = crops;
  pyr_centroid = none;
  pyr_size = 0;
}

-- The clusters 50 and 60 are merged; the crop 12 goes with them.
abbrev existing : Dict (ExistingCluster ℕ)
existing = (50, cluster_of 2 4 (1 ∷ [])) ∷ (60, cluster_of 3 7 (2 ∷ 3 ∷ [])) ∷ []

abbrev new_crops : Dict ℕ
new_crops = (10, 0) ∷ (11, 8) ∷ (12, 3) ∷ []

abbrev batch : ClusteringInput ℕ
batch = record {
  new_embeddings = new_crops;
  existing_clusters = existing;
  clustering_type = cluster_type;
}

cluster_places_once_example :
    (res : ClusteringResult ℕ) × (cluster tags (λ n. 100) batch ≡ ok res) × (placed 12 res ≡ 1)
cluster_places_once_example =
    cluster_places_once tags 12 (λ n. 100) batch (λ vs e. cc) (refl, (refl, (refl, tt)))
      (refl, (refl, tt)) refl (refl, (refl, tt))

-- What the sweeper makes of one crop beside the cluster 60.
abbrev swept : ClusteringResult ℕ
swept = record {
  new_clusters = [];
  expanded_clusters =
      record {
        cluster_id = 60;
        new_crop_ids = 12 ∷ [];
        new_centroid = none;
        new_size = none;
        new_pyr_centroid = some 3;
        new_pyr_size = some 1;
      }
      ∷ [];
  merged_clusters = [];
  unassigned_crop_ids = 10 ∷ 11 ∷ [];
}

abbrev sweep_batch : ClusteringInput ℕ
sweep_batch = record {
  new_embeddings = new_crops;
  existing_clusters = (60, cluster_of 3 7 (2 ∷ 3 ∷ [])) ∷ [];
  clustering_type = cluster_type;
}

sweeper_only_expands_example : IsSwept tags swept
unfolding cluster
sweeper_only_expands_example = sweeper_only_expands tags (λ n. 100) sweep_batch swept refl

survivor_largest_example :
    (size : ℕ) × Among 50 size ((60, 7) ∷ (50, 7) ∷ (40, 2) ∷ [])
    × ((7 < size) ⊎ ((7 ≡ size) × (50 ≤ 60)))
survivor_largest_example =
    survivor_largest ((60, 7) ∷ (50, 7) ∷ (40, 2) ∷ []) 50 60 7 refl (inl (refl, refl))
