-- ===== src/ClusterStore/Examples.antt =====
-- Two clusters and four faces of the event 7: a new crop joins both clusters, which are merged.
use event_vision_pipeline.Base.{ℕ, true, Option, none, some, [], ◌∷◌, ◌≡◌, refl}
use event_vision_pipeline.Base.Effect.{ok}
use event_vision_pipeline.Clustering.{
  ClusteringInput, ClusteringResult, ExistingCluster, cluster_type,
}
use event_vision_pipeline.Clustering.Incremental.{cluster}
use event_vision_pipeline.Clustering.Incremental.Examples.{tags}
use event_vision_pipeline.ClusterStore.{FaceRow, ClusterRow, Store}
use event_vision_pipeline.ClusterStore.Write.{write_result}
use event_vision_pipeline.ClusterStore.View.{view, place_result}
use event_vision_pipeline.ClusterStore.Refines.{write_result_refines}

abbrev pub face : ℕ → Option ℕ → ℕ → FaceRow ℕ
face id cluster_id tag = record {
  id = id;
  event_id = 7;
  cluster_id = cluster_id;
  quality_passed = true;
  angles = some (record { yaw = 1; pitch = 2; roll = 3 });
  embedding = tag;
  secondary_embedding = none;
}

abbrev pub row : ℕ → ℕ → ℕ → ClusterRow ℕ
row id tag size = record {
  id = id;
  event_id = 7;
  centroid = tag;
  cluster_size = size;
  pyr_centroid = none;
  pyr_size = 0;
  secondary_centroid = none;
}

abbrev pub shoot : Store ℕ
shoot = record {
  faces = face 1 (some 20) 4 ∷ face 2 (some 21) 5 ∷ face 3 none 4 ∷ face 4 none 9 ∷ [];
  clusters = row 20 4 1 ∷ row 21 5 1 ∷ [];
}

abbrev existing : ℕ → ExistingCluster ℕ
existing tag = record { centroid = tag; size = 1; crop_ids = []; pyr_centroid = none; pyr_size = 0 }

abbrev batch : ClusteringInput ℕ
batch = record {
  new_embeddings = (3, 4) ∷ (4, 9) ∷ [];
  existing_clusters = (20, existing 4) ∷ (21, existing 5) ∷ [];
  clustering_type = cluster_type;
}

abbrev result : ClusteringResult ℕ
result = record {
  new_clusters = record { cluster_id = 50; centroid = 9; crop_ids = 4 ∷ []; size = 1 } ∷ [];
  expanded_clusters = [];
  merged_clusters =
      record {
        surviving_cluster_id = 20;
        absorbed_cluster_ids = 21 ∷ [];
        new_centroid = 4;
        all_crop_ids = 3 ∷ [];
        new_size = 3;
      }
      ∷ [];
  unassigned_crop_ids = [];
}

clustered : cluster tags (λ n. 50) batch ≡ ok result
unfolding cluster
clustered = refl

write_result_refines_example :
    view 7 (write_result tags 7 result shoot).faces ≡ place_result result (view 7 shoot.faces)
write_result_refines_example = write_result_refines tags (λ n. 50) batch result 7 shoot clustered

merged_away : view 7 (write_result tags 7 result shoot).faces 2 ≡ some (some 20)
unfolding write_result
merged_away = refl
