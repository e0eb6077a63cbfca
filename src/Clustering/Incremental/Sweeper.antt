-- ===== src/Clustering/Incremental/Sweeper.antt =====
-- The sweeper pass (`sweeper_type_config` of ml/clustering/clustering_config.py) in the handlers.
use event_vision_pipeline.Base.{ℕ, Option, none, some, List, [], ◌∷◌, ◌++◌, ◌≡◌, refl}
use event_vision_pipeline.Base.Effect.{Result, ok, err, after}
use event_vision_pipeline.Clustering.{
  Numerics, ClusteringInput, ClusteringResult, ExpandedCluster, ExistingCluster, Dict, get,
  ClusterError, sweeper_type_config,
}
use event_vision_pipeline.Clustering.Members.{Build, ids_of, vectors_of}
use event_vision_pipeline.Clustering.Incremental.Keeps.{cluster_keeps}
use event_vision_pipeline.Clustering.Incremental.{
  Vector, Member, unassign, handle_new_cluster, sweep, expand, expand_entry, expand_found,
  handle_expanded_cluster, handle_merged_cluster, handle_group, cluster, update_pyr_centroid,
}

module _ (numerics : Numerics) where
  -- Only the high-angle centroid moves.
  abbrev pub MovesPyrOnly : List (ExpandedCluster (Vector numerics)) → Type 0
  MovesPyrOnly [] = Unit
  MovesPyrOnly (c ∷ rest) = (c.new_centroid ≡ none) × (c.new_size ≡ none) × MovesPyrOnly rest

  abbrev pub IsSwept : ClusteringResult (Vector numerics) → Type 0
  IsSwept r = (r.new_clusters ≡ []) × (r.merged_clusters ≡ []) × MovesPyrOnly r.expanded_clusters

  append-MovesPyrOnly :
      (cs : List (ExpandedCluster (Vector numerics))) (c : ExpandedCluster (Vector numerics))
      → c.new_centroid ≡ none
      → c.new_size ≡ none
      → MovesPyrOnly cs
      → MovesPyrOnly (cs ++ c ∷ [])
  append-MovesPyrOnly [] c e f m = (e, f, tt)
  append-MovesPyrOnly (x ∷ rest) c e f m = (m.0, m.1, append-MovesPyrOnly rest c e f m.2)

  module _ (new_cluster_id : ℕ → ℕ) (existing : Dict (ExistingCluster (Vector numerics))) where
    after_centroid-IsSwept :
        (x : Result ClusterError (Vector numerics)) (id size : ℕ) (ids : List ℕ)
        (b : Build (Vector numerics))
        → IsSwept b.result
        → IsSwept
            (after
              (x, b)
              (λ v b'. (
                ok tt,
                record b' {
                  result = record b'.result {
                    expanded_clusters =
                        b'.result.expanded_clusters
                        ++ record {
                          cluster_id = id;
                          new_crop_ids = ids;
                          new_centroid = none;
                          new_size = none;
                          new_pyr_centroid = some v;
                          new_pyr_size = some size;
                        }
                          ∷ [];
                  };
                },
              ))).1.result
    after_centroid-IsSwept (ok v) id size ids b s =
        (s.0, s.1, append-MovesPyrOnly b.result.expanded_clusters _ refl refl s.2)
    after_centroid-IsSwept (err e) id size ids b s = s

    expand_entry-IsSwept :
        (id : ℕ) (o : Option (ExistingCluster (Vector numerics)))
        (crops group : List (Member numerics)) (b : Build (Vector numerics))
        → IsSwept b.result
        → IsSwept
            (expand_entry numerics new_cluster_id existing sweeper_type_config id o crops group
              b).1.result
    unfolding expand_entry expand sweep unassign
    expand_entry-IsSwept id none crops group b s = s
    expand_entry-IsSwept id (some c) [] group b s = s
    expand_entry-IsSwept id (some c) (m ∷ rest) group b s =
        after_centroid-IsSwept (update_pyr_centroid numerics c (vectors_of (m ∷ rest))).0 id
          (update_pyr_centroid numerics c (vectors_of (m ∷ rest))).1 (ids_of (m ∷ rest)) b s

    expand_found-IsSwept :
        (o : Option ℕ) (crops group : List (Member numerics)) (b : Build (Vector numerics))
        → IsSwept b.result
        → IsSwept
            (expand_found numerics new_cluster_id existing sweeper_type_config o crops group
              b).1.result
    unfolding expand_found unassign
    expand_found-IsSwept none crops group b s = s
    expand_found-IsSwept (some id) crops group b s =
        expand_entry-IsSwept id (get id existing) crops group b s

    handle_group-IsSwept :
        (centroids crops group : List (Member numerics)) (b : Build (Vector numerics))
        → IsSwept b.result
        → IsSwept
            (handle_group numerics new_cluster_id existing sweeper_type_config centroids crops group
              b).1.result
    unfolding handle_group handle_new_cluster handle_expanded_cluster handle_merged_cluster unassign
    handle_group-IsSwept [] [] group b s = s
    handle_group-IsSwept (c ∷ []) [] group b s = s
    handle_group-IsSwept [] (m ∷ rest) group b s = s
    handle_group-IsSwept (c ∷ []) (m ∷ rest) group b s =
        expand_found-IsSwept c.cluster_id (m ∷ rest) group b s
    handle_group-IsSwept (c ∷ d ∷ more) crops group b s = s

  -- A sweeper pass that succeeds creates no cluster and merges none, and of the clusters that it expands
  -- it changes neither the main centroid nor the size, but only the high-angle centroid.
  pub sweeper_only_expands :
      (new_cluster_id : ℕ → ℕ) (input : ClusteringInput (Vector numerics))
      (res : ClusteringResult (Vector numerics))
      → cluster numerics new_cluster_id (record input { clustering_type = sweeper_type_config })
        ≡ ok res
      → IsSwept res
  sweeper_only_expands new_cluster_id input res e =
      cluster_keeps numerics IsSwept (λ r ids s. s) (refl, refl, tt) new_cluster_id
        sweeper_type_config input res
        (λ centroids crops group b s.
          handle_group-IsSwept new_cluster_id input.existing_clusters centroids crops group b s)
        e
