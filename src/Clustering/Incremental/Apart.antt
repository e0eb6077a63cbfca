-- ===== src/Clustering/Incremental/Apart.antt =====
-- The merges in a result of `cluster` of ml/clustering/incremental_clusterer.py.
use event_vision_pipeline.Base.{
  ℕ, Option, none, some, List, [], ◌∷◌, ◌++◌, ◌≡◌, refl, inl, inr, arith, str_eq, sorted,
  occurrences, occurrences-sorted, Bool-cases,
}
use event_vision_pipeline.Base.Effect.{ok}
use event_vision_pipeline.Clustering.{
  Numerics, MergedCluster, ClusteringInput, ClusteringResult, ClusteringTypeConfig, ExistingCluster,
  Dict, get,
}
use event_vision_pipeline.Clustering.Members.{
  Build, absorbed, survivor, candidates_of, crops_of_clusters, weighted, unweighted, vectors_of,
}
use event_vision_pipeline.Clustering.Incremental.{
  Vector, Member, unassign, weighted_centroid, handle_new_cluster, sweep, expand, expand_entry,
  expand_found, handle_expanded_cluster, handle_merged_cluster, handle_group, update_pyr_centroid,
  cluster,
}
use event_vision_pipeline.Clustering.Incremental.Keeps.{cluster_keeps, after_lift}

-- No merge absorbs its survivor.
abbrev pub AllApart : {Vector : Type 0} → List (MergedCluster Vector) → Type 0
AllApart [] = Unit
AllApart (m ∷ rest) =
    (occurrences m.surviving_cluster_id m.absorbed_cluster_ids ≡ 0) × AllApart rest

absorbed_apart : (s : ℕ) (cs : List (ℕ × ℕ)) → occurrences s (absorbed s cs) ≡ 0
absorbed_apart s [] = refl
absorbed_apart s ((id, size) ∷ rest) = ground (arith, absorbed_apart s rest)

append-AllApart :
    {V : Type 0} (ms : List (MergedCluster V)) (m : MergedCluster V)
    → occurrences m.surviving_cluster_id m.absorbed_cluster_ids ≡ 0
    → AllApart ms
    → AllApart (ms ++ m ∷ [])
append-AllApart [] m e a = (e, tt)
append-AllApart (x ∷ rest) m e a = (a.0, append-AllApart rest m e a.1)

module _ (numerics : Numerics) (new_cluster_id : ℕ → ℕ)
    (existing : Dict (ExistingCluster (Vector numerics))) (type : ClusteringTypeConfig) where
  abbrev IsApart : Build (Vector numerics) → Type 0
  IsApart b = AllApart b.result.merged_clusters

  handle_new_cluster-IsApart :
      (crops : List (Member numerics)) (b : Build (Vector numerics))
      → IsApart b
      → IsApart (handle_new_cluster numerics new_cluster_id existing type crops b).1
  unfolding handle_new_cluster unassign
  handle_new_cluster-IsApart crops b p = elim (Bool-cases type.creates_new_clusters) [
    | inl e ↦ rw e (
        after_lift IsApart (weighted_centroid numerics (unweighted (vectors_of crops))) _ b p
          (λ v. p))
    | inr e ↦ rw e p
  ]

  expand-IsApart :
      (id : ℕ) (c : ExistingCluster (Vector numerics)) (crops group : List (Member numerics))
      (b : Build (Vector numerics))
      → IsApart b
      → IsApart (expand numerics new_cluster_id existing type id c crops group b).1
  unfolding expand sweep
  expand-IsApart id c [] group b p = p
  expand-IsApart id c (m ∷ crops) group b p = elim (Bool-cases (str_eq type.name "sweeper")) [
    | inl e ↦ rw e (
        after_lift IsApart (update_pyr_centroid numerics c (vectors_of (m ∷ crops))).0 _ b p
          (λ v. p))
    | inr e ↦ rw e (after_lift IsApart (weighted_centroid numerics (weighted group)) _ b p (λ v. p))
  ]

  expand_entry-IsApart :
      (id : ℕ) (o : Option (ExistingCluster (Vector numerics)))
      (crops group : List (Member numerics)) (b : Build (Vector numerics))
      → IsApart b
      → IsApart (expand_entry numerics new_cluster_id existing type id o crops group b).1
  unfolding expand_entry unassign
  expand_entry-IsApart id none crops group b p = p
  expand_entry-IsApart id (some c) crops group b p = elim (Bool-cases type.expands_existing) [
    | inl e ↦ rw e (expand-IsApart id c crops group b p)
    | inr e ↦ rw e p
  ]

  expand_found-IsApart :
      (o : Option ℕ) (crops group : List (Member numerics)) (b : Build (Vector numerics))
      → IsApart b
      → IsApart (expand_found numerics new_cluster_id existing type o crops group b).1
  unfolding expand_found unassign
  expand_found-IsApart none crops group b p = p
  expand_found-IsApart (some id) crops group b p =
      expand_entry-IsApart id (get id existing) crops group b p

  -- The survivor is taken out of the candidates.
  handle_merged_cluster-IsApart :
      (centroids crops group : List (Member numerics)) (b : Build (Vector numerics))
      → IsApart b
      → IsApart
          (handle_merged_cluster numerics new_cluster_id existing type centroids crops group b).1
  unfolding handle_merged_cluster unassign
  handle_merged_cluster-IsApart centroids crops group b p =
      elim (Bool-cases type.allows_merge_clusters) [
        | inr e ↦ rw e p
        | inl e ↦ rw e (
            after_lift IsApart (candidates_of existing centroids) _ b p (λ candidates.
              after_lift IsApart (survivor candidates) _ b p (λ s.
                after_lift IsApart (crops_of_clusters existing (s ∷ sorted (absorbed s candidates)))
                  _ b p
                  (λ ids.
                    after_lift IsApart (weighted_centroid numerics (weighted group)) _ b p (λ v.
                      append-AllApart b.result.merged_clusters _
                        (ground (
                          arith,
                          occurrences-sorted s (absorbed s candidates),
                          absorbed_apart s candidates,
                        ))
                        p)))))
      ]

  handle_group-IsApart :
      (centroids crops group : List (Member numerics)) (b : Build (Vector numerics))
      → IsApart b
      → IsApart (handle_group numerics new_cluster_id existing type centroids crops group b).1
  unfolding handle_group handle_expanded_cluster
  handle_group-IsApart [] [] group b p = p
  handle_group-IsApart (c ∷ []) [] group b p = p
  handle_group-IsApart [] (m ∷ rest) group b p = handle_new_cluster-IsApart (m ∷ rest) b p
  handle_group-IsApart (c ∷ []) (m ∷ rest) group b p =
      expand_found-IsApart c.cluster_id (m ∷ rest) group b p
  handle_group-IsApart (c ∷ d ∷ more) crops group b p =
      handle_merged_cluster-IsApart (c ∷ d ∷ more) crops group b p

pub cluster-AllApart :
    (numerics : Numerics) (new_cluster_id : ℕ → ℕ) (input : ClusteringInput (Vector numerics))
    (res : ClusteringResult (Vector numerics))
    → cluster numerics new_cluster_id input ≡ ok res
    → AllApart res.merged_clusters
cluster-AllApart numerics new_cluster_id input res =
    cluster_keeps numerics (λ r. AllApart r.merged_clusters) (λ r ids p. p) tt new_cluster_id
      input.clustering_type input res
      (λ centroids crops group b p.
        handle_group-IsApart numerics new_cluster_id input.existing_clusters input.clustering_type
          centroids crops group b p)
