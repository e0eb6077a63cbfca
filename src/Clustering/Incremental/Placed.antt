-- ===== src/Clustering/Incremental/Placed.antt =====
-- Where a crop is in a result, and the handlers of one group
-- (ml/clustering/incremental_clusterer.py).
use event_vision_pipeline.Base.{
  ℕ, ◌+◌, ◌≤◌, ◌<◌, false, Option, none, some, List, [], ◌∷◌, ◌++◌, ◌≡◌, refl, inl, inr, arith,
  ◌==◌, str_eq, Bool-cases, Option-cases, occurrences, occurrences-append, occurrences-update,
  sorted, length,
}
use event_vision_pipeline.Base.Effect.{ok}
use event_vision_pipeline.Clustering.{
  Numerics, ClusteringTypeConfig, ExistingCluster, Dict, get, NewCluster, ExpandedCluster,
  MergedCluster, ClusteringResult,
}
use event_vision_pipeline.Clustering.Members.{
  Build, ids_of, vectors_of, weighted, unweighted, total_weight, absorbed,
}
use event_vision_pipeline.Clustering.Incremental.{
  Vector, Member, Method, l2_normalize, weighted_sum, weighted_centroid, update_pyr_centroid,
  unassign, pyr_rows, handle_new_cluster, sweep, expand, expand_entry, expand_found,
  handle_merged_cluster,
}
use event_vision_pipeline.Clustering.Known.{
  AllKnown, IsFresh, candidates_succeed, survivor_succeeds, absorbed-AllFound, sorted-AllFound,
  crops_succeed,
}

module _ {V : Type 0} (crop : ℕ) where
  abbrev in_new : List (NewCluster V) → ℕ
  in_new [] = 0
  in_new (c ∷ rest) = occurrences crop c.crop_ids + in_new rest

  abbrev in_expanded : List (ExpandedCluster V) → ℕ
  in_expanded [] = 0
  in_expanded (c ∷ rest) = occurrences crop c.new_crop_ids + in_expanded rest

  abbrev in_merged : List (MergedCluster V) → ℕ
  in_merged [] = 0
  in_merged (c ∷ rest) = occurrences crop c.all_crop_ids + in_merged rest

  -- How often the crop occurs in the crop lists of a result.
  abbrev pub placed : ClusteringResult V → ℕ
  placed r =
      in_new r.new_clusters
      + in_expanded r.expanded_clusters
      + in_merged r.merged_clusters
      + occurrences crop r.unassigned_crop_ids

  -- The same of a result that is being built.
  abbrev pub placed_so_far : Build V → ℕ
  placed_so_far b =
      in_new b.result.new_clusters
      + in_expanded b.result.expanded_clusters
      + in_merged b.result.merged_clusters
      + occurrences crop b.unassigned

  in_new-append :
      (xs : List (NewCluster V)) (c : NewCluster V)
      → in_new (xs ++ c ∷ []) ≡ in_new xs + occurrences crop c.crop_ids
  in_new-append [] c = omega arith
  in_new-append (x ∷ xs) c = omega (arith, in_new-append xs c)

  in_expanded-append :
      (xs : List (ExpandedCluster V)) (c : ExpandedCluster V)
      → in_expanded (xs ++ c ∷ []) ≡ in_expanded xs + occurrences crop c.new_crop_ids
  in_expanded-append [] c = omega arith
  in_expanded-append (x ∷ xs) c = omega (arith, in_expanded-append xs c)

  in_merged-append :
      (xs : List (MergedCluster V)) (c : MergedCluster V)
      → in_merged (xs ++ c ∷ []) ≡ in_merged xs + occurrences crop c.all_crop_ids
  in_merged-append [] c = omega arith
  in_merged-append (x ∷ xs) c = omega (arith, in_merged-append xs c)

module _ (numerics : Numerics) where
  weighted_centroid_succeeds :
      (rows : List (Vector numerics × ℕ))
      → 0 < total_weight rows
      → (v : Vector numerics) × (weighted_centroid numerics rows ≡ ok v)
  unfolding weighted_centroid
  weighted_centroid_succeeds [] p = absurd (omega arith)
  weighted_centroid_succeeds ((v, w) ∷ rest) p =
      let some_weight : (w + total_weight rest == 0) ≡ false = ground arith in
      (
        l2_normalize numerics (
            numerics.divide (weighted_sum numerics (numerics.zeros_like v) ((v, w) ∷ rest))
              (w + total_weight rest)),
        rw some_weight refl,
      )

  pyr_weight :
      (c : ExistingCluster (Vector numerics)) (v : Vector numerics) (rest : List (Vector numerics))
      → 0 < total_weight (pyr_rows numerics c (v ∷ rest))
  pyr_weight c v rest = elim (Option-cases c.pyr_centroid) [
    | inl e ↦ rw e (omega arith)
    | inr (w, e) ↦ rw e (omega arith)
  ]

  -- The method succeeds, and places the crop `n` times more.
  abbrev pub Places : ℕ → ℕ → Method numerics Unit → Build (Vector numerics) → Type 0
  Places crop n m b =
      (b' : Build (Vector numerics)) × (m b ≡ (ok tt, b'))
      × (placed_so_far crop b' ≡ placed_so_far crop b + n)

  module _ (crop : ℕ) (b : Build (Vector numerics)) where
    abbrev pub Fits : List (Member numerics) → Type 0
    Fits crops = placed_so_far crop b + occurrences crop (ids_of crops) ≤ 1

    abbrev pub PlacesAll : List (Member numerics) → Method numerics Unit → Type 0
    PlacesAll crops m = Places crop (occurrences crop (ids_of crops)) m b

    unassign-PlacesAll :
        (crops : List (Member numerics)) → Fits crops → PlacesAll crops (unassign numerics crops)
    unfolding unassign
    unassign-PlacesAll crops h =
        (_, refl, omega (arith, occurrences-update crop (ids_of crops) b.unassigned (omega arith)))

    module _ (new_cluster_id : ℕ → ℕ) (existing : Dict (ExistingCluster (Vector numerics)))
        (type : ClusteringTypeConfig) where
      pub handle_new_cluster-PlacesAll :
          (m : Member numerics) (rest : List (Member numerics))
          → Fits (m ∷ rest)
          → PlacesAll
              (m ∷ rest)
              (handle_new_cluster numerics new_cluster_id existing type (m ∷ rest))
      unfolding handle_new_cluster
      handle_new_cluster-PlacesAll m rest h = elim (Bool-cases type.creates_new_clusters) [
        | inl e ↦
            let (v, f) =
              weighted_centroid_succeeds (unweighted (vectors_of (m ∷ rest))) (omega arith) in
            rw e (rw f (_, refl, omega (arith, in_new-append crop b.result.new_clusters _)))
        | inr e ↦ rw e (unassign-PlacesAll (m ∷ rest) h)
      ]

      sweep-PlacesAll :
          (id : ℕ) (c : ExistingCluster (Vector numerics)) (m : Member numerics)
          (rest : List (Member numerics))
          → PlacesAll (m ∷ rest) (sweep numerics new_cluster_id existing type id c (m ∷ rest))
      unfolding sweep update_pyr_centroid
      sweep-PlacesAll id c m rest =
          let (v, f) =
            weighted_centroid_succeeds (pyr_rows numerics c (vectors_of (m ∷ rest)))
              (pyr_weight c m.vector (vectors_of rest)) in
          rw f (_, refl, omega (arith, in_expanded-append crop b.result.expanded_clusters _))

      expand-PlacesAll :
          (id : ℕ) (c : ExistingCluster (Vector numerics)) (crops group : List (Member numerics))
          → 0 < total_weight (weighted group)
          → PlacesAll crops (expand numerics new_cluster_id existing type id c crops group)
      unfolding expand
      expand-PlacesAll id c [] group p = (b, refl, omega arith)
      expand-PlacesAll id c (m ∷ rest) group p = elim (Bool-cases (str_eq type.name "sweeper")) [
        | inl e ↦ rw e (sweep-PlacesAll id c m rest)
        | inr e ↦
            let (v, f) = weighted_centroid_succeeds (weighted group) p in
            rw e
              (rw f (_, refl, omega (arith, in_expanded-append crop b.result.expanded_clusters _)))
      ]

      expand_entry-PlacesAll :
          (id : ℕ) (o : Option (ExistingCluster (Vector numerics)))
          (crops group : List (Member numerics))
          → Fits crops
          → 0 < total_weight (weighted group)
          → PlacesAll crops (expand_entry numerics new_cluster_id existing type id o crops group)
      unfolding expand_entry
      expand_entry-PlacesAll id none crops group h p = unassign-PlacesAll crops h
      expand_entry-PlacesAll id (some c) crops group h p = elim (Bool-cases type.expands_existing) [
        | inl f ↦ rw f (expand-PlacesAll id c crops group p)
        | inr f ↦ rw f (unassign-PlacesAll crops h)
      ]

      pub expand_found-PlacesAll :
          (o : Option ℕ) (crops group : List (Member numerics))
          → Fits crops
          → 0 < total_weight (weighted group)
          → PlacesAll crops (expand_found numerics new_cluster_id existing type o crops group)
      unfolding expand_found
      expand_found-PlacesAll none crops group h p = unassign-PlacesAll crops h
      expand_found-PlacesAll (some id) crops group h p =
          expand_entry-PlacesAll id (get id existing) crops group h p

      pub handle_merged_cluster-PlacesAll :
          (centroids crops group : List (Member numerics))
          → Fits crops
          → 0 < total_weight (weighted group)
          → 0 < length centroids
          → AllKnown existing centroids
          → IsFresh crop existing
          → PlacesAll crops
              (handle_merged_cluster numerics new_cluster_id existing type centroids crops group)
      unfolding handle_merged_cluster
      handle_merged_cluster-PlacesAll centroids crops group h p q known fresh =
          elim (Bool-cases type.allows_merge_clusters) [
            | inr e ↦ rw e (unassign-PlacesAll crops h)
            | inl e ↦
                let (cs, read, sized, n) = candidates_succeed existing centroids known in
                let (s, chosen, found) = survivor_succeeds existing cs sized (omega (arith, n)) in
                let ids = sorted (absorbed s cs) in
                let (held, gathered, none_held) = crops_succeed existing crop (s ∷ ids) fresh (
                  found,
                  sorted-AllFound existing (absorbed s cs) (absorbed-AllFound existing s cs sized),
                ) in
                let (v, f) = weighted_centroid_succeeds (weighted group) p in
                rw (e, read)
                  (rw chosen (
                    rw (gathered, f)
                      (
                        _,
                        refl,
                        omega (
                          arith,
                          in_merged-append crop b.result.merged_clusters _,
                          occurrences-append crop held (ids_of crops),
                        ),
                      )))
          ]
