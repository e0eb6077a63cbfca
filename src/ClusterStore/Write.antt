-- ===== src/ClusterStore/Write.antt =====
-- The writes of ml/clustering/cluster_persistence.py that compute with vectors: merged clusters, and the
-- centroids of the secondary embeddings; and `write_result`.
use event_vision_pipeline.Base.{
  ℕ, ◌+◌, Bool, true, false, ◌&&◌, Option, none, some, List, [], ◌∷◌, ◌++◌, ◌==◌, if◌then◌else◌,
  distinct,
}
use event_vision_pipeline.Clustering.{
  Numerics, NewCluster, ExpandedCluster, MergedCluster, ClusteringResult,
}
use event_vision_pipeline.ClusterStore.{
  FaceRow, ClusterRow, Store, among, in_clusters, assign, reassign, delete_clusters, update_cluster,
  insert_new_clusters, apply_expanded_clusters,
}

module _ (numerics : Numerics) where
  open numerics use {Vector}

  -- The weighted sum of the PYR centroids of some clusters, in the order of the rows, and their sizes.
  abbrev pub add_pyr : Option Vector → ℕ → Option Vector × ℕ → Option Vector × ℕ
  add_pyr none size sum = sum
  add_pyr (some v) size (none, total) =
      if size == 0
      then (none, total)
      else (some (numerics.add_weighted (numerics.zeros_like v) v size), total + size)
  add_pyr (some v) size (some sum, total) =
      if size == 0
      then (some sum, total)
      else (some (numerics.add_weighted sum v size), total + size)

  unfoldable pub pyr_sum : List ℕ → List (ClusterRow Vector) → Option Vector × ℕ → Option Vector × ℕ
  pyr_sum ids [] sum = sum
  pyr_sum ids (c ∷ rest) sum =
      pyr_sum ids rest (if among c.id ids then add_pyr c.pyr_centroid c.pyr_size sum else sum)

  abbrev pub pyr_mean : Option Vector × ℕ → Option Vector × ℕ
  pyr_mean (none, total) = (none, 0)
  pyr_mean (some sum, total) =
      let centroid = numerics.divide sum total in
      if total == 0
      then (none, 0)
      else if numerics.norm_is_zero centroid
      then (none, 0)
      else (some (numerics.divide_by_norm centroid), total)

  unfoldable pub merged_pyr_state : ℕ → List ℕ → List (ClusterRow Vector) → Option Vector × ℕ
  unfolding pyr_sum
  merged_pyr_state survivor absorbed clusters =
      pyr_mean (pyr_sum (survivor ∷ absorbed) clusters (none, 0))

  abbrev pub is_empty : List ℕ → Bool
  is_empty [] = true
  is_empty (x ∷ xs) = false

  -- One round of `apply_merged_clusters`: the members of absorbed clusters move before these are deleted.
  unfoldable pub apply_merged_cluster : ℕ → MergedCluster Vector → Store Vector → Store Vector
  unfolding reassign delete_clusters assign merged_pyr_state
  apply_merged_cluster event_id merged s =
      let survivor = merged.surviving_cluster_id in
      let absorbed = merged.absorbed_cluster_ids in
      let pyr = merged_pyr_state survivor absorbed s.clusters in
      let moved : Store Vector = record s { faces = reassign event_id absorbed survivor s.faces } in
      let left = if is_empty absorbed then s else delete_clusters event_id absorbed moved in
      record {
        faces = assign event_id merged.all_crop_ids survivor left.faces;
        clusters =
            update_cluster event_id survivor
              (λ c. record c {
                centroid = merged.new_centroid;
                cluster_size = merged.new_size;
                pyr_centroid = if is_empty absorbed then c.pyr_centroid else pyr.0;
                pyr_size = if is_empty absorbed then c.pyr_size else pyr.1;
              })
              left.clusters;
      }

  unfoldable pub apply_merged_clusters :
      ℕ → List (MergedCluster Vector) → Store Vector → Store Vector
  unfolding apply_merged_cluster
  apply_merged_clusters event_id [] s = s
  apply_merged_clusters event_id (m ∷ rest) s =
      apply_merged_clusters event_id rest (apply_merged_cluster event_id m s)

  abbrev pub new_ids : List (NewCluster Vector) → List ℕ
  new_ids [] = []
  new_ids (c ∷ rest) = c.cluster_id ∷ new_ids rest

  abbrev pub expanded_ids : List (ExpandedCluster Vector) → List ℕ
  expanded_ids [] = []
  expanded_ids (c ∷ rest) = c.cluster_id ∷ expanded_ids rest

  abbrev pub surviving_ids : List (MergedCluster Vector) → List ℕ
  surviving_ids [] = []
  surviving_ids (c ∷ rest) = c.surviving_cluster_id ∷ surviving_ids rest

  -- vector_utils.py
  unfoldable pub affected_cluster_ids : ClusteringResult Vector → List ℕ
  affected_cluster_ids result = distinct (
      new_ids result.new_clusters
      ++ (expanded_ids result.expanded_clusters ++ surviving_ids result.merged_clusters))

  abbrev pub mean_l2_normalized : List Vector → Option Vector
  mean_l2_normalized [] = none
  mean_l2_normalized (v ∷ vs) =
      let mean = numerics.mean (v ∷ vs) in
      if numerics.norm_is_zero mean then none else some (numerics.divide_by_norm mean)

  abbrev pub cons_some : Option Vector → List Vector → List Vector
  cons_some none vs = vs
  cons_some (some v) vs = v ∷ vs

  -- The secondary vectors of the members of one cluster.
  abbrev pub secondaries : ℕ → ℕ → List (FaceRow Vector) → List Vector
  secondaries event_id cluster_id [] = []
  secondaries event_id cluster_id (f ∷ rest) =
      let later = secondaries event_id cluster_id rest in
      if f.event_id == event_id && in_clusters f.cluster_id (cluster_id ∷ [])
      then cons_some f.secondary_embedding later
      else later

  abbrev pub refresh_each :
      ℕ → List ℕ → List (FaceRow Vector) → List (ClusterRow Vector) → List (ClusterRow Vector)
  refresh_each event_id [] faces clusters = clusters
  refresh_each event_id (id ∷ rest) faces clusters = refresh_each event_id rest faces (
      update_cluster event_id id
        (λ c. record c { secondary_centroid = mean_l2_normalized (secondaries event_id id faces) })
        clusters)

  unfoldable pub refresh_secondary_centroids :
      ℕ → ClusteringResult Vector → Store Vector → Store Vector
  unfolding affected_cluster_ids
  refresh_secondary_centroids event_id result s = record s {
    clusters = refresh_each event_id (affected_cluster_ids result) s.faces s.clusters;
  }

  unfoldable pub write_result : ℕ → ClusteringResult Vector → Store Vector → Store Vector
  unfolding insert_new_clusters apply_expanded_clusters apply_merged_clusters
      refresh_secondary_centroids
  write_result event_id result s = refresh_secondary_centroids event_id result (
      apply_merged_clusters event_id result.merged_clusters (
        apply_expanded_clusters event_id result.expanded_clusters
          (insert_new_clusters event_id result.new_clusters s)))
