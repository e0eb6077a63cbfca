-- ===== src/Clustering/Incremental.antt =====
-- ml/clustering/incremental_clusterer.py: new face crops are grouped with each other and with the
-- centroids of the clusters that exist. Log lines are left out. The proofs are in the modules below.
pub mod Placed
pub mod Groups
pub mod Labels
pub mod Partition
pub mod Survivor
pub mod Keeps
pub mod Apart
pub mod Sweeper
pub mod Examples
use event_vision_pipeline.Base.{
  ℕ, suc, ◌+◌, String, Bool, true, false, not, ◌&&◌, Option, none, some, List, [], ◌∷◌, ◌++◌, map,
  max, min, length, leb, ltb, ◌==◌, str_eq, if◌then◌else◌, distinct, sorted, update,
}
use event_vision_pipeline.Base.Effect.{
  Result, ok, err, Effect, pure, raise, gets, modify, after, ◌>>=◌, ◌>>◌,
}
use event_vision_pipeline.Clustering.{
  Numerics, ClusteringTypeConfig, ExistingCluster, Dict, get, ClusteringInput, NewCluster,
  ExpandedCluster, MergedCluster, ClusteringResult, empty_result, ClusterError, value_error,
  key_error, index_error,
}
use event_vision_pipeline.Clustering.Members.{
  MemberRecord, Build, embedding_dim, group_of, centroids_of, crops_of, ids_of, vectors_of,
  weighted, unweighted, labels_of, zip_or, index_labels, agglo_labels_of, group_vectors, note_noise,
  total_weight, candidates_of, survivor, absorbed, sum_sizes, crops_of_clusters,
  build_member_records,
}

abbrev lift : {S A : Type 0} → Result ClusterError A → Effect S ClusterError A
lift x s = (x, s)

module _ (numerics : Numerics) where
  abbrev pub Vector : Type 0
  Vector = numerics.Vector

  abbrev pub Member : Type 0
  Member = MemberRecord numerics.Vector

  abbrev pub l2_normalize : Vector → Vector
  l2_normalize v = if numerics.norm_is_zero v then v else numerics.divide_by_norm v

  abbrev weighted_sum : Vector → List (Vector × ℕ) → Vector
  weighted_sum sum [] = sum
  weighted_sum sum ((v, w) ∷ rest) = weighted_sum (numerics.add_weighted sum v w) rest

  pub weighted_centroid : List (Vector × ℕ) → Result ClusterError Vector
  weighted_centroid [] = err value_error
  weighted_centroid ((v, w) ∷ rest) =
      let total = w + total_weight rest in
      if total == 0
      then err value_error
      else ok (
          l2_normalize
            (numerics.divide (weighted_sum (numerics.zeros_like v) ((v, w) ∷ rest)) total))

  -- The centroid's vector before the new ones, with its size, or at least 1.
  abbrev pyr_rows : ExistingCluster Vector → List Vector → List (Vector × ℕ)
  pyr_rows existing new = elim existing.pyr_centroid [
    | none ↦ unweighted new
    | some c ↦ (c, max existing.pyr_size 1) ∷ unweighted new
  ]

  abbrev pyr_size_after : ExistingCluster Vector → List Vector → ℕ
  pyr_size_after existing new = elim existing.pyr_centroid [
    | none ↦ length new
    | some c ↦ max existing.pyr_size 1 + length new
  ]

  -- `_update_pyr_centroid`
  pub update_pyr_centroid : ExistingCluster Vector → List Vector → Result ClusterError Vector × ℕ
  unfolding weighted_centroid
  update_pyr_centroid existing new =
      (weighted_centroid (pyr_rows existing new), pyr_size_after existing new)

  pub validate_vectors : List Vector → Result ClusterError Unit
  validate_vectors [] = ok tt
  validate_vectors (v ∷ rest) =
      let others = validate_vectors rest in
      if numerics.dimension v == embedding_dim then others else err value_error

  abbrev normalized_means : List (Vector × Option ℕ) → List ℕ → List Vector
  normalized_means rows [] = []
  normalized_means rows (label ∷ rest) =
      l2_normalize (numerics.mean (group_vectors label rows)) ∷ normalized_means rows rest

  -- `_perform_agglomerative`
  abbrev fitted : Option (List ℕ) → Result ClusterError (List ℕ)
  fitted none = err value_error
  fitted (some labels) = ok labels

  pub perform_agglomerative : List Vector → Result ClusterError (List ℕ)
  perform_agglomerative [] = ok []
  perform_agglomerative (v ∷ []) = ok (0 ∷ [])
  perform_agglomerative vectors = fitted (numerics.agglomerative vectors)

  -- The handlers change the result and the set of unassigned crops.
  abbrev pub Method : Type 0 → Type 0
  Method A = Effect (Build Vector) ClusterError A

  pub unassign : List Member → Method Unit
  unassign crops = modify (λ b. record b { unassigned = update (ids_of crops) b.unassigned })

  module _ (new_cluster_id : ℕ → ℕ) (existing_clusters : Dict (ExistingCluster Vector))
      (clustering_type : ClusteringTypeConfig) where
    -- `new_cluster_id n` is the identifier that is drawn for the n-th new cluster.
    pub handle_new_cluster : List Member → Method Unit
    unfolding unassign weighted_centroid
    handle_new_cluster crops =
        if not clustering_type.creates_new_clusters then unassign crops else do
          centroid ← lift (weighted_centroid (unweighted (vectors_of crops)))
          modify (λ b. record b {
            result = record b.result {
              new_clusters =
                  b.result.new_clusters
                  ++ record {
                    cluster_id = new_cluster_id (length b.result.new_clusters);
                    centroid = centroid;
                    crop_ids = ids_of crops;
                    size = length (ids_of crops);
                  }
                    ∷ [];
            };
          })

    abbrev add_expanded : ExpandedCluster Vector → Method Unit
    add_expanded e = modify (λ b. record b {
      result = record b.result { expanded_clusters = b.result.expanded_clusters ++ e ∷ [] };
    })

    -- The sweeper moves the high-angle centroid only.
    pub sweep : ℕ → ExistingCluster Vector → List Member → Method Unit
    unfolding update_pyr_centroid
    sweep id existing crops = do
      let (centroid, size) = update_pyr_centroid existing (vectors_of crops)
      new_pyr_centroid ← lift centroid
      add_expanded (record {
        cluster_id = id;
        new_crop_ids = ids_of crops;
        new_centroid = none;
        new_size = none;
        new_pyr_centroid = some new_pyr_centroid;
        new_pyr_size = some size;
      })

    pub expand : ℕ → ExistingCluster Vector → List Member → List Member → Method Unit
    unfolding weighted_centroid sweep
    expand id existing [] group = pure tt
    expand id existing crops group =
        if str_eq clustering_type.name "sweeper" then sweep id existing crops else do
          new_centroid ← lift (weighted_centroid (weighted group))
          add_expanded (record {
            cluster_id = id;
            new_crop_ids = ids_of crops;
            new_centroid = some new_centroid;
            new_size = some (existing.size + length (ids_of crops));
            new_pyr_centroid = none;
            new_pyr_size = none;
          })

    pub expand_entry : ℕ → Option (ExistingCluster Vector) → List Member → List Member → Method Unit
    unfolding unassign expand
    expand_entry id none crops group = unassign crops
    expand_entry id (some existing) crops group =
        if not clustering_type.expands_existing
        then unassign crops
        else expand id existing crops group

    pub expand_found : Option ℕ → List Member → List Member → Method Unit
    unfolding unassign expand_entry
    expand_found none crops group = unassign crops
    expand_found (some id) crops group = expand_entry id (get id existing_clusters) crops group

    pub handle_expanded_cluster : Member → List Member → List Member → Method Unit
    unfolding expand_found
    handle_expanded_cluster centroid crops group = expand_found centroid.cluster_id crops group

    -- The candidates are the clusters of the centroids, which the code reads again for the sizes.
    pub handle_merged_cluster : List Member → List Member → List Member → Method Unit
    unfolding unassign weighted_centroid
    handle_merged_cluster centroids crops group =
        if not clustering_type.allows_merge_clusters then unassign crops else do
          candidates ← lift (candidates_of existing_clusters centroids)
          surviving_id ← lift (survivor candidates)
          let absorbed_ids = sorted (absorbed surviving_id candidates)
          cluster_crops ← lift (crops_of_clusters existing_clusters (surviving_id ∷ absorbed_ids))
          centroid ← lift (weighted_centroid (weighted group))
          modify (λ b. record b {
            result = record b.result {
              merged_clusters =
                  b.result.merged_clusters
                  ++ record {
                    surviving_cluster_id = surviving_id;
                    absorbed_cluster_ids = absorbed_ids;
                    new_centroid = centroid;
                    all_crop_ids = cluster_crops ++ ids_of crops;
                    new_size = sum_sizes candidates + length (ids_of crops);
                  }
                    ∷ [];
            };
          })

    -- One agglomerative group.
    pub handle_group : List Member → List Member → List Member → Method Unit
    unfolding handle_new_cluster handle_expanded_cluster handle_merged_cluster
    handle_group [] [] group = pure tt
    handle_group (c ∷ []) [] group = pure tt
    handle_group [] crops group = handle_new_cluster crops
    handle_group (c ∷ []) crops group = handle_expanded_cluster c crops group
    handle_group centroids crops group = handle_merged_cluster centroids crops group

    pub handle_groups : List (Member × Option ℕ) → List ℕ → Method Unit
    unfolding handle_group
    handle_groups rows [] = pure tt
    handle_groups rows (label ∷ rest) = do
      let group = group_of label rows
      handle_group (centroids_of group) (crops_of group) group
      handle_groups rows rest

    pub build_result :
        List Member → List (Option ℕ) → List (Option ℕ) → Method (ClusteringResult Vector)
    unfolding handle_groups
    build_result members dbscan_labels member_agglo_labels = do
      noise ← lift (zip_or value_error members dbscan_labels)
      modify (λ b. record b { unassigned = note_noise noise b.unassigned })
      rows ← lift (zip_or value_error members member_agglo_labels)
      handle_groups rows (sorted (distinct (labels_of member_agglo_labels)))
      gets (λ b. record b.result { unassigned_crop_ids = sorted b.unassigned })

  -- The steps of `cluster` on the rows of the matrix.
  pub cluster_members :
      (ℕ → ℕ)
      → Dict (ExistingCluster Vector)
      → ClusteringTypeConfig
      → List Member
      → Method (ClusteringResult Vector)
  unfolding validate_vectors perform_agglomerative build_result
  cluster_members new_cluster_id existing clustering_type members = do
    lift (validate_vectors (vectors_of members))
    let dbscan_labels = numerics.dbscan (vectors_of members)
    labelled ← lift (zip_or index_error (vectors_of members) dbscan_labels)
    let group_labels = sorted (distinct (labels_of dbscan_labels))
    agglo_labels ← lift (perform_agglomerative (normalized_means labelled group_labels))
    dbscan_to_agglo ← lift (index_labels group_labels agglo_labels)
    build_result new_cluster_id existing clustering_type members dbscan_labels
        (agglo_labels_of dbscan_to_agglo dbscan_labels)

  unfoldable pub cluster :
      (ℕ → ℕ) → ClusteringInput Vector → Result ClusterError (ClusteringResult Vector)
  unfolding cluster_members
  cluster new_cluster_id input =
      if length input.new_embeddings == 0
      then ok empty_result
      else (cluster_members new_cluster_id input.existing_clusters input.clustering_type
          (build_member_records input.new_embeddings input.existing_clusters)
          (record { result = empty_result; unassigned = [] })).0
