-- ===== src/Clustering/Incremental/Keeps.antt =====
-- What every handler of the clusterer keeps, a pass keeps (ml/clustering/incremental_clusterer.py).
use event_vision_pipeline.Base.{
  ℕ, Option, List, [], ◌∷◌, ◌≡◌, refl, subst, sorted, distinct, inl, inr, ◌==◌, Bool-cases, length,
}
use event_vision_pipeline.Base.Effect.{Result, ok, err, after, same_answer}
use event_vision_pipeline.Clustering.{
  Numerics, ClusteringInput, ClusteringResult, ExistingCluster, Dict, ClusteringTypeConfig,
  ClusterError, empty_result, value_error, index_error,
}
use event_vision_pipeline.Clustering.Members.{
  Build, vectors_of, centroids_of, crops_of, group_of, labels_of, zip_or, index_labels, note_noise,
  agglo_labels_of, build_member_records,
}
use event_vision_pipeline.Clustering.Incremental.{
  Vector, Member, Method, handle_group, handle_groups, build_result, cluster_members, cluster,
  validate_vectors, perform_agglomerative, normalized_means,
}

module _ (numerics : Numerics) (P : ClusteringResult (Vector numerics) → Type 0)
    (unassigned : (r : ClusteringResult (Vector numerics)) (ids : List ℕ)
      → P r
      → P (record r { unassigned_crop_ids = ids }))
    (empty : P empty_result) (new_cluster_id : ℕ → ℕ) (type : ClusteringTypeConfig) where
  module _ (existing : Dict (ExistingCluster (Vector numerics)))
      (handle_group_keeps : (centroids crops group : List (Member numerics))
          (b : Build (Vector numerics))
        → P b.result
        → P
            (handle_group numerics new_cluster_id existing type centroids crops group
              b).1.result) where
    after_group :
        (x : Result ClusterError Unit) (b : Build (Vector numerics)) (m : Method numerics Unit)
        → P b.result
        → (P b.result → P (m b).1.result)
        → P (after (x, b) (λ _. m)).1.result
    after_group (ok u) b m s f = f s
    after_group (err e) b m s f = s

    handle_groups_keep :
        (rows : List (Member numerics × Option ℕ)) (labels : List ℕ) (b : Build (Vector numerics))
        → P b.result
        → P (handle_groups numerics new_cluster_id existing type rows labels b).1.result
    unfolding handle_groups
    handle_groups_keep rows [] b s = s
    handle_groups_keep rows (l ∷ rest) b s =
        let group = group_of l rows in
        let handled =
          handle_group numerics new_cluster_id existing type (centroids_of group) (crops_of group)
            group b in
        after_group handled.0 handled.1
          (handle_groups numerics new_cluster_id existing type rows rest)
          (handle_group_keeps (centroids_of group) (crops_of group) group b s)
          (handle_groups_keep rows rest handled.1)

    abbrev initial : Build (Vector numerics)
    initial = record { result = empty_result; unassigned = [] }

    -- A step that only reads passes on what the rest shows.
    after_read :
        {A : Type 0} (x : Result ClusterError A) (b : Build (Vector numerics))
        (k : A → Method numerics (ClusteringResult (Vector numerics)))
        (res : ClusteringResult (Vector numerics))
        → ((a : A) → (k a b).0 ≡ ok res → P res)
        → (after (x, b) k).0 ≡ ok res
        → P res
    after_read (ok a) b k res f e = f a e
    after_read (err x) b k res f e = cc

    after_groups :
        (x : Result ClusterError Unit) (b : Build (Vector numerics))
        (finish : Build (Vector numerics) → ClusteringResult (Vector numerics))
        (res : ClusteringResult (Vector numerics))
        → P (finish b)
        → (after {E = ClusterError} (x, b) (λ _ c. (ok (finish c), c))).0 ≡ ok res
        → P res
    after_groups (ok u) b finish res s e = let same : finish b ≡ res = cc in subst P same s
    after_groups (err x) b finish res s e = cc

    build_result_keeps :
        (ms : List (Member numerics)) (labels merged : List (Option ℕ))
        (res : ClusteringResult (Vector numerics))
        → (build_result numerics new_cluster_id existing type ms labels merged initial).0 ≡ ok res
        → P res
    unfolding build_result
    build_result_keeps ms labels merged res =
        after_read (zip_or value_error ms labels) initial _ res (λ noise.
          let noted : Build (Vector numerics) = record {
            result = empty_result;
            unassigned = note_noise noise [];
          } in
          after_read (zip_or value_error ms merged) noted _ res (λ rows.
            let handled =
              handle_groups numerics new_cluster_id existing type rows
                (sorted (distinct (labels_of merged))) noted in
            after_groups handled.0 handled.1
              (λ b. record b.result { unassigned_crop_ids = sorted b.unassigned }) res
              (unassigned handled.1.result (sorted handled.1.unassigned)
                (handle_groups_keep rows (sorted (distinct (labels_of merged))) noted empty))))

    cluster_members_keep :
        (ms : List (Member numerics)) (res : ClusteringResult (Vector numerics))
        → (cluster_members numerics new_cluster_id existing type ms initial).0 ≡ ok res
        → P res
    unfolding cluster_members
    cluster_members_keep ms res =
        let labels = numerics.dbscan (vectors_of ms) in
        after_read (validate_vectors numerics (vectors_of ms)) initial _ res (λ u.
          after_read (zip_or index_error (vectors_of ms) labels) initial _ res (λ labelled.
            after_read
              (perform_agglomerative numerics
                (normalized_means numerics labelled (sorted (distinct (labels_of labels)))))
              initial _ res
              (λ agglo.
                after_read (index_labels (sorted (distinct (labels_of labels))) agglo) initial _ res
                  (λ dict. build_result_keeps ms labels (agglo_labels_of dict labels) res))))

  pub cluster_keeps :
      (input : ClusteringInput (Vector numerics)) (res : ClusteringResult (Vector numerics))
      → ((centroids crops group : List (Member numerics)) (b : Build (Vector numerics))
          → P b.result
          → P
              (handle_group numerics new_cluster_id input.existing_clusters type centroids crops
                group b).1.result)
      → cluster numerics new_cluster_id (record input { clustering_type = type }) ≡ ok res
      → P res
  unfolding cluster
  cluster_keeps input res keeps e = elim (Bool-cases (length input.new_embeddings == 0)) [
    | inl h ↦
        let same : empty_result ≡ res =
          same_answer (cluster numerics new_cluster_id (record input { clustering_type = type }))
            empty_result res (rw h refl) e in
        subst P same empty
    | inr h ↦
        cluster_members_keep input.existing_clusters keeps
          (build_member_records input.new_embeddings input.existing_clusters) res (rw h at e)
  ]

-- A method that goes on after a value that may be missing.
module _ {V A : Type 0} (P : Build V → Type 0) where
  pub after_lift :
      (x : Result ClusterError A) (k : A → Build V → Result ClusterError Unit × Build V)
      (b : Build V)
      → P b
      → ((a : A) → P (k a b).1)
      → P (after (x, b) k).1
  after_lift (ok a) k b p f = f a
  after_lift (err e) k b p f = p
