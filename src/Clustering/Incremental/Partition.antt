-- ===== src/Clustering/Incremental/Partition.antt =====
-- `cluster` of ml/clustering/incremental_clusterer.py, and where a new crop is in its result.
use event_vision_pipeline.Base.{
  ℕ, ◌≤◌, ◌<◌, false, Option, List, [], ◌∷◌, ◌++◌, ◌≡◌, refl, ◌∙◌, sym, inl, inr, arith, ◌==◌,
  Bool-cases, occurrences, occurrences-sorted, sorted, distinct, length,
}
use event_vision_pipeline.Base.Effect.{ok}
use event_vision_pipeline.Clustering.{
  Numerics, ClusteringTypeConfig, ClusteringInput, ClusteringResult, ExistingCluster, Dict,
  empty_result,
}
use event_vision_pipeline.Clustering.Members.{
  MemberRecord, Build, embedding_dim, vectors_of, labels_of, agglo_labels_of, note_noise,
  centroid_records, crop_records, build_member_records,
}
use event_vision_pipeline.Clustering.Incremental.{
  Vector, Member, validate_vectors, build_result, cluster_members, cluster,
}
use event_vision_pipeline.Clustering.Known.{IsFresh, IsFound}
use event_vision_pipeline.Clustering.Incremental.Placed.{placed}
use event_vision_pipeline.Clustering.Incremental.Groups.{
  hits, AllSound, in_groups-labelled, handle_groups-Places,
}
use event_vision_pipeline.Clustering.Incremental.Labels.{
  zip, zip_or-zip, Indexes, index_labels_succeeds, sorted_set_once, all-Indexes, zip-Covers,
  zip-RowsSound, length-agglo_labels_of, occurrences-note_noise, noise_or_labelled, Merges,
  agglomerative_succeeds,
}

abbrev pub keys : {A : Type 0} → Dict A → List ℕ
keys [] = []
keys ((k, x) ∷ rest) = k ∷ keys rest

module _ {V : Type 0} where
  length-vectors_of : (ms : List (MemberRecord V)) → length (vectors_of ms) ≡ length ms
  length-vectors_of [] = refl
  length-vectors_of (m ∷ rest) = omega (arith, length-vectors_of rest)

  -- A cluster of the dict is found by its key.
  has-IsFound : (k : ℕ) (d : Dict (ExistingCluster V)) → 0 < occurrences k (keys d) → IsFound d k
  has-IsFound k [] p = absurd (omega arith)
  has-IsFound k ((j, c) ∷ rest) p = elim (Bool-cases (k == j)) [
    | inl e ↦ rw e (c, refl)
    | inr e ↦ rw e (has-IsFound k rest (ground arith))
  ]

  crop_records-AllSound :
      (existing : Dict (ExistingCluster V)) (new : Dict V) → AllSound existing (crop_records new)
  crop_records-AllSound existing [] = tt
  crop_records-AllSound existing ((k, v) ∷ rest) =
      ((omega arith, λ e. cc), crop_records-AllSound existing rest)

  members-AllSound :
      (existing d : Dict (ExistingCluster V)) (new : Dict V)
      → ((k : ℕ) → 0 < occurrences k (keys d) → IsFound existing k)
      → AllSound existing (centroid_records d ++ crop_records new)
  members-AllSound existing [] new f = crop_records-AllSound existing new
  members-AllSound existing ((k, c) ∷ rest) new f = (
    (omega arith, λ e. (k, refl, f k (ground arith))),
    members-AllSound existing rest new (λ j p. f j (ground arith)),
  )

  hits-crop_records :
      (crop : ℕ) (new : Dict V) → hits crop (crop_records new) ≡ occurrences crop (keys new)
  hits-crop_records crop [] = refl
  hits-crop_records crop ((k, v) ∷ rest) = ground (arith, hits-crop_records crop rest)

  hits-members :
      (crop : ℕ) (d : Dict (ExistingCluster V)) (new : Dict V)
      → hits crop (centroid_records d ++ crop_records new) ≡ occurrences crop (keys new)
  hits-members crop [] new = hits-crop_records crop new
  hits-members crop ((k, c) ∷ rest) new = hits-members crop rest new

has_some : {A : Type 0} (k : ℕ) (d : Dict A) → 0 < occurrences k (keys d) → (length d == 0) ≡ false
has_some k [] p = absurd (omega arith)
has_some k (e ∷ rest) p = ground arith

module _ (numerics : Numerics) where
  -- The vectors have the dimension of the face model.
  abbrev pub NewFit : Dict (Vector numerics) → Type 0
  NewFit [] = Unit
  NewFit ((k, v) ∷ rest) = (numerics.dimension v ≡ embedding_dim) × NewFit rest

  abbrev pub CentroidsFit : Dict (ExistingCluster (Vector numerics)) → Type 0
  CentroidsFit [] = Unit
  CentroidsFit ((k, c) ∷ rest) = (numerics.dimension c.centroid ≡ embedding_dim) × CentroidsFit rest

  validate_crops :
      (new : Dict (Vector numerics))
      → NewFit new
      → validate_vectors numerics (vectors_of (crop_records new)) ≡ ok tt
  unfolding validate_vectors
  validate_crops [] f = refl
  validate_crops ((k, v) ∷ rest) f = rw f.0 (validate_crops rest f.1)

  validate_members :
      (d : Dict (ExistingCluster (Vector numerics))) (new : Dict (Vector numerics))
      → CentroidsFit d
      → NewFit new
      → validate_vectors numerics (vectors_of (centroid_records d ++ crop_records new)) ≡ ok tt
  unfolding validate_vectors
  validate_members [] new c f = validate_crops new f
  validate_members ((k, x) ∷ rest) new c f = rw c.0 (validate_members rest new c.1 f)

  module _ (crop : ℕ) (new_cluster_id : ℕ → ℕ) (existing : Dict (ExistingCluster (Vector numerics)))
      (type : ClusteringTypeConfig) where
    abbrev initial : Build (Vector numerics)
    initial = record { result = empty_result; unassigned = [] }

    build_result_places :
        (ms : List (Member numerics)) (labels : List (Option ℕ)) (dict : Dict ℕ)
        → length ms ≡ length labels
        → Indexes dict labels
        → AllSound existing ms
        → IsFresh crop existing
        → hits crop ms ≤ 1
        → (res : ClusteringResult (Vector numerics)) × (b : Build (Vector numerics)) × (build_result
              numerics new_cluster_id existing type ms labels
              (agglo_labels_of dict labels)
              initial
            ≡ (ok res, b))
          × (placed crop res ≡ hits crop ms)
    unfolding build_result
    build_result_places ms labels dict n i s fresh h =
        let merged = agglo_labels_of dict labels in
        let set = sorted (distinct (labels_of merged)) in
        let rows = zip ms merged in
        let noted : Build (Vector numerics) = record {
          result = empty_result;
          unassigned = note_noise (zip ms labels) [];
        } in
        let all = noise_or_labelled crop dict ms labels n i in
        let grouped =
          in_groups-labelled crop set rows
            (zip-Covers set ms merged (λ l p. sorted_set_once l (labels_of merged) p)) in
        let (b, e, k) =
          handle_groups-Places numerics crop new_cluster_id existing type rows set noted
            (omega (arith, all, grouped, occurrences-note_noise crop (zip ms labels) []))
            (zip-RowsSound existing ms merged s) fresh in
        (
          record b.result { unassigned_crop_ids = sorted b.unassigned },
          b,
          rw
              (
                zip_or-zip _ ms labels n,
                zip_or-zip _ ms merged (n ∙ sym (length-agglo_labels_of dict labels)),
                e,
              )
              refl,
          omega (
            arith,
            k,
            all,
            grouped,
            occurrences-note_noise crop (zip ms labels) [],
            occurrences-sorted crop b.unassigned,
          ),
        )

    cluster_members_places :
        Merges numerics
        → (ms : List (Member numerics)) → validate_vectors numerics (vectors_of ms) ≡ ok tt
        → AllSound existing ms
        → IsFresh crop existing
        → hits crop ms ≤ 1
        → (res : ClusteringResult (Vector numerics)) × ((cluster_members numerics new_cluster_id
              existing type ms initial).0
            ≡ ok res)
          × (placed crop res ≡ hits crop ms)
    unfolding cluster_members
    cluster_members_places merges ms valid s fresh h =
        let labels = numerics.dbscan (vectors_of ms) in
        let rows = zip (vectors_of ms) labels in
        let groups = sorted (distinct (labels_of labels)) in
        let (agglo, fits, same_length) = agglomerative_succeeds numerics rows groups merges in
        let (dict, indexed, found) = index_labels_succeeds groups agglo same_length in
        let (res, b, e, n) =
          build_result_places ms labels dict
            (sym (numerics.dbscan_length (vectors_of ms) ∙ length-vectors_of ms))
            (all-Indexes dict labels
              (λ l p. found l (omega (arith, sorted_set_once l (labels_of labels) p))))
            s fresh h in
        (
          res,
          rw
              (
                valid,
                zip_or-zip _ (vectors_of ms) labels (sym (numerics.dbscan_length (vectors_of ms))),
                fits,
                indexed,
                e,
              )
              refl,
          n,
        )

  -- Let all vectors have the dimension of the face model, let a crop be once among the new ones, and
  -- let no existing cluster hold it. Then a pass over the crops succeeds where the merging of
  -- scikit-learn does not raise, whatever labels it gives and whatever the kind of the pass, and the crop
  -- is once in its result: in one new, expanded or merged cluster, or among the unassigned crops.
  pub cluster_places_once :
      (crop : ℕ) (new_cluster_id : ℕ → ℕ) (input : ClusteringInput (Vector numerics))
      → Merges numerics
      → NewFit input.new_embeddings
      → CentroidsFit input.existing_clusters
      → occurrences crop (keys input.new_embeddings) ≡ 1
      → IsFresh crop input.existing_clusters
      → (res : ClusteringResult (Vector numerics)) × (cluster numerics new_cluster_id input
          ≡ ok res)
        × (placed crop res ≡ 1)
  unfolding cluster
  cluster_places_once crop new_cluster_id input merges f c once fresh =
      let ms = build_member_records input.new_embeddings input.existing_clusters in
      let hit = hits-members crop input.existing_clusters input.new_embeddings in
      let (res, e, n) =
        cluster_members_places crop new_cluster_id input.existing_clusters input.clustering_type
          merges ms (validate_members input.existing_clusters input.new_embeddings c f)
          (members-AllSound input.existing_clusters input.existing_clusters input.new_embeddings
            (λ k p. has-IsFound k input.existing_clusters p))
          fresh (omega (arith, hit)) in
      let some_new : (length input.new_embeddings == 0) ≡ false =
        has_some crop input.new_embeddings (omega arith) in
      (res, rw some_new e, omega (arith, n, hit))
