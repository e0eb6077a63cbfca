-- ===== src/Clustering/Members.antt =====
-- ml/clustering/incremental_clusterer.py: the rows of the matrix of vectors, and what the methods of
-- IncrementalClusterer read off lists of them.
use event_vision_pipeline.Base.{
  ℕ, ◌+◌, Bool, true, false, Option, none, some, List, [], ◌∷◌, ◌++◌, max, min, ◌==◌, if◌then◌else◌,
  add,
}
use event_vision_pipeline.Base.Effect.{Result, ok, err}
use event_vision_pipeline.Clustering.{
  ExistingCluster, Dict, get, ClusteringResult, ClusterError, value_error, key_error, index_error,
}

abbrev pub embedding_dim : ℕ
embedding_dim = 512

-- `embedding_id` of a centroid, which nothing reads, is the cluster's number without its prefix.
pub record MemberRecord (Vector : Type 0) : Type 0 where
  pub embedding_id : ℕ
  pub vector : Vector
  pub is_centroid : Bool
  pub cluster_id : Option ℕ
  pub weight : ℕ

-- The result that is built up, and the set of crops that stay unassigned.
pub record Build (Vector : Type 0) : Type 0 where
  pub result : ClusteringResult Vector
  pub unassigned : List ℕ

abbrev pub group_of :
    {Vector : Type 0} → ℕ → List (MemberRecord Vector × Option ℕ) → List (MemberRecord Vector)
group_of label [] = []
group_of label ((m, none) ∷ rest) = group_of label rest
group_of label ((m, some l) ∷ rest) =
    let others = group_of label rest in if l == label then m ∷ others else others

abbrev pub centroids_of :
    {Vector : Type 0} → List (MemberRecord Vector) → List (MemberRecord Vector)
centroids_of [] = []
centroids_of (m ∷ rest) =
    let others = centroids_of rest in if m.is_centroid then m ∷ others else others

abbrev pub crops_of : {Vector : Type 0} → List (MemberRecord Vector) → List (MemberRecord Vector)
crops_of [] = []
crops_of (m ∷ rest) = let others = crops_of rest in if m.is_centroid then others else m ∷ others

abbrev pub ids_of : {Vector : Type 0} → List (MemberRecord Vector) → List ℕ
ids_of [] = []
ids_of (m ∷ rest) = m.embedding_id ∷ ids_of rest

abbrev pub vectors_of : {Vector : Type 0} → List (MemberRecord Vector) → List Vector
vectors_of [] = []
vectors_of (m ∷ rest) = m.vector ∷ vectors_of rest

-- zip(vectors, weights), with the members' weights, and with the weight 1
abbrev pub weighted : {Vector : Type 0} → List (MemberRecord Vector) → List (Vector × ℕ)
weighted [] = []
weighted (m ∷ rest) = (m.vector, m.weight) ∷ weighted rest

abbrev pub unweighted : {Vector : Type 0} → List Vector → List (Vector × ℕ)
unweighted [] = []
unweighted (v ∷ rest) = (v, 1) ∷ unweighted rest

-- The labels that are no -1.
abbrev pub labels_of : List (Option ℕ) → List ℕ
labels_of [] = []
labels_of (none ∷ rest) = labels_of rest
labels_of (some l ∷ rest) = l ∷ labels_of rest

abbrev put_first : {A E : Type 0} → A → Result E (List A) → Result E (List A)
put_first a (ok rest) = ok (a ∷ rest)
put_first a (err e) = err e

-- zip(..., strict=True), and a mask of another length, with the error that each raises
abbrev pub zip_or :
    {A B : Type 0} → ClusterError → List A → List B → Result ClusterError (List (A × B))
zip_or e [] [] = ok []
zip_or e (x ∷ xs) (y ∷ ys) = put_first (x, y) (zip_or e xs ys)
zip_or e _ _ = err e

-- {db_label: agglo_labels[idx] for idx, db_label in enumerate(group_labels)}
abbrev pub index_labels : List ℕ → List ℕ → Result ClusterError (Dict ℕ)
index_labels [] labels = ok []
index_labels (l ∷ rest) [] = err index_error
index_labels (l ∷ rest) (a ∷ labels) = put_first (l, a) (index_labels rest labels)

-- [dbscan_to_agglo.get(label, -1) for label in dbscan_labels]
abbrev pub agglo_labels_of : Dict ℕ → List (Option ℕ) → List (Option ℕ)
agglo_labels_of dict [] = []
agglo_labels_of dict (none ∷ rest) = none ∷ agglo_labels_of dict rest
agglo_labels_of dict (some l ∷ rest) = get l dict ∷ agglo_labels_of dict rest

abbrev pub group_vectors : {Vector : Type 0} → ℕ → List (Vector × Option ℕ) → List Vector
group_vectors label [] = []
group_vectors label ((v, none) ∷ rest) = group_vectors label rest
group_vectors label ((v, some l) ∷ rest) =
    let others = group_vectors label rest in if l == label then v ∷ others else others

-- The crops that DBSCAN leaves as noise.
abbrev pub note_noise : {Vector : Type 0} → List (MemberRecord Vector × Option ℕ) → List ℕ → List ℕ
note_noise [] unassigned = unassigned
note_noise ((m, none) ∷ rest) unassigned =
    note_noise rest (if m.is_centroid then unassigned else add m.embedding_id unassigned)
note_noise ((m, some l) ∷ rest) unassigned = note_noise rest unassigned

abbrev pub total_weight : {Vector : Type 0} → List (Vector × ℕ) → ℕ
total_weight [] = 0
total_weight ((v, w) ∷ rest) = w + total_weight rest

-- The candidates of a merge with their sizes.
abbrev pub candidate :
    {Vector : Type 0}
    → ℕ
    → Option (ExistingCluster Vector)
    → Result ClusterError (List (ℕ × ℕ))
    → Result ClusterError (List (ℕ × ℕ))
candidate id none rest = err key_error
candidate id (some c) rest = put_first (id, c.size) rest

abbrev pub candidates_of :
    {Vector : Type 0}
    → Dict (ExistingCluster Vector)
    → List (MemberRecord Vector)
    → Result ClusterError (List (ℕ × ℕ))
candidates_of existing [] = ok []
candidates_of existing (m ∷ rest) = elim m.cluster_id [
  | none ↦ candidates_of existing rest
  | some id ↦ candidate id (get id existing) (candidates_of existing rest)
]

abbrev pub max_size : List (ℕ × ℕ) → ℕ
max_size [] = 0
max_size ((id, size) ∷ rest) = max size (max_size rest)

abbrev pub tied : ℕ → List (ℕ × ℕ) → List ℕ
tied size [] = []
tied size ((id, s) ∷ rest) =
    let others = tied size rest in if s == size then id ∷ others else others

abbrev pub least : ℕ → List ℕ → ℕ
least a [] = a
least a (b ∷ rest) = least (min a b) rest

-- max() and min() of nothing raise ValueError.
abbrev pub least_of : List ℕ → Result ClusterError ℕ
least_of [] = err value_error
least_of (a ∷ rest) = ok (least a rest)

abbrev pub survivor : List (ℕ × ℕ) → Result ClusterError ℕ
survivor candidates = least_of (tied (max_size candidates) candidates)

abbrev pub absorbed : ℕ → List (ℕ × ℕ) → List ℕ
absorbed surviving [] = []
absorbed surviving ((id, size) ∷ rest) =
    let others = absorbed surviving rest in if id == surviving then others else id ∷ others

abbrev pub sum_sizes : List (ℕ × ℕ) → ℕ
sum_sizes [] = 0
sum_sizes ((id, size) ∷ rest) = size + sum_sizes rest

-- The crops of the clusters of a row, one after another.
abbrev extend_crops :
    {Vector : Type 0}
    → Option (ExistingCluster Vector)
    → Result ClusterError (List ℕ)
    → Result ClusterError (List ℕ)
extend_crops none rest = err key_error
extend_crops (some c) (err e) = err e
extend_crops (some c) (ok crops) = ok (c.crop_ids ++ crops)

abbrev pub crops_of_clusters :
    {Vector : Type 0} → Dict (ExistingCluster Vector) → List ℕ → Result ClusterError (List ℕ)
crops_of_clusters existing [] = ok []
crops_of_clusters existing (id ∷ rest) =
    extend_crops (get id existing) (crops_of_clusters existing rest)

abbrev pub centroid_records :
    {Vector : Type 0} → Dict (ExistingCluster Vector) → List (MemberRecord Vector)
centroid_records [] = []
centroid_records ((id, c) ∷ rest) =
    record {
      embedding_id = id;
      vector = c.centroid;
      is_centroid = true;
      cluster_id = some id;
      weight = max c.size 1;
    }
    ∷ centroid_records rest

abbrev pub crop_records : {Vector : Type 0} → Dict Vector → List (MemberRecord Vector)
crop_records [] = []
crop_records ((id, v) ∷ rest) =
    record { embedding_id = id; vector = v; is_centroid = false; cluster_id = none; weight = 1 }
    ∷ crop_records rest

abbrev pub build_member_records :
    {Vector : Type 0} → Dict Vector → Dict (ExistingCluster Vector) → List (MemberRecord Vector)
build_member_records new existing = centroid_records existing ++ crop_records new
