-- ===== src/ClusterManager/Batch.antt =====
-- One batch of a clustering pass (ml/clustering/cluster_manager.py): the faces that it takes up, and the ids
-- of the rows, which no write changes.
use event_vision_pipeline.Base.{
  ℕ, Bool, true, false, ◌&&◌, List, [], ◌∷◌, ◌≡◌, refl, ◌∙◌, ◌==◌, if◌then◌else◌,
}
use event_vision_pipeline.Clustering.{
  Numerics, NewCluster, ExpandedCluster, MergedCluster, ClusteringResult,
}
use event_vision_pipeline.ClusterStore.{
  FaceRow, Store, among, in_clusters, assign, reassign, set_null, hit_by_delete, delete_clusters,
  insert_new_cluster, insert_new_clusters, apply_expanded_cluster, apply_expanded_clusters,
}
use event_vision_pipeline.ClusterStore.Write.{
  is_empty as no_ids, apply_merged_cluster, apply_merged_clusters, refresh_secondary_centroids,
  write_result,
}

abbrev pub face_ids : {V : Type 0} → List (FaceRow V) → List ℕ
face_ids [] = []
face_ids (f ∷ rest) = f.id ∷ face_ids rest

cons_ids : (i j : ℕ) (is js : List ℕ) → i ≡ j → is ≡ js → i ∷ is ≡ j ∷ js
cons_ids i j is js e f = cc

module _ {V : Type 0} where
  same_id : (b : Bool) (f g : FaceRow V) → f.id ≡ g.id → (if b then f else g).id ≡ g.id
  same_id true f g e = e
  same_id false f g e = refl

  face_ids-assign :
      (e c : ℕ) (members : List ℕ) (fs : List (FaceRow V))
      → face_ids (assign e members c fs) ≡ face_ids fs
  unfolding assign
  face_ids-assign e c members [] = refl
  face_ids-assign e c members (f ∷ rest) =
      cons_ids _ _ _ _ (same_id (f.event_id == e && among f.id members) _ f refl)
        (face_ids-assign e c members rest)

  face_ids-reassign :
      (e c : ℕ) (clusters : List ℕ) (fs : List (FaceRow V))
      → face_ids (reassign e clusters c fs) ≡ face_ids fs
  unfolding reassign
  face_ids-reassign e c clusters [] = refl
  face_ids-reassign e c clusters (f ∷ rest) =
      cons_ids _ _ _ _ (same_id (f.event_id == e && in_clusters f.cluster_id clusters) _ f refl)
        (face_ids-reassign e c clusters rest)

  face_ids-set_null :
      (deleted : List ℕ) (fs : List (FaceRow V)) → face_ids (set_null deleted fs) ≡ face_ids fs
  unfolding set_null
  face_ids-set_null deleted [] = refl
  face_ids-set_null deleted (f ∷ rest) =
      cons_ids _ _ _ _ (same_id (in_clusters f.cluster_id deleted) _ f refl)
        (face_ids-set_null deleted rest)

  abbrev ids_of : Store V → List ℕ
  ids_of s = face_ids s.faces

  new_ids_same :
      (e : ℕ) (cs : List (NewCluster V)) (s : Store V)
      → ids_of (insert_new_clusters e cs s) ≡ ids_of s
  unfolding insert_new_clusters insert_new_cluster
  new_ids_same e [] s = refl
  new_ids_same e (c ∷ rest) s =
      new_ids_same e rest (insert_new_cluster e c s)
      ∙ face_ids-assign e c.cluster_id c.crop_ids s.faces

  expanded_ids_same :
      (e : ℕ) (cs : List (ExpandedCluster V)) (s : Store V)
      → ids_of (apply_expanded_clusters e cs s) ≡ ids_of s
  unfolding apply_expanded_clusters apply_expanded_cluster
  expanded_ids_same e [] s = refl
  expanded_ids_same e (c ∷ rest) s =
      expanded_ids_same e rest (apply_expanded_cluster e c s)
      ∙ face_ids-assign e c.cluster_id c.new_crop_ids s.faces

module _ (numerics : Numerics) where
  open numerics use {Vector}

  deleted_ids_same :
      (clusters : List ℕ) (e c : ℕ) (s : Store Vector)
      → face_ids
          (if no_ids numerics clusters
            then s
            else delete_clusters e clusters
                (record s { faces = reassign e clusters c s.faces })).faces
        ≡ face_ids s.faces
  unfolding delete_clusters
  deleted_ids_same [] e c s = refl
  deleted_ids_same (d ∷ ds) e c s =
      face_ids-set_null (hit_by_delete e (d ∷ ds) s.clusters) (reassign e (d ∷ ds) c s.faces)
      ∙ face_ids-reassign e c (d ∷ ds) s.faces

  merged_ids_same :
      (e : ℕ) (ms : List (MergedCluster Vector)) (s : Store Vector)
      → ids_of (apply_merged_clusters numerics e ms s) ≡ ids_of s
  unfolding apply_merged_clusters apply_merged_cluster delete_clusters
  merged_ids_same e [] s = refl
  merged_ids_same e (m ∷ rest) s =
      merged_ids_same e rest (apply_merged_cluster numerics e m s)
      ∙ (face_ids-assign e m.surviving_cluster_id m.all_crop_ids _
          ∙ deleted_ids_same m.absorbed_cluster_ids e m.surviving_cluster_id s)

  pub face_ids-write_result :
      (e : ℕ) (result : ClusteringResult Vector) (s : Store Vector)
      → face_ids (write_result numerics e result s).faces ≡ face_ids s.faces
  unfolding write_result refresh_secondary_centroids
  face_ids-write_result e result s =
      let new = insert_new_clusters e result.new_clusters s in
      let expanded = apply_expanded_clusters e result.expanded_clusters new in
      merged_ids_same e result.merged_clusters expanded
      ∙ (expanded_ids_same e result.expanded_clusters new ∙ new_ids_same e result.new_clusters s)
