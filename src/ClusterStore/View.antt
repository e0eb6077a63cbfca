-- ===== src/ClusterStore/View.antt =====
-- What `write_result` of ml/clustering/cluster_persistence.py makes of the cluster that each face is in. The
-- abstract view of the tables is the placement: for each id of a face, its cluster.
use event_vision_pipeline.Base.{
  ℕ, ◌<◌, Bool, false, ◌&&◌, Option, none, some, List, [], ◌∷◌, ◌≡◌, refl, sym, ap, ◌∙◌, inl, inr,
  arith, ◌==◌, if◌then◌else◌, occurrences, Option-cases,
}
use mathlib.Core.Path.{fun_ext}
use event_vision_pipeline.Clustering.{
  Numerics, NewCluster, ExpandedCluster, MergedCluster, ClusteringResult,
}
use event_vision_pipeline.Clustering.Incremental.Apart.{AllApart}
use event_vision_pipeline.ClusterStore.{
  FaceRow, ClusterRow, Store, among, in_clusters, assign, reassign, hit_by_delete, set_null,
  delete_clusters, insert_new_cluster, insert_new_clusters, apply_expanded_cluster,
  apply_expanded_clusters,
}
use event_vision_pipeline.ClusterStore.Write.{
  is_empty, apply_merged_cluster, apply_merged_clusters, refresh_secondary_centroids, write_result,
}

-- No row, a face without a cluster, or a face in a cluster.
abbrev pub Placement : Type 0
Placement = ℕ → Option (Option ℕ)

abbrev pub settle : ℕ → Option (Option ℕ) → Option (Option ℕ)
settle c none = none
settle c (some _) = some (some c)

abbrev pub within : List ℕ → Option (Option ℕ) → Bool
within clusters none = false
within clusters (some c) = in_clusters c clusters

-- The faces go to a cluster, wherever they were.
abbrev pub place : List ℕ → ℕ → Placement → Placement
place members c a i = if among i members then settle c (a i) else a i

-- All faces of some clusters go to another.
abbrev pub absorb : List ℕ → ℕ → Placement → Placement
absorb clusters c a i = if within clusters (a i) then some (some c) else a i

module _ {Vector : Type 0} where
  abbrev pub place_new : List (NewCluster Vector) → Placement → Placement
  place_new [] a = a
  place_new (c ∷ rest) a = place_new rest (place c.crop_ids c.cluster_id a)

  abbrev pub place_expanded : List (ExpandedCluster Vector) → Placement → Placement
  place_expanded [] a = a
  place_expanded (c ∷ rest) a = place_expanded rest (place c.new_crop_ids c.cluster_id a)

  abbrev pub place_merged : List (MergedCluster Vector) → Placement → Placement
  place_merged [] a = a
  place_merged (m ∷ rest) a = place_merged rest (
      place m.all_crop_ids m.surviving_cluster_id
        (absorb m.absorbed_cluster_ids m.surviving_cluster_id a))

  -- What a result says, with no table.
  abbrev pub place_result : ClusteringResult Vector → Placement → Placement
  place_result result a =
      place_merged result.merged_clusters
        (place_expanded result.expanded_clusters (place_new result.new_clusters a))

  -- The placement of the faces of an event.
  abbrev pub view : ℕ → List (FaceRow Vector) → Placement
  view event_id [] i = none
  view event_id (f ∷ rest) i =
      let later = view event_id rest i in
      if f.event_id == event_id && f.id == i then some f.cluster_id else later

  view-assign :
      (e c i : ℕ) (members : List ℕ) (fs : List (FaceRow Vector))
      → view e (assign e members c fs) i ≡ place members c (view e fs) i
  unfolding assign
  view-assign e c i members [] = ground arith
  view-assign e c i members (f ∷ rest) = ground (arith, view-assign e c i members rest)

  view-reassign :
      (e c i : ℕ) (clusters : List ℕ) (fs : List (FaceRow Vector))
      → view e (reassign e clusters c fs) i ≡ absorb clusters c (view e fs) i
  unfolding reassign
  view-reassign e c i clusters [] = refl
  view-reassign e c i clusters (f ∷ rest) = ground (arith, view-reassign e c i clusters rest)

  deleted_listed :
      (e d : ℕ) (ids : List ℕ) (cs : List (ClusterRow Vector))
      → 0 < occurrences d (hit_by_delete e ids cs)
      → 0 < occurrences d ids
  unfolding hit_by_delete
  deleted_listed e d ids [] h = absurd (omega arith)
  deleted_listed e d ids (c ∷ rest) h = ground (arith, deleted_listed e d ids rest)

  -- No face of the event is in a deleted cluster any more, so the delete sets none to null.
  view-set_null :
      (e c i : ℕ) (clusters deleted : List ℕ) (fs : List (FaceRow Vector))
      → among c clusters ≡ false
      → ((d : ℕ) → 0 < occurrences d deleted → 0 < occurrences d clusters)
      → view e (set_null deleted (reassign e clusters c fs)) i ≡ view e (reassign e clusters c fs) i
  unfolding set_null reassign
  view-set_null e c i clusters deleted [] apart listed = refl
  view-set_null e c i clusters deleted (f ∷ rest) apart listed =
      let later = view-set_null e c i clusters deleted rest apart listed in
      let survivor = listed c in
      elim (Option-cases f.cluster_id) [
        | inl n ↦ ground arith
        | inr (d, n) ↦ let member = listed d in ground arith
      ]

  placement-assign :
      (e c : ℕ) (members : List ℕ) (fs : List (FaceRow Vector))
      → view e (assign e members c fs) ≡ place members c (view e fs)
  placement-assign e c members fs = fun_ext (λ i. view-assign e c i members fs)

  view-insert_new_clusters :
      (e : ℕ) (cs : List (NewCluster Vector)) (s : Store Vector)
      → view e (insert_new_clusters e cs s).faces ≡ place_new cs (view e s.faces)
  unfolding insert_new_clusters insert_new_cluster
  view-insert_new_clusters e [] s = refl
  view-insert_new_clusters e (c ∷ rest) s =
      view-insert_new_clusters e rest (insert_new_cluster e c s)
      ∙ ap (λ a. place_new rest a) (placement-assign e c.cluster_id c.crop_ids s.faces)

  view-apply_expanded_clusters :
      (e : ℕ) (cs : List (ExpandedCluster Vector)) (s : Store Vector)
      → view e (apply_expanded_clusters e cs s).faces ≡ place_expanded cs (view e s.faces)
  unfolding apply_expanded_clusters apply_expanded_cluster
  view-apply_expanded_clusters e [] s = refl
  view-apply_expanded_clusters e (c ∷ rest) s =
      view-apply_expanded_clusters e rest (apply_expanded_cluster e c s)
      ∙ ap (λ a. place_expanded rest a) (placement-assign e c.cluster_id c.new_crop_ids s.faces)

absorb_nothing : (c : ℕ) (a : Placement) (i : ℕ) → absorb [] c a i ≡ a i
absorb_nothing c a i = elim (Option-cases (a i)) [
  | inl e ↦ rw e refl
  | inr (x, e) ↦ elim (Option-cases x) [ inl f ↦ rw (e, f) refl | inr (d, f) ↦ rw (e, f) refl ]
]

module _ (numerics : Numerics) where
  open numerics use {Vector}

  deleted_view :
      (e c : ℕ) (clusters : List ℕ) (s : Store Vector)
      → among c clusters ≡ false
      → view e
          (if is_empty numerics clusters
            then s
            else delete_clusters e clusters
                (record s { faces = reassign e clusters c s.faces })).faces
        ≡ absorb clusters c (view e s.faces)
  unfolding delete_clusters
  deleted_view e c [] s apart = fun_ext (λ i. sym (absorb_nothing c (view e s.faces) i))
  deleted_view e c (d ∷ ds) s apart = fun_ext (λ i.
      view-set_null e c i (d ∷ ds) (hit_by_delete e (d ∷ ds) s.clusters) s.faces apart
        (λ k h. deleted_listed e k (d ∷ ds) s.clusters h)
      ∙ view-reassign e c i (d ∷ ds) s.faces)

  view-apply_merged_clusters :
      (e : ℕ) (ms : List (MergedCluster Vector)) (s : Store Vector)
      → AllApart ms
      → view e (apply_merged_clusters numerics e ms s).faces ≡ place_merged ms (view e s.faces)
  unfolding apply_merged_clusters apply_merged_cluster
  view-apply_merged_clusters e [] s apart = refl
  view-apply_merged_clusters e (m ∷ rest) s apart =
      view-apply_merged_clusters e rest (apply_merged_cluster numerics e m s) apart.1
      ∙ ap (λ a. place_merged rest a)
          (placement-assign e m.surviving_cluster_id m.all_crop_ids _
            ∙ ap (λ a. place m.all_crop_ids m.surviving_cluster_id a)
                (deleted_view e m.surviving_cluster_id m.absorbed_cluster_ids s
                  (ground (arith, apart.0))))

  -- The tables after a result is written place the faces of the event as the result says.
  pub view-write_result :
      (e : ℕ) (result : ClusteringResult Vector) (s : Store Vector)
      → AllApart result.merged_clusters
      → view e (write_result numerics e result s).faces ≡ place_result result (view e s.faces)
  unfolding write_result refresh_secondary_centroids
  view-write_result e result s apart =
      let new = insert_new_clusters e result.new_clusters s in
      let expanded = apply_expanded_clusters e result.expanded_clusters new in
      view-apply_merged_clusters e result.merged_clusters expanded apart
      ∙ ap (λ a. place_merged result.merged_clusters a)
          (view-apply_expanded_clusters e result.expanded_clusters new
            ∙ ap (λ a. place_expanded result.expanded_clusters a)
                (view-insert_new_clusters e result.new_clusters s))
