-- ===== src/Clustering/Incremental/Groups.antt =====
-- All the groups of a pass (`_build_result` of ml/clustering/incremental_clusterer.py).
use event_vision_pipeline.Base.{
  ℕ, ◌+◌, ◌≤◌, ◌<◌, true, Option, none, some, List, [], ◌∷◌, ◌≡◌, refl, ◌∙◌, inl, inr, arith, ◌==◌,
  if◌then◌else◌, Bool-cases, occurrences, length,
}
use event_vision_pipeline.Clustering.{Numerics, ClusteringTypeConfig, ExistingCluster, Dict}
use event_vision_pipeline.Clustering.Members.{
  MemberRecord, Build, ids_of, weighted, total_weight, group_of, crops_of, centroids_of,
}
use event_vision_pipeline.Clustering.Incremental.{
  Vector, Member, handle_group, handle_groups, handle_expanded_cluster,
}
use event_vision_pipeline.Clustering.Known.{AllKnown, IsFresh, IsFound}
use event_vision_pipeline.Clustering.Incremental.Placed.{
  placed_so_far, Places, Fits, PlacesAll, handle_new_cluster-PlacesAll, expand_found-PlacesAll,
  handle_merged_cluster-PlacesAll,
}

module _ {V : Type 0} (existing : Dict (ExistingCluster V)) where
  -- A row has a weight, and a centroid's row names a cluster that exists.
  abbrev pub IsSound : MemberRecord V → Type 0
  IsSound m =
      (0 < m.weight)
      × (m.is_centroid ≡ true → (id : ℕ) × (m.cluster_id ≡ some id) × IsFound existing id)

  abbrev pub AllSound : List (MemberRecord V) → Type 0
  AllSound [] = Unit
  AllSound (m ∷ rest) = IsSound m × AllSound rest

  abbrev pub RowsSound : List (MemberRecord V × Option ℕ) → Type 0
  RowsSound [] = Unit
  RowsSound ((m, l) ∷ rest) = IsSound m × RowsSound rest

  group_of-AllSound :
      (label : ℕ) (rows : List (MemberRecord V × Option ℕ))
      → RowsSound rows
      → AllSound (group_of label rows)
  group_of-AllSound label [] s = tt
  group_of-AllSound label ((m, none) ∷ rest) s = group_of-AllSound label rest s.1
  group_of-AllSound label ((m, some l) ∷ rest) s = elim (Bool-cases (l == label)) [
    | inl e ↦ rw e (s.0, group_of-AllSound label rest s.1)
    | inr e ↦ rw e (group_of-AllSound label rest s.1)
  ]

  centroids-AllKnown :
      (ms : List (MemberRecord V)) → AllSound ms → AllKnown existing (centroids_of ms)
  centroids-AllKnown [] s = tt
  centroids-AllKnown (m ∷ rest) s = elim (Bool-cases m.is_centroid) [
    | inl e ↦ rw e (s.0.1 e, centroids-AllKnown rest s.1)
    | inr e ↦ rw e (centroids-AllKnown rest s.1)
  ]

  group_weight :
      (ms : List (MemberRecord V))
      → AllSound ms
      → 0 < length (centroids_of ms) + length (crops_of ms)
      → 0 < total_weight (weighted ms)
  group_weight [] s h = omega arith
  group_weight (m ∷ rest) s h = let w = s.0.0 in omega arith

module _ {V : Type 0} where
  -- Each label of the rows is once among the labels.
  abbrev pub Covers : List ℕ → List (MemberRecord V × Option ℕ) → Type 0
  Covers labels [] = Unit
  Covers labels ((m, none) ∷ rest) = Covers labels rest
  Covers labels ((m, some l) ∷ rest) = (occurrences l labels ≡ 1) × Covers labels rest

-- `h` for each time that a label is among the labels.
abbrev tally : ℕ → List ℕ → ℕ → ℕ
tally l [] h = 0
tally l (x ∷ rest) h = let n = tally l rest h in if l == x then h + n else n

tally_none : (l : ℕ) (labels : List ℕ) (h : ℕ) → occurrences l labels ≡ 0 → tally l labels h ≡ 0
tally_none l [] h e = refl
tally_none l (x ∷ rest) h e = ground (arith, tally_none l rest h)

tally_once : (l : ℕ) (labels : List ℕ) (h : ℕ) → occurrences l labels ≡ 1 → tally l labels h ≡ h
tally_once l [] h e = absurd (omega arith)
tally_once l (x ∷ rest) h e = elim (Bool-cases (l == x)) [
  | inl s ↦ ground (arith, tally_none l rest h)
  | inr s ↦ ground (arith, tally_once l rest h)
]

module _ {V : Type 0} (crop : ℕ) where
  -- How often the crop is among the new crops of the members, of a group, of the groups of some
  -- labels, and of the rows with a label.
  abbrev pub hits : List (MemberRecord V) → ℕ
  hits ms = occurrences crop (ids_of (crops_of ms))

  abbrev pub in_groups : List (MemberRecord V × Option ℕ) → List ℕ → ℕ
  in_groups rows [] = 0
  in_groups rows (l ∷ rest) = hits (group_of l rows) + in_groups rows rest

  abbrev pub labelled : List (MemberRecord V × Option ℕ) → ℕ
  labelled [] = 0
  labelled ((m, none) ∷ rest) = labelled rest
  labelled ((m, some l) ∷ rest) = hits (m ∷ []) + labelled rest

  hits_cons :
      (m : MemberRecord V) (ms : List (MemberRecord V)) → hits (m ∷ ms) ≡ hits (m ∷ []) + hits ms
  hits_cons m ms = ground arith

  in_groups-unlabelled :
      (m : MemberRecord V) (rows : List (MemberRecord V × Option ℕ)) (labels : List ℕ)
      → in_groups ((m, none) ∷ rows) labels ≡ in_groups rows labels
  in_groups-unlabelled m rows [] = refl
  in_groups-unlabelled m rows (l ∷ rest) = omega (arith, in_groups-unlabelled m rows rest)

  in_groups-tally :
      (m : MemberRecord V) (l : ℕ) (rows : List (MemberRecord V × Option ℕ)) (labels : List ℕ)
      → in_groups ((m, some l) ∷ rows) labels
        ≡ tally l labels (hits (m ∷ [])) + in_groups rows labels
  in_groups-tally m l rows [] = omega arith
  in_groups-tally m l rows (x ∷ rest) = elim (Bool-cases (l == x)) [
    | inl e ↦ rw e (omega (arith, hits_cons m (group_of x rows), in_groups-tally m l rows rest))
    | inr e ↦ rw e (omega (arith, in_groups-tally m l rows rest))
  ]

  pub in_groups-labelled :
      (labels : List ℕ) (rows : List (MemberRecord V × Option ℕ))
      → Covers labels rows
      → in_groups rows labels ≡ labelled rows
  in_groups-labelled [] [] c = refl
  in_groups-labelled (l ∷ rest) [] c = omega (arith, in_groups-labelled rest [] tt)
  in_groups-labelled labels ((m, none) ∷ rest) c =
      in_groups-unlabelled m rest labels ∙ in_groups-labelled labels rest c
  in_groups-labelled labels ((m, some l) ∷ rest) c = omega (
    arith,
    in_groups-tally m l rest labels,
    tally_once l labels (hits (m ∷ [])) c.0,
    in_groups-labelled labels rest c.1,
  )

module _ (numerics : Numerics) (crop : ℕ) (new_cluster_id : ℕ → ℕ)
    (existing : Dict (ExistingCluster (Vector numerics))) (type : ClusteringTypeConfig) where
  handle_group-PlacesAll :
      (b : Build (Vector numerics)) (centroids crops group : List (Member numerics))
      → Fits numerics crop b crops
      → (0 < length centroids + length crops → 0 < total_weight (weighted group))
      → AllKnown existing centroids
      → IsFresh crop existing
      → PlacesAll numerics crop b crops
          (handle_group numerics new_cluster_id existing type centroids crops group)
  unfolding handle_group handle_expanded_cluster
  handle_group-PlacesAll b [] [] group h p known fresh = (b, refl, omega arith)
  handle_group-PlacesAll b (c ∷ []) [] group h p known fresh = (b, refl, omega arith)
  handle_group-PlacesAll b [] (m ∷ rest) group h p known fresh =
      handle_new_cluster-PlacesAll numerics crop b new_cluster_id existing type m rest h
  handle_group-PlacesAll b (c ∷ []) (m ∷ rest) group h p known fresh =
      expand_found-PlacesAll numerics crop b new_cluster_id existing type c.cluster_id (m ∷ rest)
        group h (p (omega arith))
  handle_group-PlacesAll b (c ∷ d ∷ more) crops group h p known fresh =
      handle_merged_cluster-PlacesAll numerics crop b new_cluster_id existing type (c ∷ d ∷ more)
        crops group h (p (omega arith)) (omega arith) known fresh

  pub handle_groups-Places :
      (rows : List (Member numerics × Option ℕ)) (labels : List ℕ) (b : Build (Vector numerics))
      → placed_so_far crop b + in_groups crop rows labels ≤ 1
      → RowsSound existing rows
      → IsFresh crop existing
      → Places numerics crop
          (in_groups crop rows labels)
          (handle_groups numerics new_cluster_id existing type rows labels)
          b
  unfolding handle_groups
  handle_groups-Places rows [] b h s fresh = (b, refl, omega arith)
  handle_groups-Places rows (l ∷ rest) b h s fresh =
      let group = group_of l rows in
      let sound = group_of-AllSound existing l rows s in
      let (b', e, n) =
        handle_group-PlacesAll b (centroids_of group) (crops_of group) group (omega arith)
          (group_weight existing group sound) (centroids-AllKnown existing group sound) fresh in
      let (b'', f, k) = handle_groups-Places rows rest b' (omega (arith, n)) s fresh in
      rw e (rw f (b'', refl, omega (arith, n, k)))
