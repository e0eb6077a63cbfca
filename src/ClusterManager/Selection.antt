-- ===== src/ClusterManager/Selection.antt =====
-- The faces that `load_unclustered_embeddings` of ml/clustering/cluster_manager.py loads for a batch.
use event_vision_pipeline.Base.{
  ℕ, zero, suc, ◌<◌, ◌≤◌, Bool, true, false, ◌&&◌, not, List, [], ◌∷◌, ◌≡◌, refl, inl, inr, arith,
  ◌==◌, take, occurrences, Bool-cases,
}
use event_vision_pipeline.Clustering.{Dict}
use event_vision_pipeline.ClusterStore.{FaceRow, among}
use event_vision_pipeline.ClusterManager.{
  is_open, by_id, open_faces, load_unclustered_embeddings, keys, is_empty,
}
use event_vision_pipeline.ClusterManager.Batch.{face_ids}

and_right : (x y : Bool) → (x && y) ≡ true → y ≡ true
and_right true y e = e
and_right false y e = cc

module _ {V : Type 0} where
  keys-by_id :
      (k i : ℕ) (v : V) (d : Dict V)
      → occurrences k (keys (by_id (i, v) d)) ≡ occurrences k (i ∷ keys d)
  keys-by_id k i v [] = refl
  keys-by_id k i v ((j, w) ∷ rest) = ground (arith, keys-by_id k i v rest)

  keys-take : (k n : ℕ) (d : Dict V) → occurrences k (keys (take n d)) ≤ occurrences k (keys d)
  keys-take k zero d = omega arith
  keys-take k (suc n) [] = omega arith
  keys-take k (suc n) ((j, w) ∷ rest) = ground (arith, keys-take k n rest)

  not_attempted :
      (e : ℕ) (sweeper : Bool) (range : ℕ × ℕ) (attempted : List ℕ) (f : FaceRow V)
      → is_open e sweeper range attempted f ≡ true
      → occurrences f.id attempted ≡ 0
  not_attempted e sweeper range attempted f o =
      let last = and_right _ (not (among f.id attempted)) o in ground arith

  keys-open_faces :
      (k e : ℕ) (sweeper : Bool) (range : ℕ × ℕ) (attempted : List ℕ) (fs : List (FaceRow V))
      → (occurrences k (keys (open_faces e sweeper range attempted fs))
          ≤ occurrences k (face_ids fs))
        × (0 < occurrences k (keys (open_faces e sweeper range attempted fs))
            → occurrences k attempted ≡ 0)
  unfolding open_faces
  keys-open_faces k e sweeper range attempted [] = (omega arith, λ h. absurd (omega arith))
  keys-open_faces k e sweeper range attempted (f ∷ rest) =
      let (few, fresh) = keys-open_faces k e sweeper range attempted rest in
      let later = open_faces e sweeper range attempted rest in
      elim (Bool-cases (is_open e sweeper range attempted f)) [
        | inr n ↦ rw n (ground arith, fresh)
        | inl o ↦ rw o (
          ground (arith, keys-by_id k f.id f.embedding later),
          λ h. elim (Bool-cases (k == f.id)) [
            | inl q ↦ let unseen = not_attempted e sweeper range attempted f o in ground arith
            | inr q ↦ fresh (ground (arith, keys-by_id k f.id f.embedding later))
          ],
        )
      ]

  -- What is loaded are faces of the table, none of them attempted.
  pub keys-load :
      (k e limit : ℕ) (sweeper : Bool) (range : ℕ × ℕ) (attempted : List ℕ) (fs : List (FaceRow V))
      → let loaded = load_unclustered_embeddings e sweeper range limit attempted fs in
        (occurrences k (keys loaded) ≤ occurrences k (face_ids fs))
        × (0 < occurrences k (keys loaded) → occurrences k attempted ≡ 0)
  unfolding load_unclustered_embeddings
  keys-load k e limit sweeper range attempted fs =
      let (few, fresh) = keys-open_faces k e sweeper range attempted fs in
      let taken = keys-take k limit (open_faces e sweeper range attempted fs) in
      (omega arith, λ h. fresh (omega arith))

  pub first_key : (d : Dict V) → is_empty d ≡ false → (k : ℕ) × (0 < occurrences k (keys d))
  first_key [] e = cc
  first_key ((k, v) ∷ rest) e = (k, ground arith)
