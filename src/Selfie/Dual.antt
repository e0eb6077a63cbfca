-- ===== src/Selfie/Dual.antt =====
-- The two models of ml/matching/selfie_matcher.py: `rank_centroid_matches` with both, and `cross_validate`.
use event_vision_pipeline.Base.{
  ℕ, zero, suc, ◌≤◌, true, false, Option, none, some, List, [], ◌∷◌, ◌≡◌, refl, sym, ap, ◌∙◌, inl,
  inr, arith, Bool-cases, length, take, map, occurrences, if◌then◌else◌,
}
use event_vision_pipeline.Clustering.{Numerics}
use event_vision_pipeline.Selfie.{
  Similarity, ClusterCentroid, score_of, primary_hits, insert_by, sort_by, secondary_hit,
  secondary_match_ids, rank_centroid_matches, cluster_ids, ids, confidence_of, tag_match,
  cross_validate, high,
}
use event_vision_pipeline.Selfie.Ranking.{as_match, rank_centroid_matches_lem}
use event_vision_pipeline.Selfie.Hits.{ranked_ids}

take_all : {A : Type 0} (n : ℕ) (xs : List A) → length xs ≤ n → take n xs ≡ xs
take_all zero [] h = refl
take_all zero (x ∷ xs) h = absurd (omega arith)
take_all (suc n) [] h = refl
take_all (suc n) (x ∷ xs) h = ap (λ ys. x ∷ ys) (take_all n xs (omega arith))

-- The clusters that have a centroid of the second model, with it in the first place.
abbrev pub with_secondary :
    {V : Type 0} → ℕ → Option V → List (ClusterCentroid V) → List (ClusterCentroid V)
with_secondary id none cs = cs
with_secondary id (some s) cs =
    record { cluster_id = id; centroid = s; secondary_centroid = none } ∷ cs

abbrev pub by_secondary : {V : Type 0} → List (ClusterCentroid V) → List (ClusterCentroid V)
by_secondary [] = []
by_secondary (c ∷ cs) = with_secondary c.cluster_id c.secondary_centroid (by_secondary cs)

shorter :
    {V : Type 0} (id : ℕ) (o : Option V) (cs : List (ClusterCentroid V)) {n : ℕ}
    → length cs ≤ n
    → length (with_secondary id o cs) ≤ suc n
shorter id none cs h = omega arith
shorter id (some s) cs h = omega arith

module _ (numerics : Numerics) (similar : Similarity numerics.Vector) where
  open numerics use {Vector}
  open similar use {Score, at_least}

  abbrev sort : List (ℕ × Score) → List (ℕ × Score)
  sort hs = sort_by numerics similar (λ (hit : ℕ × Score). hit.1) hs

  ids-insert :
      (k : ℕ) (x : ℕ × Score) (hs : List (ℕ × Score))
      → occurrences k (ids (insert_by numerics similar (λ (hit : ℕ × Score). hit.1) x hs))
        ≡ occurrences k (ids (x ∷ hs))
  unfolding insert_by
  ids-insert k x [] = refl
  ids-insert k x (y ∷ ys) = ground (arith, ids-insert k x ys)

  ids-sort :
      (k : ℕ) (hs : List (ℕ × Score)) → occurrences k (ids (sort hs)) ≡ occurrences k (ids hs)
  unfolding sort_by
  ids-sort k [] = refl
  ids-sort k (x ∷ xs) = ground (arith, ids-insert k x (sort xs), ids-sort k xs)

  length-insert :
      (x : ℕ × Score) (hs : List (ℕ × Score))
      → length (insert_by numerics similar (λ (hit : ℕ × Score). hit.1) x hs) ≡ suc (length hs)
  unfolding insert_by
  length-insert x [] = refl
  length-insert x (y ∷ ys) = ground (arith, length-insert x ys)

  length-sort : (hs : List (ℕ × Score)) → length (sort hs) ≡ length hs
  unfolding sort_by
  length-sort [] = refl
  length-sort (x ∷ xs) = ground (arith, length-insert x (sort xs), length-sort xs)

  module _ (w : Vector) (t : Score) where
    abbrev hits : List (ClusterCentroid Vector) → List (ℕ × Score)
    hits cs = primary_hits numerics similar w t cs

    hits-with_secondary :
        (id : ℕ) (o : Option Vector) (cs : List (ClusterCentroid Vector))
        → ids (hits (with_secondary id o cs))
          ≡ (if secondary_hit numerics similar w t o then id ∷ ids (hits cs) else ids (hits cs))
    unfolding primary_hits
    hits-with_secondary id none cs = refl
    hits-with_secondary id (some s) cs =
        elim (Bool-cases (at_least (score_of numerics similar w s) t)) [
          | inl q ↦ rw q refl
          | inr q ↦ rw q refl
        ]

    secondary_ids_lem :
        (cs : List (ClusterCentroid Vector))
        → ids (hits (by_secondary cs)) ≡ secondary_match_ids numerics similar w t cs
    unfolding primary_hits secondary_match_ids
    secondary_ids_lem [] = refl
    secondary_ids_lem (c ∷ cs) =
        hits-with_secondary c.cluster_id c.secondary_centroid (by_secondary cs)
        ∙ ap
            (λ is.
              if secondary_hit numerics similar w t c.secondary_centroid
              then c.cluster_id ∷ is
              else is)
            (secondary_ids_lem cs)

    length-hits : (cs : List (ClusterCentroid Vector)) → length (hits cs) ≤ length cs
    unfolding primary_hits
    length-hits [] = omega arith
    length-hits (c ∷ cs) = ground (arith, length-hits cs)

    length-by_secondary :
        (cs : List (ClusterCentroid Vector)) → length (by_secondary cs) ≤ length cs
    length-by_secondary [] = omega arith
    length-by_secondary (c ∷ cs) =
        shorter c.cluster_id c.secondary_centroid (by_secondary cs) (length-by_secondary cs)

    -- The second model's ranking, in full, has the ids that the second model accepts.
    ranked_secondary :
        (k : ℕ) (cs : List (ClusterCentroid Vector))
        → occurrences k (
            cluster_ids
              (rank_centroid_matches numerics similar w (by_secondary cs) t (length cs) none false))
          ≡ occurrences k (secondary_match_ids numerics similar w t cs)
    ranked_secondary k cs =
        let hs = hits (by_secondary cs) in
        let few = length-hits (by_secondary cs) in
        let fewer = length-by_secondary cs in
        ap (λ is. occurrences k is)
          (ranked_ids numerics similar w t none false (length cs) (by_secondary cs)
            ∙ ap (λ xs. ids xs) (take_all (length cs) (sort hs) (omega (arith, length-sort hs))))
        ∙ ids-sort k hs
        ∙ ap (λ is. occurrences k is) (secondary_ids_lem cs)

  confidence_same :
      (is js : List ℕ)
      → ((k : ℕ) → occurrences k is ≡ occurrences k js)
      → (hs : List (ℕ × Score))
      → map (as_match numerics similar (λ id. confidence_of is id)) hs
        ≡ map (λ m. tag_match js m) (map (as_match numerics similar (λ id. high)) hs)
  confidence_same is js f [] = refl
  confidence_same is js f (h ∷ hs) = rw (f h.0) (
      ap (λ ms. as_match numerics similar (λ id. confidence_of js id) h ∷ ms)
        (confidence_same is js f hs))

  -- The ranking with both models is that of the first alone, with its confidences set by `cross_validate`
  -- from the full ranking that the second makes alone.
  pub both_models :
      (v w : Vector) (cs : List (ClusterCentroid Vector)) (t : Score) (n : ℕ)
      → rank_centroid_matches numerics similar v cs t n (some w) true
        ≡ cross_validate
            (rank_centroid_matches numerics similar v cs t n none false)
            (rank_centroid_matches numerics similar w (by_secondary cs) t (length cs) none false)
  unfolding cross_validate
  both_models v w cs t n =
      let first = rank_centroid_matches_lem numerics similar v cs t n in
      let second =
        rank_centroid_matches numerics similar w (by_secondary cs) t (length cs) none false in
      first (some w) true
      ∙ confidence_same (secondary_match_ids numerics similar w t cs) (cluster_ids second)
          (λ k. sym (ranked_secondary w t k cs))
          (take n (sort (primary_hits numerics similar v t cs)))
      ∙ ap (λ ms. map (λ m. tag_match (cluster_ids second) m) ms) (sym (first none false))
