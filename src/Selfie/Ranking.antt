-- ===== src/Selfie/Ranking.antt =====
-- The ranking of ml/matching/selfie_matcher.py: what the sort and the loop over the hits leave.
use event_vision_pipeline.Base.{
  ℕ, zero, suc, ◌+◌, Bool, true, false, Option, List, [], ◌∷◌, ◌++◌, ◌≡◌, refl, sym, ap, ◌∙◌, inl,
  inr, arith, Bool-cases, length, length-append, take, map, leb,
}
use mathlib.Core.List.{append_assoc, append-nil}
use event_vision_pipeline.Clustering.{Numerics}
use event_vision_pipeline.Selfie.{
  Similarity, Confidence, ClusterMatch, ClusterCentroid, primary_hits, insert_by, sort_by,
  take_matches, judge_confidence, rank_centroid_matches,
}

module _ (numerics : Numerics) (similar : Similarity numerics.Vector) where
  open numerics use {Vector}
  open similar use {Score, at_least}

  module _ {A : Type 0} (key : A → Score) where
    -- No score is above the given one; the list is sorted, the best first.
    abbrev pub Below : Score → List A → Type 0
    Below s [] = Unit
    Below s (x ∷ xs) = (at_least s (key x) ≡ true) × Below s xs

    abbrev pub Sorted : List A → Type 0
    Sorted [] = Unit
    Sorted (x ∷ xs) = Below (key x) xs × Sorted xs

    pub Below-trans : (s t : Score) (xs : List A) → at_least s t ≡ true → Below t xs → Below s xs
    Below-trans s t [] e b = tt
    Below-trans s t (x ∷ xs) e (h, b) =
        (similar.at_least_trans s t (key x) e h, Below-trans s t xs e b)

    insert_by-Below :
        (s : Score) (x : A) (xs : List A)
        → at_least s (key x) ≡ true
        → Below s xs
        → Below s (insert_by numerics similar key x xs)
    unfolding insert_by
    insert_by-Below s x [] e b = (e, tt)
    insert_by-Below s x (y ∷ ys) e (h, b) = elim (Bool-cases (at_least (key x) (key y))) [
      | inl q ↦ rw q (e, (h, b))
      | inr q ↦ rw q (h, insert_by-Below s x ys e b)
    ]

    flip : (x y : Score) → at_least x y ≡ false → at_least y x ≡ true
    flip x y e = elim (similar.at_least_total x y) [ inl q ↦ cc | inr q ↦ q ]

    insert_by-Sorted :
        (x : A) (xs : List A) → Sorted xs → Sorted (insert_by numerics similar key x xs)
    unfolding insert_by
    insert_by-Sorted x [] s = (tt, tt)
    insert_by-Sorted x (y ∷ ys) (b, s) = elim (Bool-cases (at_least (key x) (key y))) [
      | inl q ↦ rw q ((q, Below-trans (key x) (key y) ys q b), (b, s))
      | inr q ↦
          rw q (insert_by-Below (key y) x ys (flip (key x) (key y) q) b, insert_by-Sorted x ys s)
    ]

    pub sort_by-Sorted : (xs : List A) → Sorted (sort_by numerics similar key xs)
    unfolding sort_by
    sort_by-Sorted [] = tt
    sort_by-Sorted (x ∷ xs) =
        insert_by-Sorted x (sort_by numerics similar key xs) (sort_by-Sorted xs)

    pub insert_by_first :
        (x : A) (xs : List A) → Below (key x) xs → insert_by numerics similar key x xs ≡ x ∷ xs
    unfolding insert_by
    insert_by_first x [] b = refl
    insert_by_first x (y ∷ ys) (h, b) = rw h refl

    pub sort_by_fixed : (xs : List A) → Sorted xs → sort_by numerics similar key xs ≡ xs
    unfolding sort_by
    sort_by_fixed [] s = refl
    sort_by_fixed (x ∷ xs) (b, s) =
        ap (λ ys. insert_by numerics similar key x ys) (sort_by_fixed xs s) ∙ insert_by_first x xs b

    pub take-Below : (n : ℕ) (s : Score) (xs : List A) → Below s xs → Below s (take n xs)
    take-Below zero s xs b = tt
    take-Below (suc n) s [] b = tt
    take-Below (suc n) s (x ∷ xs) (h, b) = (h, take-Below n s xs b)

    pub take-Sorted : (n : ℕ) (xs : List A) → Sorted xs → Sorted (take n xs)
    take-Sorted zero xs s = tt
    take-Sorted (suc n) [] s = tt
    take-Sorted (suc n) (x ∷ xs) (b, s) = (take-Below n (key x) xs b, take-Sorted n xs s)

  pub flip_scores : (x y : Score) → at_least x y ≡ false → at_least y x ≡ true
  flip_scores x y e = flip (λ (s : Score). s) x y e

  module _ (confidence : ℕ → Confidence) where
    abbrev pub as_match : ℕ × Score → ClusterMatch Score
    as_match hit = record { cluster_id = hit.0; similarity = hit.1; confidence = confidence hit.0 }

    take_matches_lem :
        (k n : ℕ) (matches : List (ClusterMatch Score)) (hits : List (ℕ × Score))
        → length matches + suc k ≡ n
        → take_matches numerics similar confidence n matches hits
          ≡ matches ++ map as_match (take (suc k) hits)
    unfolding take_matches
    take_matches_lem k n matches [] e = sym (append-nil matches)
    take_matches_lem zero n matches ((i, s) ∷ rest) e =
        let counted = length-append matches (as_match (i, s) ∷ []) in
        let full : leb n (length (matches ++ (as_match (i, s) ∷ []))) ≡ true = ground arith in
        rw full refl
    take_matches_lem (suc k) n matches ((i, s) ∷ rest) e =
        let matches' = matches ++ (as_match (i, s) ∷ []) in
        let counted = length-append matches (as_match (i, s) ∷ []) in
        let room : leb n (length matches') ≡ false = ground arith in
        rw room (
          take_matches_lem k n matches' rest (omega arith)
          ∙ append_assoc matches (as_match (i, s) ∷ []) (map as_match (take (suc k) rest)))

  -- The ranking is the head of the sorted hits.
  pub rank_centroid_matches_lem :
      (v : Vector) (cs : List (ClusterCentroid Vector)) (t : Score) (n : ℕ)
      (secondary : Option Vector) (dual : Bool)
      → rank_centroid_matches numerics similar v cs t n secondary dual
        ≡ map (as_match (judge_confidence numerics similar dual secondary t cs)) (
            take n (
              sort_by numerics similar
                (λ (hit : ℕ × Score). hit.1)
                (primary_hits numerics similar v t cs)))
  unfolding rank_centroid_matches sort_by primary_hits
  rank_centroid_matches_lem v [] t zero secondary dual = refl
  rank_centroid_matches_lem v [] t (suc n) secondary dual = refl
  rank_centroid_matches_lem v (c ∷ cs) t zero secondary dual = refl
  rank_centroid_matches_lem v (c ∷ cs) t (suc n) secondary dual =
      take_matches_lem (judge_confidence numerics similar dual secondary t (c ∷ cs)) n (suc n) []
        (sort_by numerics similar (λ (hit : ℕ × Score). hit.1)
          (primary_hits numerics similar v t (c ∷ cs)))
        (omega arith)
