-- ===== src/Selfie/Hits.antt =====
-- The hits of ml/matching/selfie_matcher.py among sorted clusters, and the ids of a ranking.
use event_vision_pipeline.Base.{
  ℕ, zero, suc, ◌≤◌, Bool, true, false, Option, List, [], ◌∷◌, ◌≡◌, refl, sym, ap, ◌∙◌, inl, inr,
  arith, Bool-cases, take, map,
}
use event_vision_pipeline.Clustering.{Numerics}
use event_vision_pipeline.Selfie.{
  Similarity, Confidence, ClusterCentroid, score_of, primary_hits, insert_by, sort_by,
  judge_confidence, rank_centroid_matches, cluster_ids, ids,
}
use event_vision_pipeline.Selfie.Ranking.{
  Below, Below-trans, take-Below, Sorted, sort_by-Sorted, insert_by_first, sort_by_fixed,
  take-Sorted, flip_scores, as_match, rank_centroid_matches_lem,
}

module _ (numerics : Numerics) (similar : Similarity numerics.Vector) where
  open numerics use {Vector}
  open similar use {Score, at_least}

  module _ (v : Vector) (t : Score) where
    abbrev pub score : ClusterCentroid Vector → Score
    score c = score_of numerics similar v c.centroid

    abbrev pub hit_score : ℕ × Score → Score
    hit_score hit = hit.1

    abbrev pub hits : List (ClusterCentroid Vector) → List (ℕ × Score)
    hits cs = primary_hits numerics similar v t cs

    hits-Below :
        (s : Score) (cs : List (ClusterCentroid Vector))
        → Below numerics similar score s cs
        → Below numerics similar hit_score s (hits cs)
    unfolding primary_hits
    hits-Below s [] b = tt
    hits-Below s (c ∷ cs) (h, b) = elim (Bool-cases (at_least (score c) t)) [
      | inl q ↦ rw q (h, hits-Below s cs b)
      | inr q ↦ rw q (hits-Below s cs b)
    ]

    -- Below a cluster that is no hit there are no hits.
    hits-none :
        (s : Score) (cs : List (ClusterCentroid Vector))
        → Below numerics similar score s cs
        → at_least s t ≡ false
        → hits cs ≡ []
    unfolding primary_hits
    hits-none s [] b e = refl
    hits-none s (c ∷ cs) (h, b) e = elim (Bool-cases (at_least (score c) t)) [
      | inl q ↦ let reached = similar.at_least_trans s (score c) t h q in cc
      | inr q ↦ rw q (hits-none s cs b e)
    ]

    hits-insert_other :
        (c : ClusterCentroid Vector) (cs : List (ClusterCentroid Vector))
        → at_least (score c) t ≡ false
        → hits (insert_by numerics similar score c cs) ≡ hits cs
    unfolding primary_hits insert_by
    hits-insert_other c [] e = rw e refl
    hits-insert_other c (d ∷ ds) e = elim (Bool-cases (at_least (score c) (score d))) [
      | inl q ↦ rw q (rw e refl)
      | inr q ↦ rw q (simp (hits-insert_other c ds e))
    ]

    hits-insert_hit :
        (c : ClusterCentroid Vector) (cs : List (ClusterCentroid Vector))
        → Sorted numerics similar score cs
        → at_least (score c) t ≡ true
        → hits (insert_by numerics similar score c cs)
          ≡ insert_by numerics similar hit_score (c.cluster_id, score c) (hits cs)
    unfolding primary_hits insert_by
    hits-insert_hit c [] s e = rw e refl
    hits-insert_hit c (d ∷ ds) (b, s) e = elim (Bool-cases (at_least (score c) (score d))) [
      | inl q ↦
          let c_first : hits (c ∷ d ∷ ds) ≡ (c.cluster_id, score c) ∷ hits (d ∷ ds) = rw e refl in
          let b' : Below numerics similar score (score c) (d ∷ ds) =
            (q, Below-trans numerics similar score (score c) (score d) ds q b) in
          ap (λ cs. hits cs) (insert_by_first numerics similar score c (d ∷ ds) b')
          ∙ c_first
          ∙ sym (
              insert_by_first numerics similar hit_score (c.cluster_id, score c) (hits (d ∷ ds))
                (hits-Below (score c) (d ∷ ds) b'))
      | inr q ↦
          let d_hit : at_least (score d) t ≡ true =
            similar.at_least_trans (score d) (score c) t
              (flip_scores numerics similar (score c) (score d) q) e in
          rw q
            (rw d_hit (rw q (ap (λ hs. (d.cluster_id, score d) ∷ hs) (hits-insert_hit c ds s e))))
    ]

    hits-sort :
        (cs : List (ClusterCentroid Vector))
        → hits (sort_by numerics similar score cs) ≡ sort_by numerics similar hit_score (hits cs)
    unfolding sort_by primary_hits
    hits-sort [] = refl
    hits-sort (c ∷ cs) = elim (Bool-cases (at_least (score c) t)) [
      | inl q ↦ rw q (
          hits-insert_hit c (sort_by numerics similar score cs)
            (sort_by-Sorted numerics similar score cs) q
          ∙ ap (λ hs. insert_by numerics similar hit_score (c.cluster_id, score c) hs)
              (hits-sort cs))
      | inr q ↦ rw q (hits-insert_other c (sort_by numerics similar score cs) q ∙ hits-sort cs)
    ]

    -- The first matches are among the first clusters.
    take-hits-take :
        (m n : ℕ) (cs : List (ClusterCentroid Vector))
        → Sorted numerics similar score cs
        → m ≤ n
        → take m (hits (take n cs)) ≡ take m (hits cs)
    unfolding primary_hits
    take-hits-take zero n cs s h = refl
    take-hits-take (suc m) zero cs s h = absurd (omega arith)
    take-hits-take (suc m) (suc n) [] s h = refl
    take-hits-take (suc m) (suc n) (c ∷ cs) (b, s) h = elim (Bool-cases (at_least (score c) t)) [
      | inl q ↦
          rw q (ap (λ hs. (c.cluster_id, score c) ∷ hs) (take-hits-take m n cs s (omega arith)))
      | inr q ↦ rw q (
          ap (λ hs. take (suc m) hs)
            (hits-none (score c) (take n cs) (take-Below numerics similar score n (score c) cs b) q
              ∙ sym (hits-none (score c) cs b q)))
    ]

    abbrev pub best_hits : ℕ → List (ClusterCentroid Vector) → List (ℕ × Score)
    best_hits m cs = take m (sort_by numerics similar hit_score (hits cs))

    pub best_hits_lem :
        (m n : ℕ) (cs : List (ClusterCentroid Vector))
        → m ≤ n
        → best_hits m (take n (sort_by numerics similar score cs)) ≡ best_hits m cs
    best_hits_lem m n cs h =
        let sorted = sort_by numerics similar score cs in
        let is_sorted = sort_by-Sorted numerics similar score cs in
        let some_sorted = take-Sorted numerics similar score n sorted is_sorted in
        ap (λ hs. take m hs) (sym (hits-sort (take n sorted)))
        ∙ ap (λ ds. take m (hits ds))
            (sort_by_fixed numerics similar score (take n sorted) some_sorted)
        ∙ take-hits-take m n sorted is_sorted h
        ∙ ap (λ hs. take m hs) (hits-sort cs)

    module _ (secondary : Option Vector) (dual : Bool) where
      cluster_ids-as_match :
          (tag : ℕ → Confidence) (hs : List (ℕ × Score))
          → cluster_ids (map (as_match numerics similar tag) hs) ≡ ids hs
      cluster_ids-as_match tag [] = refl
      cluster_ids-as_match tag (h ∷ hs) = ap (λ is. h.0 ∷ is) (cluster_ids-as_match tag hs)

      pub ranked_ids :
          (m : ℕ) (cs : List (ClusterCentroid Vector))
          → cluster_ids (rank_centroid_matches numerics similar v cs t m secondary dual)
            ≡ ids (best_hits m cs)
      ranked_ids m cs =
          ap (λ ms. cluster_ids ms)
            (rank_centroid_matches_lem numerics similar v cs t m secondary dual)
          ∙ cluster_ids-as_match (judge_confidence numerics similar dual secondary t cs)
              (best_hits m cs)

      pub same_ids :
          (m n : ℕ) (cs : List (ClusterCentroid Vector))
          → m ≤ n
          → cluster_ids (
              rank_centroid_matches numerics similar v
                (take n (sort_by numerics similar score cs))
                t
                m
                secondary
                dual)
            ≡ cluster_ids (rank_centroid_matches numerics similar v cs t m secondary dual)
      same_ids m n cs h =
          ranked_ids m (take n (sort_by numerics similar score cs))
          ∙ ap (λ hs. ids hs) (best_hits_lem m n cs h)
          ∙ sym (ranked_ids m cs)
