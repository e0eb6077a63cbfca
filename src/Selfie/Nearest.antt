-- ===== src/Selfie/Nearest.antt =====
-- The two ways of `SelfieMatcher.match` in ml/matching/selfie_matcher.py to get the clusters that are
-- ranked: all of the event, or the nearest that pgvector answers.
use event_vision_pipeline.Base.{
  ℕ, ◌*◌, max, Bool, true, false, Option, List, [], ◌∷◌, ◌≡◌, refl, sym, ap, ◌∙◌, arith, length,
  leb, if◌then◌else◌,
}
use event_vision_pipeline.Clustering.{Numerics}
use event_vision_pipeline.ClusterStore.{ClusterRow}
use event_vision_pipeline.Selfie.{
  Similarity, ClusterMatch, ClusterCentroid, MatchConfig, MatchResult, MatchStatus, matched, answer,
  match_found, rank_centroid_matches, cluster_ids, load_all_centroids, load_pgvector_candidates,
  match,
}
use event_vision_pipeline.Selfie.Hits.{same_ids}

-- The outcome, without the confidences.
abbrev pub outcome : {S : Type 0} → MatchResult S → MatchStatus × List ℕ
outcome result = (result.status, result.matched_cluster_ids)

module _ (numerics : Numerics) (similar : Similarity numerics.Vector) where
  open numerics use {Vector}
  open similar use {Score, at_least}

  module _ (config : MatchConfig Score) (event_id : ℕ) (v : Vector) (secondary : Option Vector)
      (rows : List (ClusterRow Vector)) where
    abbrev ranked : List (ClusterCentroid Vector) → List (ClusterMatch Score)
    ranked cs =
        rank_centroid_matches numerics similar v cs config.selfie_match_threshold
          config.max_cluster_matches secondary config.dual_model_enabled

    -- Both ways lead to the same clusters.
    chosen_ids :
        (nearest : Bool)
        → cluster_ids (
            ranked (
              if nearest
              then load_pgvector_candidates numerics similar config event_id v rows
              else load_all_centroids numerics similar event_id rows))
          ≡ cluster_ids (ranked (load_all_centroids numerics similar event_id rows))
    unfolding load_pgvector_candidates
    chosen_ids false = refl
    chosen_ids true =
        same_ids numerics similar v config.selfie_match_threshold secondary
          config.dual_model_enabled config.max_cluster_matches
          (max (config.max_cluster_matches * 4) config.max_cluster_matches)
          (load_all_centroids numerics similar event_id rows) (omega arith)

    answer_of :
        (ms ms' : List (ClusterMatch Score))
        → cluster_ids ms ≡ cluster_ids ms'
        → outcome (answer numerics similar ms) ≡ outcome (answer numerics similar ms')
    answer_of [] [] e = refl
    answer_of [] (m ∷ ms) e = cc
    answer_of (m ∷ ms) [] e = cc
    answer_of (m ∷ ms) (m' ∷ ms') e = ap (λ is. (matched, is)) e

    found_same :
        (k : ℕ) (cs : List (ClusterCentroid Vector))
        → outcome (match_found numerics similar config event_id v secondary rows cs)
          ≡ outcome (
              match_found numerics similar
                (record config { selfie_pgvector_min_clusters = k })
                event_id
                v
                secondary
                rows
                cs)
    unfolding load_pgvector_candidates
    found_same k [] = refl
    found_same k (c ∷ cs) = answer_of _ _ (
        chosen_ids (leb config.selfie_pgvector_min_clusters (length (c ∷ cs)))
        ∙ sym (chosen_ids (leb k (length (c ∷ cs)))))

    -- The clusters that a selfie matches, and the status, do not depend on the number of clusters from
    -- which on pgvector is asked for the nearest: a query for four times as many clusters as the answer may
    -- have leaves out no match. The query is taken as exact, with ties in the order of the table, and the
    -- tags of confidence are not compared.
    pub pgvector_same_outcome :
        (k : ℕ)
        → outcome (match numerics similar config event_id v secondary rows)
          ≡ outcome (
              match numerics similar
                (record config { selfie_pgvector_min_clusters = k })
                event_id
                v
                secondary
                rows)
    unfolding match
    pgvector_same_outcome k = found_same k (load_all_centroids numerics similar event_id rows)
