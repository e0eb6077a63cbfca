-- ===== src/Selfie/Examples.antt =====
-- A selfie and four clusters, with tags in place of vectors, whose product is their similarity.
use event_vision_pipeline.Base.{
  ℕ, ◌*◌, ◌≤◌, true, false, Option, none, some, List, [], ◌∷◌, ◌≡◌, ◌⊎◌, refl, arith, leb, length,
}
use event_vision_pipeline.Clustering.Incremental.Examples.{tags}
use event_vision_pipeline.ClusterStore.{ClusterRow}
use event_vision_pipeline.Selfie.{
  Similarity, ClusterCentroid, MatchConfig, high, low, matched, primary_hits, insert_by, sort_by,
  secondary_match_ids, take_matches, rank_centroid_matches, cross_validate, load_all_centroids,
  load_pgvector_candidates, match,
}
use event_vision_pipeline.Selfie.Ranking.{Sorted}
use event_vision_pipeline.Selfie.Best.{scored, AllPassing, Covered, ranking_is_best}
use event_vision_pipeline.Selfie.Dual.{by_secondary, both_models}
use event_vision_pipeline.Selfie.Nearest.{outcome, pgvector_same_outcome}

total_order : (x y : ℕ) → (leb y x ≡ true) ⊎ (leb x y ≡ true)
total_order x y = ground arith

trans_order : (x y z : ℕ) → leb y x ≡ true → leb z y ≡ true → leb z x ≡ true
trans_order x y z e f = ground arith

abbrev products : Similarity ℕ
products = record {
  Score = ℕ;
  dot = λ a b. a * b;
  at_least = λ x y. leb y x;
  at_least_total = total_order;
  at_least_trans = trans_order;
}

abbrev row : ℕ → ℕ → ℕ → Option ℕ → ClusterRow ℕ
row id event_id tag secondary = record {
  id = id;
  event_id = event_id;
  centroid = tag;
  cluster_size = 1;
  pyr_centroid = none;
  pyr_size = 0;
  secondary_centroid = secondary;
}

-- The second belongs to another event.
abbrev rows : List (ClusterRow ℕ)
rows =
    row 1 7 5 (some 2) ∷ row 9 8 8 none ∷ row 2 7 3 none ∷ row 3 7 9 (some 4) ∷ row 4 7 7 none ∷ []

abbrev centroid : ℕ → ℕ → Option ℕ → ClusterCentroid ℕ
centroid id tag secondary = record {
  cluster_id = id;
  centroid = tag;
  secondary_centroid = secondary;
}

abbrev clusters : List (ClusterCentroid ℕ)
clusters =
    centroid 1 5 (some 2) ∷ centroid 2 3 none ∷ centroid 3 9 (some 4) ∷ centroid 4 7 none ∷ []

abbrev config : MatchConfig ℕ
config = record {
  selfie_match_threshold = 4;
  max_cluster_matches = 2;
  selfie_pgvector_min_clusters = 4;
  dual_model_enabled = true;
}

found : match tags products config 7 1 (some 2) rows ≡ record {
  status = matched;
  matched_cluster_ids = 3 ∷ 4 ∷ [];
  match_details =
      record { cluster_id = 3; similarity = 9; confidence = high }
      ∷ record { cluster_id = 4; similarity = 7; confidence = low }
      ∷ [];
}
unfolding match load_all_centroids load_pgvector_candidates rank_centroid_matches take_matches
    primary_hits sort_by insert_by secondary_match_ids
found = refl

pgvector_same_outcome_example :
    outcome (match tags products config 7 1 (some 2) rows)
    ≡ outcome (
        match tags products
          (record config { selfie_pgvector_min_clusters = 100 })
          7
          1
          (some 2)
          rows)
pgvector_same_outcome_example = pgvector_same_outcome tags products config 7 1 (some 2) rows 100

both_models_example :
    rank_centroid_matches tags products 1 clusters 4 2 (some 2) true
    ≡ cross_validate
        (rank_centroid_matches tags products 1 clusters 4 2 none false)
        (rank_centroid_matches tags products 2 (by_secondary clusters) 4 4 none false)
both_models_example = both_models tags products 1 2 clusters 4 2

abbrev best_two : List (ℕ × ℕ)
best_two = scored tags products (rank_centroid_matches tags products 1 clusters 4 2 (some 2) true)

ranking_is_best_example :
    (length best_two ≤ 2)
    × (Sorted tags products (λ hit. hit.1) best_two
        × (AllPassing tags products 1 4 clusters best_two
            × Covered tags products 1 4 2 clusters best_two))
ranking_is_best_example = ranking_is_best tags products 1 4 clusters 2 (some 2) true
