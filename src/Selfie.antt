-- ===== src/Selfie.antt =====
-- ml/matching/selfie_matcher.py with ml/matching/types.py: the clusters of an event that a guest's selfie
-- matches. Scores are floats without NaN, which `at_least` orders. The query by distance of pgvector is a
-- sort of the rows, exact, as the centroids have no index. The proofs are in the modules below.
pub mod Ranking
pub mod Hits
pub mod Best
pub mod Dual
pub mod Nearest
mod Examples
use event_vision_pipeline.Base.{
  ℕ, zero, suc, ◌*◌, max, Bool, true, false, ◌&&◌, Option, none, some, List, [], ◌∷◌, ◌++◌, ◌≡◌,
  ◌⊎◌, ◌==◌, leb, length, take, map, if◌then◌else◌,
}
use event_vision_pipeline.Clustering.{Numerics}
use event_vision_pipeline.ClusterStore.{ClusterRow, among}

-- The product of two vectors, and `x >= y` on its results.
pub record Similarity (Vector : Type 0) : Type 1 where
  pub Score : Type 0
  pub dot : Vector → Vector → Score
  pub at_least : Score → Score → Bool
  pub at_least_total : (x y : Score) → (at_least x y ≡ true) ⊎ (at_least y x ≡ true)
  pub at_least_trans :
      (x y z : Score) → at_least x y ≡ true → at_least y z ≡ true → at_least x z ≡ true

pub data Confidence : Type 0 where
  high low : Confidence

-- The first three are those that `match` returns.
pub data MatchStatus : Type 0 where
  matched no_match no_clusters no_face_detected low_quality liveness_failed crop_failed
        invalid_image error :
      MatchStatus

pub record ClusterMatch (Score : Type 0) : Type 0 where
  pub cluster_id : ℕ
  pub similarity : Score
  pub confidence : Confidence

pub record ClusterCentroid (Vector : Type 0) : Type 0 where
  pub cluster_id : ℕ
  pub centroid : Vector
  pub secondary_centroid : Option Vector

-- The embedding, which is handed through, and what later steps fill in are left out.
pub record MatchResult (Score : Type 0) : Type 0 where
  pub status : MatchStatus
  pub matched_cluster_ids : List ℕ
  pub match_details : List (ClusterMatch Score)

pub record MatchConfig (Score : Type 0) : Type 0 where
  pub selfie_match_threshold : Score
  pub max_cluster_matches : ℕ
  pub selfie_pgvector_min_clusters : ℕ
  pub dual_model_enabled : Bool

abbrev pub ids {ℓ} : {S : Type ℓ} → List (ℕ × S) → List ℕ
ids [] = []
ids ((i, s) ∷ rest) = i ∷ ids rest

abbrev pub cluster_ids : {S : Type 0} → List (ClusterMatch S) → List ℕ
cluster_ids [] = []
cluster_ids (m ∷ rest) = m.cluster_id ∷ cluster_ids rest

abbrev pub confidence_of : List ℕ → ℕ → Confidence
confidence_of secondary_ids id = if among id secondary_ids then high else low

abbrev pub tag_match : {S : Type 0} → List ℕ → ClusterMatch S → ClusterMatch S
tag_match secondary_ids m = record m { confidence = confidence_of secondary_ids m.cluster_id }

unfoldable pub cross_validate :
    {S : Type 0} → List (ClusterMatch S) → List (ClusterMatch S) → List (ClusterMatch S)
cross_validate primary_matches secondary_matches =
    map (tag_match (cluster_ids secondary_matches)) primary_matches

module _ (numerics : Numerics) (similar : Similarity numerics.Vector) where
  open numerics use {Vector}
  open similar use {Score}

  abbrev Centroid : Type 0
  Centroid = ClusterCentroid Vector

  abbrev pub l2_normalize : Vector → Vector
  l2_normalize v = if numerics.norm_is_zero v then v else numerics.divide_by_norm v

  abbrev pub score_of : Vector → Vector → Score
  score_of embedding centroid = similar.dot (l2_normalize centroid) (l2_normalize embedding)

  -- A hit carries the id of its cluster in place of the index.
  pub primary_hits : Vector → Score → List Centroid → List (ℕ × Score)
  primary_hits embedding threshold [] = []
  primary_hits embedding threshold (c ∷ rest) =
      let later = primary_hits embedding threshold rest in
      if similar.at_least (score_of embedding c.centroid) threshold
      then (c.cluster_id, score_of embedding c.centroid) ∷ later
      else later

  -- A stable sort, the best first, as `list.sort` with reverse is.
  pub insert_by : {A : Type 0} → (A → Score) → A → List A → List A
  insert_by key x [] = x ∷ []
  insert_by key x (y ∷ ys) =
      let later = insert_by key x ys in
      if similar.at_least (key x) (key y) then x ∷ y ∷ ys else y ∷ later

  pub sort_by : {A : Type 0} → (A → Score) → List A → List A
  unfolding insert_by
  sort_by key [] = []
  sort_by key (x ∷ xs) = insert_by key x (sort_by key xs)

  abbrev pub secondary_hit : Vector → Score → Option Vector → Bool
  secondary_hit embedding threshold none = false
  secondary_hit embedding threshold (some centroid) =
      similar.at_least (score_of embedding centroid) threshold

  -- `_secondary_match_ids`
  pub secondary_match_ids : Vector → Score → List Centroid → List ℕ
  secondary_match_ids embedding threshold [] = []
  secondary_match_ids embedding threshold (c ∷ rest) =
      let later = secondary_match_ids embedding threshold rest in
      if secondary_hit embedding threshold c.secondary_centroid then c.cluster_id ∷ later else later

  -- The loop over the hits, with its break.
  pub take_matches :
      (ℕ → Confidence)
      → ℕ
      → List (ClusterMatch Score)
      → List (ℕ × Score)
      → List (ClusterMatch Score)
  take_matches confidence max_matches matches [] = matches
  take_matches confidence max_matches matches ((id, score) ∷ rest) =
      let matches' =
        matches
        ++ (record { cluster_id = id; similarity = score; confidence = confidence id } ∷ []) in
      let later = take_matches confidence max_matches matches' rest in
      if leb max_matches (length matches') then matches' else later

  -- The confidence of a match, without and with a second model.
  abbrev pub judge_confidence : Bool → Option Vector → Score → List Centroid → ℕ → Confidence
  judge_confidence true (some secondary) threshold clusters id =
      confidence_of (secondary_match_ids secondary threshold clusters) id
  judge_confidence _ _ threshold clusters id = high

  unfoldable pub rank_centroid_matches :
      Vector → List Centroid → Score → ℕ → Option Vector → Bool → List (ClusterMatch Score)
  rank_centroid_matches selfie_embedding [] threshold max_matches secondary dual = []
  rank_centroid_matches selfie_embedding (c ∷ cs) threshold zero secondary dual = []
  rank_centroid_matches selfie_embedding (c ∷ cs) threshold (suc n) secondary dual =
      take_matches (judge_confidence dual secondary threshold (c ∷ cs)) (suc n) []
        (sort_by (λ hit. hit.1) (primary_hits selfie_embedding threshold (c ∷ cs)))

  -- `_load_all_centroids`, the rows of the event
  pub load_all_centroids : ℕ → List (ClusterRow Vector) → List Centroid
  load_all_centroids event_id [] = []
  load_all_centroids event_id (c ∷ rest) =
      let later = load_all_centroids event_id rest in
      let row : Centroid = record {
        cluster_id = c.id;
        centroid = c.centroid;
        secondary_centroid = c.secondary_centroid;
      } in
      if c.event_id == event_id then row ∷ later else later

  -- `_load_pgvector_candidates`: the rows by their cosine distance, which falls as the similarity rises;
  -- rows at the same distance come in the order of the table.
  unfoldable pub load_pgvector_candidates :
      MatchConfig Score → ℕ → Vector → List (ClusterRow Vector) → List Centroid
  load_pgvector_candidates config event_id selfie_embedding rows =
      take (max (config.max_cluster_matches * 4) config.max_cluster_matches)
        (sort_by (λ c. score_of selfie_embedding c.centroid) (load_all_centroids event_id rows))

  abbrev pub answer : List (ClusterMatch Score) → MatchResult Score
  answer [] = record { status = no_match; matched_cluster_ids = []; match_details = [] }
  answer (m ∷ rest) = record {
    status = matched;
    matched_cluster_ids = cluster_ids (m ∷ rest);
    match_details = m ∷ rest;
  }

  abbrev pub match_found :
      MatchConfig Score
      → ℕ
      → Vector
      → Option Vector
      → List (ClusterRow Vector)
      → List Centroid
      → MatchResult Score
  match_found config event_id selfie_embedding secondary rows [] = record {
    status = no_clusters;
    matched_cluster_ids = [];
    match_details = [];
  }
  match_found config event_id selfie_embedding secondary rows (c ∷ cs) =
      let clusters =
        if leb config.selfie_pgvector_min_clusters (length (c ∷ cs))
        then load_pgvector_candidates config event_id selfie_embedding rows
        else load_all_centroids event_id rows in
      answer (
        rank_centroid_matches selfie_embedding clusters config.selfie_match_threshold
          config.max_cluster_matches secondary config.dual_model_enabled)

  -- `SelfieMatcher.match`
  unfoldable pub match :
      MatchConfig Score → ℕ → Vector → Option Vector → List (ClusterRow Vector) → MatchResult Score
  match config event_id selfie_embedding secondary rows =
      match_found config event_id selfie_embedding secondary rows (load_all_centroids event_id rows)
