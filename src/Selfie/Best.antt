-- ===== src/Selfie/Best.antt =====
-- What `rank_centroid_matches` of ml/matching/selfie_matcher.py answers: the best of the clusters that reach
-- the threshold.
use event_vision_pipeline.Base.{
  ℕ, zero, suc, ◌≤◌, Bool, true, false, Option, List, [], ◌∷◌, ◌≡◌, refl, sym, ap, subst, ◌∙◌, ◌⊎◌,
  inl, inr, arith, Bool-cases, length, take, map,
}
use event_vision_pipeline.Clustering.{Numerics}
use event_vision_pipeline.Selfie.{
  Similarity, Confidence, ClusterMatch, ClusterCentroid, score_of, primary_hits, insert_by, sort_by,
  judge_confidence, rank_centroid_matches,
}
use event_vision_pipeline.Selfie.Ranking.{
  Below, Sorted, sort_by-Sorted, take-Sorted, as_match, rank_centroid_matches_lem,
}

abbrev pub Within : {A : Type 0} → A → List A → Type 0
Within x [] = ⊥
Within x (y ∷ ys) = (x ≡ y) ⊎ Within x ys

Within-take : {A : Type 0} (x : A) (n : ℕ) (xs : List A) → Within x (take n xs) → Within x xs
Within-take x zero xs w = absurd w
Within-take x (suc n) [] w = w
Within-take x (suc n) (y ∷ ys) (inl e) = inl e
Within-take x (suc n) (y ∷ ys) (inr w) = inr (Within-take x n ys w)

take-length : {A : Type 0} (n : ℕ) (xs : List A) → length (take n xs) ≤ n
take-length zero xs = omega arith
take-length (suc n) [] = omega arith
take-length (suc n) (x ∷ xs) = omega (arith, take-length n xs)

module _ (numerics : Numerics) (similar : Similarity numerics.Vector) where
  open numerics use {Vector}
  open similar use {Score, at_least}

  abbrev Hit : Type 0
  Hit = ℕ × Score

  abbrev hit_score : Hit → Score
  hit_score hit = hit.1

  abbrev sort : List Hit → List Hit
  sort hs = sort_by numerics similar hit_score hs

  insert-Within :
      (h x : Hit) (hs : List Hit)
      → (h ≡ x) ⊎ Within h hs
      → Within h (insert_by numerics similar hit_score x hs)
  unfolding insert_by
  insert-Within h x [] w = w
  insert-Within h x (y ∷ ys) w = elim (Bool-cases (at_least x.1 y.1)) [
    | inl q ↦ rw q w
    | inr q ↦ rw q (elim w [
      | inl e ↦ inr (insert-Within h x ys (inl e))
      | inr (inl e) ↦ inl e
      | inr (inr v) ↦ inr (insert-Within h x ys (inr v))
    ])
  ]

  Within-insert :
      (h x : Hit) (hs : List Hit)
      → Within h (insert_by numerics similar hit_score x hs)
      → (h ≡ x) ⊎ Within h hs
  unfolding insert_by
  Within-insert h x [] w = w
  Within-insert h x (y ∷ ys) w = elim (Bool-cases (at_least x.1 y.1)) [
    | inl q ↦ rw q at w
    | inr q ↦ elim (rw q at w) [
      | inl e ↦ inr (inl e)
      | inr v ↦ elim (Within-insert h x ys v) [ inl e ↦ inl e | inr u ↦ inr (inr u) ]
    ]
  ]

  sort-Within : (h : Hit) (hs : List Hit) → Within h hs → Within h (sort hs)
  unfolding sort_by
  sort-Within h [] w = w
  sort-Within h (x ∷ xs) (inl e) = insert-Within h x (sort xs) (inl e)
  sort-Within h (x ∷ xs) (inr w) = insert-Within h x (sort xs) (inr (sort-Within h xs w))

  Within-sort : (h : Hit) (hs : List Hit) → Within h (sort hs) → Within h hs
  unfolding sort_by
  Within-sort h [] w = w
  Within-sort h (x ∷ xs) w = elim (Within-insert h x (sort xs) w) [
    | inl e ↦ inl e
    | inr u ↦ inr (Within-sort h xs u)
  ]

  -- No score is below the given one.
  abbrev pub Above : Score → List Hit → Type 0
  Above s [] = Unit
  Above s (h ∷ hs) = (at_least h.1 s ≡ true) × Above s hs

  Below-Within :
      (s : Score) (h : Hit) (hs : List Hit)
      → Below numerics similar hit_score s hs
      → Within h hs
      → at_least s h.1 ≡ true
  Below-Within s h [] b w = absurd w
  Below-Within s h (x ∷ xs) (q, b) (inl e) = subst (λ (x : Hit). at_least s x.1 ≡ true) (sym e) q
  Below-Within s h (x ∷ xs) (q, b) (inr w) = Below-Within s h xs b w

  -- The hits that are left out are no better than those that are taken.
  taken_or_full :
      (n : ℕ) (h : Hit) (hs : List Hit)
      → Sorted numerics similar hit_score hs
      → Within h hs
      → Within h (take n hs) ⊎ ((length (take n hs) ≡ n) × Above h.1 (take n hs))
  taken_or_full zero h hs s w = inr (refl, tt)
  taken_or_full (suc n) h [] s w = absurd w
  taken_or_full (suc n) h (x ∷ xs) s (inl e) = inl (inl e)
  taken_or_full (suc n) h (x ∷ xs) (b, s) (inr w) = elim (taken_or_full n h xs s w) [
    | inl u ↦ inl (inr u)
    | inr (full, above) ↦ inr (ap (λ (k : ℕ). suc k) full, (Below-Within x.1 h xs b w, above))
  ]

  -- The ids of the matches with their similarities.
  abbrev pub scored : List (ClusterMatch Score) → List Hit
  scored [] = []
  scored (m ∷ ms) = (m.cluster_id, m.similarity) ∷ scored ms

  scored-as_match :
      (tag : ℕ → Confidence) (hs : List Hit) → scored (map (as_match numerics similar tag) hs) ≡ hs
  scored-as_match tag [] = refl
  scored-as_match tag (h ∷ hs) = ap (λ rest. h ∷ rest) (scored-as_match tag hs)

  module _ (v : Vector) (t : Score) where
    abbrev pub score : ClusterCentroid Vector → Score
    score c = score_of numerics similar v c.centroid

    -- Each match is a cluster with its score, and the score reaches the threshold.
    abbrev pub Passing : Hit → List (ClusterCentroid Vector) → Type 0
    Passing h [] = ⊥
    Passing h (c ∷ cs) =
        ((h ≡ (c.cluster_id, score c)) × (at_least (score c) t ≡ true)) ⊎ Passing h cs

    abbrev pub AllPassing : List (ClusterCentroid Vector) → List Hit → Type 0
    AllPassing cs [] = Unit
    AllPassing cs (h ∷ hs) = Passing h cs × AllPassing cs hs

    -- Each cluster misses the threshold, is among the matches, or finds n matches that are no worse.
    abbrev pub Covered : ℕ → List (ClusterCentroid Vector) → List Hit → Type 0
    Covered n [] hs = Unit
    Covered n (c ∷ cs) hs =
        ((at_least (score c) t ≡ false)
          ⊎ (Within (c.cluster_id, score c) hs ⊎ ((length hs ≡ n) × Above (score c) hs)))
        × Covered n cs hs

    abbrev hits : List (ClusterCentroid Vector) → List Hit
    hits cs = primary_hits numerics similar v t cs

    hits-Passing :
        (h : Hit) (cs : List (ClusterCentroid Vector)) → Within h (hits cs) → Passing h cs
    unfolding primary_hits
    hits-Passing h [] w = w
    hits-Passing h (c ∷ cs) w = elim (Bool-cases (at_least (score c) t)) [
      | inl q ↦ elim (rw q at w) [ inl e ↦ inl (e, q) | inr u ↦ inr (hits-Passing h cs u) ]
      | inr q ↦ inr (hits-Passing h cs (rw q at w))
    ]

    all_passing :
        (cs : List (ClusterCentroid Vector)) (hs : List Hit)
        → ((h : Hit) → Within h hs → Within h (hits cs))
        → AllPassing cs hs
    all_passing cs [] f = tt
    all_passing cs (h ∷ hs) f =
        (hits-Passing h cs (f h (inl refl)), all_passing cs hs (λ x w. f x (inr w)))

    abbrev best : ℕ → List (ClusterCentroid Vector) → List Hit
    best n cs = take n (sort (hits cs))

    covered :
        (n : ℕ) (all cs : List (ClusterCentroid Vector))
        → ((h : Hit) → Within h (hits cs) → Within h (hits all))
        → Covered n cs (best n all)
    unfolding primary_hits
    covered n all [] f = tt
    covered n all (c ∷ cs) f = elim (Bool-cases (at_least (score c) t)) [
      | inr q ↦ (inl q, covered n all cs (λ h w. f h (rw q w)))
      | inl q ↦ (
        inr (
            taken_or_full n (c.cluster_id, score c) (sort (hits all))
              (sort_by-Sorted numerics similar hit_score (hits all))
              (sort-Within (c.cluster_id, score c) (hits all)
                (f (c.cluster_id, score c) (rw q (inl refl))))),
        covered n all cs (λ h w. f h (rw q (inr w))),
      )
    ]

    abbrev IsBest : ℕ → List (ClusterCentroid Vector) → List Hit → Type 0
    IsBest n cs hs =
        (length hs ≤ n)
        × (Sorted numerics similar hit_score hs × (AllPassing cs hs × Covered n cs hs))

    best-IsBest : (n : ℕ) (cs : List (ClusterCentroid Vector)) → IsBest n cs (best n cs)
    best-IsBest n cs =
        let sorted = sort (hits cs) in
        (
          take-length n sorted,
          (
            take-Sorted numerics similar hit_score n sorted
                (sort_by-Sorted numerics similar hit_score (hits cs)),
            (
              all_passing cs (best n cs)
                  (λ h w. Within-sort h (hits cs) (Within-take h n sorted w)),
              covered n cs cs (λ h w. w),
            ),
          ),
        )

    -- A ranking has at most as many matches as it may, the best first, and each is a cluster whose
    -- similarity reaches the threshold. It leaves out such a cluster only where it has as many matches as
    -- it may, all of them at least as similar.
    pub ranking_is_best :
        (cs : List (ClusterCentroid Vector)) (n : ℕ) (secondary : Option Vector) (dual : Bool)
        → let hs = scored (rank_centroid_matches numerics similar v cs t n secondary dual) in
          (length hs ≤ n)
          × (Sorted numerics similar hit_score hs × (AllPassing cs hs × Covered n cs hs))
    ranking_is_best cs n secondary dual =
        subst (λ (hs : List Hit). IsBest n cs hs)
          (sym (
            ap (λ ms. scored ms)
              (rank_centroid_matches_lem numerics similar v cs t n secondary dual)
            ∙ scored-as_match (judge_confidence numerics similar dual secondary t cs) (best n cs)))
          (best-IsBest n cs)
