-- ===== src/Clustering/Incremental/Labels.antt =====
-- The labels of the rows (`cluster` of ml/clustering/incremental_clusterer.py) and the lookups by
-- label.
use event_vision_pipeline.Base.{
  ℕ, ◌+◌, ◌≤◌, ◌<◌, Option, none, some, List, [], ◌∷◌, ◌≡◌, refl, ◌∙◌, sym, inl, inr, arith, ◌==◌,
  ◌≢◌, Bool-cases, Option-cases, occurrences, occurrences-sorted, occurrences-distinct, sorted,
  distinct, add, length,
}
use event_vision_pipeline.Base.Effect.{ok}
use event_vision_pipeline.Clustering.{Numerics, ExistingCluster, Dict, get, ClusterError}
use event_vision_pipeline.Clustering.Members.{
  MemberRecord, labels_of, zip_or, index_labels, agglo_labels_of, note_noise,
}
use event_vision_pipeline.Clustering.Incremental.{Vector, normalized_means, perform_agglomerative}
use event_vision_pipeline.Clustering.Incremental.Groups.{
  hits, labelled, Covers, RowsSound, AllSound,
}

abbrev pub zip : {A B : Type 0} → List A → List B → List (A × B)
zip [] ys = []
zip (x ∷ xs) [] = []
zip (x ∷ xs) (y ∷ ys) = (x, y) ∷ zip xs ys

pub zip_or-zip :
    {A B : Type 0} (e : ClusterError) (xs : List A) (ys : List B)
    → length xs ≡ length ys
    → zip_or e xs ys ≡ ok (zip xs ys)
zip_or-zip e [] [] h = refl
zip_or-zip e [] (y ∷ ys) h = absurd (omega arith)
zip_or-zip e (x ∷ xs) [] h = absurd (omega arith)
zip_or-zip e (x ∷ xs) (y ∷ ys) h = rw (zip_or-zip e xs ys (omega arith)) refl

-- A lookup of each label that occurs succeeds.
abbrev pub Indexes : Dict ℕ → List (Option ℕ) → Type 0
Indexes dict [] = Unit
Indexes dict (none ∷ rest) = Indexes dict rest
Indexes dict (some l ∷ rest) = ((a : ℕ) × (get l dict ≡ some a)) × Indexes dict rest

pub index_labels_succeeds :
    (groups labels : List ℕ)
    → length groups ≡ length labels
    → (dict : Dict ℕ) × (index_labels groups labels ≡ ok dict)
      × ((l : ℕ) → 0 < occurrences l groups → (a : ℕ) × (get l dict ≡ some a))
index_labels_succeeds [] labels h = ([], refl, λ l p. absurd (omega arith))
index_labels_succeeds (g ∷ rest) [] h = absurd (omega arith)
index_labels_succeeds (g ∷ rest) (a ∷ labels) h =
    let (dict, e, found) = index_labels_succeeds rest labels (omega arith) in
    (
      (g, a) ∷ dict,
      rw e refl,
      λ l p. elim (Bool-cases (l == g)) [
        | inl s ↦ (a, rw s refl)
        | inr s ↦ let (b, f) = found l (ground arith) in (b, rw s f)
      ],
    )

-- sorted(set(labels)) has each label once.
pub sorted_set_once :
    (l : ℕ) (labels : List ℕ)
    → 0 < occurrences l labels
    → occurrences l (sorted (distinct labels)) ≡ 1
sorted_set_once l labels p =
    ground (arith, occurrences-sorted l (distinct labels), occurrences-distinct l labels)

pub all-Indexes :
    (dict : Dict ℕ) (labels : List (Option ℕ))
    → ((l : ℕ) → 0 < occurrences l (labels_of labels) → (a : ℕ) × (get l dict ≡ some a))
    → Indexes dict labels
all-Indexes dict [] f = tt
all-Indexes dict (none ∷ rest) f = all-Indexes dict rest f
all-Indexes dict (some l ∷ rest) f =
    (f l (ground arith), all-Indexes dict rest (λ x p. f x (ground arith)))

pub zip-Covers :
    {V : Type 0} (set : List ℕ) (ms : List (MemberRecord V)) (labels : List (Option ℕ))
    → ((l : ℕ) → 0 < occurrences l (labels_of labels) → occurrences l set ≡ 1)
    → Covers set (zip ms labels)
zip-Covers set [] labels f = tt
zip-Covers set (m ∷ ms) [] f = tt
zip-Covers set (m ∷ ms) (none ∷ rest) f = zip-Covers set ms rest f
zip-Covers set (m ∷ ms) (some l ∷ rest) f =
    (f l (ground arith), zip-Covers set ms rest (λ x p. f x (ground arith)))

pub zip-RowsSound :
    {V : Type 0} (existing : Dict (ExistingCluster V)) (ms : List (MemberRecord V))
    (labels : List (Option ℕ))
    → AllSound existing ms
    → RowsSound existing (zip ms labels)
zip-RowsSound existing [] labels s = tt
zip-RowsSound existing (m ∷ ms) [] s = tt
zip-RowsSound existing (m ∷ ms) (l ∷ rest) s = (s.0, zip-RowsSound existing ms rest s.1)

pub length-agglo_labels_of :
    (dict : Dict ℕ) (labels : List (Option ℕ))
    → length (agglo_labels_of dict labels) ≡ length labels
length-agglo_labels_of dict [] = refl
length-agglo_labels_of dict (none ∷ rest) = omega (arith, length-agglo_labels_of dict rest)
length-agglo_labels_of dict (some l ∷ rest) = omega (arith, length-agglo_labels_of dict rest)

module _ {V : Type 0} (crop : ℕ) where
  -- How often the crop is among the rows without a label.
  abbrev pub noise : List (MemberRecord V × Option ℕ) → ℕ
  noise [] = 0
  noise ((m, none) ∷ rest) = hits crop (m ∷ []) + noise rest
  noise ((m, some l) ∷ rest) = noise rest

  pub occurrences-note_noise :
      (rows : List (MemberRecord V × Option ℕ)) (u : List ℕ)
      → noise rows + occurrences crop u ≤ 1
      → occurrences crop (note_noise rows u) ≡ noise rows + occurrences crop u
  occurrences-note_noise [] u h = omega arith
  occurrences-note_noise ((m, some l) ∷ rest) u h = occurrences-note_noise rest u h
  occurrences-note_noise ((m, none) ∷ rest) u h = elim (Bool-cases m.is_centroid) [
    | inl e ↦ let k = rw e at h in rw e (omega (arith, occurrences-note_noise rest u (omega arith)))
    | inr e ↦
        let k = rw e at h in
        rw e (elim (Bool-cases (crop == m.embedding_id)) [
          | inl s ↦ ground (arith, occurrences-note_noise rest (add m.embedding_id u))
          | inr s ↦ ground (arith, occurrences-note_noise rest (add m.embedding_id u))
        ])
  ]

  -- A crop that is noise to DBSCAN has no label after the merging, and any other has one.
  pub noise_or_labelled :
      (dict : Dict ℕ) (ms : List (MemberRecord V)) (labels : List (Option ℕ))
      → length ms ≡ length labels
      → Indexes dict labels
      → noise (zip ms labels) + labelled crop (zip ms (agglo_labels_of dict labels)) ≡ hits crop ms
  noise_or_labelled dict [] labels h i = refl
  noise_or_labelled dict (m ∷ ms) [] h i = absurd (omega arith)
  noise_or_labelled dict (m ∷ ms) (none ∷ rest) h i =
      ground (arith, noise_or_labelled dict ms rest (omega arith) i)
  noise_or_labelled dict (m ∷ ms) (some l ∷ rest) h i =
      let (a, e) = i.0 in rw e (ground (arith, noise_or_labelled dict ms rest (omega arith) i.1))

module _ (numerics : Numerics) where
  length-normalized_means :
      (rows : List (Vector numerics × Option ℕ)) (labels : List ℕ)
      → length (normalized_means numerics rows labels) ≡ length labels
  length-normalized_means rows [] = refl
  length-normalized_means rows (l ∷ rest) = omega (arith, length-normalized_means rows rest)

  -- The merging does not raise.
  abbrev pub Merges : Type 0
  Merges = (vectors : List (Vector numerics)) → numerics.agglomerative vectors ≢ none

  perform_agglomerative_succeeds :
      Merges
      → (vectors : List (Vector numerics))
      → (labels : List ℕ) × (perform_agglomerative numerics vectors ≡ ok labels)
        × (length labels ≡ length vectors)
  unfolding perform_agglomerative
  perform_agglomerative_succeeds merges [] = ([], refl, refl)
  perform_agglomerative_succeeds merges (v ∷ []) = (0 ∷ [], refl, refl)
  perform_agglomerative_succeeds merges (v ∷ w ∷ rest) =
      elim (Option-cases (numerics.agglomerative (v ∷ w ∷ rest))) [
        | inl e ↦ absurd (merges (v ∷ w ∷ rest) e)
        | inr (labels, e) ↦
            (labels, rw e refl, numerics.agglomerative_length (v ∷ w ∷ rest) labels e)
      ]

  pub agglomerative_succeeds :
      (rows : List (Vector numerics × Option ℕ)) (groups : List ℕ)
      → Merges
      → (labels : List ℕ) × (perform_agglomerative numerics (normalized_means numerics rows groups)
          ≡ ok labels)
        × (length groups ≡ length labels)
  agglomerative_succeeds rows groups merges =
      let (labels, e, n) =
        perform_agglomerative_succeeds merges (normalized_means numerics rows groups) in
      (labels, e, sym (n ∙ length-normalized_means rows groups))
