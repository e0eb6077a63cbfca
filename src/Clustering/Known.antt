-- ===== src/Clustering/Known.antt =====
-- The reads of existing clusters in a merge (`_handle_merged_cluster`).
use event_vision_pipeline.Base.{
  ℕ, ◌<◌, true, some, List, [], ◌∷◌, ◌++◌, min, ◌≡◌, refl, inl, inr, arith, leb, ◌==◌, Bool-cases,
  insert, sorted, occurrences, occurrences-append, length,
}
use event_vision_pipeline.Base.Effect.{ok}
use event_vision_pipeline.Clustering.{ExistingCluster, Dict, get}
use event_vision_pipeline.Clustering.Members.{
  MemberRecord, candidates_of, max_size, tied, least, least_of, survivor, absorbed,
  crops_of_clusters,
}

module _ {Vector : Type 0} where
  -- A crop that no existing cluster holds.
  abbrev pub IsFresh : ℕ → Dict (ExistingCluster Vector) → Type 0
  IsFresh crop [] = Unit
  IsFresh crop ((id, c) ∷ rest) = (occurrences crop c.crop_ids ≡ 0) × IsFresh crop rest

module _ {Vector : Type 0} (existing : Dict (ExistingCluster Vector)) where
  abbrev pub IsFound : ℕ → Type 0
  IsFound id = (c : ExistingCluster Vector) × (get id existing ≡ some c)

  abbrev pub AllFound : List ℕ → Type 0
  AllFound [] = Unit
  AllFound (id ∷ rest) = IsFound id × AllFound rest

  -- The candidates exist, with the sizes of the clusters.
  abbrev pub AllSized : List (ℕ × ℕ) → Type 0
  AllSized [] = Unit
  AllSized ((id, size) ∷ rest) = IsFound id × AllSized rest

  -- The members stand for clusters that exist.
  abbrev pub AllKnown : List (MemberRecord Vector) → Type 0
  AllKnown [] = Unit
  AllKnown (m ∷ rest) = ((id : ℕ) × (m.cluster_id ≡ some id) × IsFound id) × AllKnown rest

  insert-AllFound : (id : ℕ) (ids : List ℕ) → IsFound id → AllFound ids → AllFound (insert id ids)
  insert-AllFound id [] f all = (f, tt)
  insert-AllFound id (x ∷ xs) f all = elim (Bool-cases (leb id x)) [
    | inl e ↦ rw e (f, all)
    | inr e ↦ rw e (all.0, insert-AllFound id xs f all.1)
  ]

  pub sorted-AllFound : (ids : List ℕ) → AllFound ids → AllFound (sorted ids)
  sorted-AllFound [] all = tt
  sorted-AllFound (x ∷ xs) all = insert-AllFound x (sorted xs) all.0 (sorted-AllFound xs all.1)

  pub absorbed-AllFound : (s : ℕ) (cs : List (ℕ × ℕ)) → AllSized cs → AllFound (absorbed s cs)
  absorbed-AllFound s [] all = tt
  absorbed-AllFound s ((id, size) ∷ rest) all = elim (Bool-cases (id == s)) [
    | inl e ↦ rw e (absorbed-AllFound s rest all.1)
    | inr e ↦ rw e (all.0, absorbed-AllFound s rest all.1)
  ]

  tied-AllFound : (n : ℕ) (cs : List (ℕ × ℕ)) → AllSized cs → AllFound (tied n cs)
  tied-AllFound n [] all = tt
  tied-AllFound n ((id, size) ∷ rest) all = elim (Bool-cases (size == n)) [
    | inl e ↦ rw e (all.0, tied-AllFound n rest all.1)
    | inr e ↦ rw e (tied-AllFound n rest all.1)
  ]

  least-IsFound : (a : ℕ) (ids : List ℕ) → IsFound a → AllFound ids → IsFound (least a ids)
  least-IsFound a [] f all = f
  least-IsFound a (b ∷ rest) f all = elim (Bool-cases (leb a b)) [
    | inl e ↦ let same : min a b ≡ a = ground arith in rw same (least-IsFound a rest f all.1)
    | inr e ↦ let same : min a b ≡ b = ground arith in rw same (least-IsFound b rest all.0 all.1)
  ]

  pub candidates_succeed :
      (ms : List (MemberRecord Vector))
      → AllKnown ms
      → (cs : List (ℕ × ℕ)) × (candidates_of existing ms ≡ ok cs)
        × AllSized cs
        × (length cs ≡ length ms)
  candidates_succeed [] known = ([], refl, tt, refl)
  candidates_succeed (m ∷ rest) known =
      let (id, named, (c, found)) = known.0 in
      let (cs, e, all, n) = candidates_succeed rest known.1 in
      ((id, c.size) ∷ cs, rw (named, found, e) refl, ((c, found), all), omega (arith, n))

  get-IsFresh :
      (crop id : ℕ) (d : Dict (ExistingCluster Vector)) (c : ExistingCluster Vector)
      → IsFresh crop d
      → get id d ≡ some c
      → occurrences crop c.crop_ids ≡ 0
  get-IsFresh crop id [] c fresh e = cc
  get-IsFresh crop id ((k, x) ∷ rest) c fresh e = elim (Bool-cases (id == k)) [
    | inl h ↦ let same = rw h at e in let first = fresh.0 in cc
    | inr h ↦ get-IsFresh crop id rest c fresh.1 (rw h at e)
  ]

  pub crops_succeed :
      (crop : ℕ) (ids : List ℕ)
      → IsFresh crop existing
      → AllFound ids
      → (crops : List ℕ) × (crops_of_clusters existing ids ≡ ok crops)
        × (occurrences crop crops ≡ 0)
  crops_succeed crop [] fresh all = ([], refl, refl)
  crops_succeed crop (id ∷ rest) fresh all =
      let (c, found) = all.0 in
      let (crops, e, n) = crops_succeed crop rest fresh all.1 in
      (
        c.crop_ids ++ crops,
        rw (found, e) refl,
        omega (
          arith,
          occurrences-append crop c.crop_ids crops,
          get-IsFresh crop id existing c fresh found,
        ),
      )

-- The greatest size is that of a candidate.
tied_some :
    (cs : List (ℕ × ℕ)) (n : ℕ)
    → n ≡ max_size cs
    → 0 < length cs
    → (id : ℕ) × (rest : List ℕ) × (tied n cs ≡ id ∷ rest)
tied_some [] n e p = absurd (omega arith)
tied_some ((id, size) ∷ []) n e p =
    let same : (size == n) ≡ true = ground arith in rw same (id, [], refl)
tied_some ((id, size) ∷ c ∷ rest) n e p = elim (Bool-cases (size == n)) [
  | inl h ↦ rw h (id, tied n (c ∷ rest), refl)
  | inr h ↦ rw h (tied_some (c ∷ rest) n (ground arith) (omega arith))
]

module _ {Vector : Type 0} (existing : Dict (ExistingCluster Vector)) where
  survivor-IsFound :
      (ids : List ℕ) (id : ℕ) (rest : List ℕ)
      → ids ≡ id ∷ rest
      → AllFound existing ids
      → (s : ℕ) × (least_of ids ≡ ok s) × IsFound existing s
  survivor-IsFound [] id rest e all = cc
  survivor-IsFound (a ∷ more) id rest e all =
      (least a more, refl, least-IsFound existing a more all.0 all.1)

  pub survivor_succeeds :
      (cs : List (ℕ × ℕ))
      → AllSized existing cs
      → 0 < length cs
      → (s : ℕ) × (survivor cs ≡ ok s) × IsFound existing s
  survivor_succeeds cs all p =
      let (id, rest, e) = tied_some cs (max_size cs) refl p in
      survivor-IsFound (tied (max_size cs) cs) id rest e
        (tied-AllFound existing (max_size cs) cs all)
