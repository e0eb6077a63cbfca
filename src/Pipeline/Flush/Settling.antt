-- ===== src/Pipeline/Flush/Settling.antt =====
-- The photos that wait for a flush, and the round of `_persist_passed_crops` in ml/pipeline.py that settles
-- those of a flush.
use event_vision_pipeline.Base.{
  ℕ, ◌+◌, ◌<◌, ◌≤◌, Bool, true, Option, none, some, List, [], ◌∷◌, ◌≡◌, ◌≢◌, refl, ap, inl, inr,
  arith, ◌==◌, length, occurrences, Bool-cases,
}
use event_vision_pipeline.Pipeline.{
  PhotoRow, ProcessingResult, Models, FaceCropWithMeta, Dict, keys, lookup, get_photo, append_id,
}
use event_vision_pipeline.Pipeline.Flush.{
  Awaiting, photo_ids_of, ids_by_photo, extend_result, finish_awaiting, settle_photo, settle_photos,
}
use event_vision_pipeline.Pipeline.Flush.State.{
  face_state, processed_too, face_state-finish, get_photo_lem, get_photo-none, keys-extend_result,
  keys-pop, length-keys, length-pop, lookup-some, lookup-none,
}

pub processed_too-some : (o : Option Bool) → o ≢ none → processed_too o ≡ some true
processed_too-some none n = absurd (n refl)
processed_too-some (some b) n = refl

-- A photo of the flush is among the groups of its ids.
keys-append_id :
    (j k id : ℕ) (d : Dict (List ℕ))
    → (0 < occurrences j (keys d) → 0 < occurrences j (keys (append_id k id d)))
      × (j ≡ k → 0 < occurrences j (keys (append_id k id d)))
keys-append_id j k id [] = (λ h. absurd (omega arith), λ e. ground arith)
keys-append_id j k id ((i, ids) ∷ rest) = ground (arith, keys-append_id j k id rest)

pub keys-ids_by_photo :
    {models : Models} (j : ℕ) (cs : List (FaceCropWithMeta models)) (ids : List ℕ)
    (d : Dict (List ℕ))
    → length ids ≡ length cs
    → 0 < occurrences j (photo_ids_of cs) + occurrences j (keys d)
    → 0 < occurrences j (keys (ids_by_photo cs ids d))
keys-ids_by_photo j [] [] d e h = omega arith
keys-ids_by_photo j [] (id ∷ ids) d e h = absurd (omega arith)
keys-ids_by_photo j (c ∷ cs) [] d e h = absurd (omega arith)
keys-ids_by_photo j (c ∷ cs) (id ∷ ids) d e h =
    keys-ids_by_photo j cs ids (append_id c.photo_id id d) (omega arith)
      (ground (arith, keys-append_id j c.photo_id id d))

module _ {models : Models} where
  abbrev pub waits : ℕ → Awaiting models → ℕ
  waits j a = occurrences j (keys a.awaiting)

  abbrev pub state_of : ℕ → Awaiting models → Option Bool
  state_of j a = face_state j a.tables.photos

  -- No photo starts to wait, one that stops is marked as processed, and no mark or row is lost.
  abbrev pub Follows : ℕ → Awaiting models → Awaiting models → Type 0
  Follows j a a' =
      (waits j a' ≤ waits j a)
      × (waits j a' < waits j a → state_of j a' ≡ some true)
      × (state_of j a ≡ some true → state_of j a' ≡ some true)
      × (state_of j a' ≡ none → state_of j a ≡ none)

  -- Each photo that stops to wait is counted.
  abbrev pub Settles : Awaiting models → Awaiting models → Type 0
  Settles a a' =
      (a'.count + length a'.awaiting ≡ a.count + length a.awaiting) × ((j : ℕ) → Follows j a a')

  pub Settles-refl : (a : Awaiting models) → Settles a a
  Settles-refl a = (refl, λ j. (omega arith, λ p. absurd (omega arith), λ p. p, λ p. p))

  pub Settles-trans : (a b c : Awaiting models) → Settles a b → Settles b c → Settles a c
  Settles-trans a b c p q = (omega (arith, p.0, q.0), λ j. ground (arith, p.1 j, q.1 j))

  finish_awaiting-Settles :
      (k : ℕ) (o : Option PhotoRow) (l : Option ProcessingResult) (a : Awaiting models)
      → get_photo k a.tables.photos ≡ o
      → lookup k a.awaiting ≡ l
      → Settles a (finish_awaiting models k o l a)
  unfolding finish_awaiting
  finish_awaiting-Settles k none l a e h = Settles-refl a
  finish_awaiting-Settles k (some photo) none a e h = Settles-refl a
  finish_awaiting-Settles k (some photo) (some result) a e h =
      let (own, had) = get_photo_lem k a.tables.photos photo e in
      let waited = lookup-some k a.awaiting result h in
      (
        omega (arith, length-pop k a.awaiting waited),
        λ j. ground (
          arith,
          keys-pop j k a.awaiting,
          face_state-finish models j photo result a.tables,
          own,
          had,
          waited,
        ),
      )

  extended : ℕ → List ℕ → Awaiting models → Awaiting models
  extended k ids a = record a { awaiting = extend_result k ids a.awaiting }

  extended-Settles : (k : ℕ) (ids : List ℕ) (a : Awaiting models) → Settles a (extended k ids a)
  unfolding extended
  extended-Settles k ids a =
      let same = keys-extend_result k ids a.awaiting in
      let counted = ap (λ ks. length ks) same in
      (
        omega
            (arith, counted, length-keys a.awaiting, length-keys (extend_result k ids a.awaiting)),
        λ j.
            let kept = ap (λ ks. occurrences j ks) same in
            (omega arith, λ p. absurd (omega arith), λ p. p, λ p. p),
      )

  settle_photo-Settles :
      (k : ℕ) (ids remaining : List ℕ) (a : Awaiting models)
      → Settles a (settle_photo models k ids remaining a)
  unfolding settle_photo extended
  settle_photo-Settles k ids remaining a =
      let a' = extended k ids a in
      let first = extended-Settles k ids a in
      elim (Bool-cases (occurrences k remaining == 0)) [
        | inl e ↦ rw e (
            Settles-trans a a'
              (finish_awaiting models k (get_photo k a'.tables.photos) (lookup k a'.awaiting) a')
              first
              (finish_awaiting-Settles k (get_photo k a'.tables.photos) (lookup k a'.awaiting) a'
                refl refl))
        | inr e ↦ rw e first
      ]

  -- The photo is known to wait at most once, and to have a row if it does.
  abbrev pub IsKnown : ℕ → Awaiting models → Type 0
  IsKnown j a = (waits j a ≤ 1) × (0 < waits j a → state_of j a ≢ none)

  pub Settles-IsKnown : (j : ℕ) (a b : Awaiting models) → Settles a b → IsKnown j a → IsKnown j b
  Settles-IsKnown j a b s known =
      let (fewer, marked, kept, rows) = s.1 j in
      (omega (arith, known.0), λ p e. known.1 (omega arith) (rows e))

  finish_awaiting_clears :
      (k : ℕ) (o : Option PhotoRow) (l : Option ProcessingResult) (a : Awaiting models)
      → get_photo k a.tables.photos ≡ o
      → lookup k a.awaiting ≡ l
      → IsKnown k a
      → waits k (finish_awaiting models k o l a) ≡ 0
  unfolding finish_awaiting
  finish_awaiting_clears k none none a e h known = lookup-none k a.awaiting h
  finish_awaiting_clears k (some photo) none a e h known = lookup-none k a.awaiting h
  finish_awaiting_clears k none (some result) a e h known =
      absurd (known.1 (lookup-some k a.awaiting result h) (get_photo-none k a.tables.photos e))
  finish_awaiting_clears k (some photo) (some result) a e h known =
      ground (arith, keys-pop k k a.awaiting, known.0)

  settle_photo_clears :
      (k : ℕ) (ids remaining : List ℕ) (a : Awaiting models)
      → occurrences k remaining ≡ 0
      → IsKnown k a
      → waits k (settle_photo models k ids remaining a) ≡ 0
  unfolding settle_photo extended
  settle_photo_clears k ids remaining a none_left known =
      let a' = extended k ids a in
      rw none_left (
        finish_awaiting_clears k (get_photo k a'.tables.photos) (lookup k a'.awaiting) a' refl refl
          (Settles-IsKnown k a a' (extended-Settles k ids a) known))

  pub settle_photos-Settles :
      (groups : Dict (List ℕ)) (remaining : List ℕ) (a : Awaiting models)
      → Settles a (settle_photos models groups remaining a)
  unfolding settle_photos
  settle_photos-Settles [] remaining a = Settles-refl a
  settle_photos-Settles ((k, ids) ∷ rest) remaining a =
      let b = settle_photo models k ids remaining a in
      Settles-trans a b (settle_photos models rest remaining b)
        (settle_photo-Settles k ids remaining a) (settle_photos-Settles rest remaining b)

  -- No photo of the flush waits any more, unless some of its crops are left.
  pub settle_photos_clears :
      (j : ℕ) (groups : Dict (List ℕ)) (remaining : List ℕ) (a : Awaiting models)
      → 0 < occurrences j (keys groups)
      → occurrences j remaining ≡ 0
      → IsKnown j a
      → waits j (settle_photos models groups remaining a) ≡ 0
  unfolding settle_photos
  settle_photos_clears j [] remaining a h none_left known = absurd (omega arith)
  settle_photos_clears j ((k, ids) ∷ rest) remaining a h none_left known =
      let b = settle_photo models k ids remaining a in
      let later = settle_photos-Settles rest remaining b in
      elim (Bool-cases (j == k)) [
        | inl e ↦
            let same : j ≡ k = ground arith in
            let cleared : waits j b ≡ 0 =
              rw same (settle_photo_clears k ids remaining a (ground arith) (rw (← same) known)) in
            omega (arith, (later.1 j).0, cleared)
        | inr e ↦
            settle_photos_clears j rest remaining b (ground arith) none_left
              (Settles-IsKnown j a b (settle_photo-Settles k ids remaining a) known)
      ]
