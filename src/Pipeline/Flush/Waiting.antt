-- ===== src/Pipeline/Flush/Waiting.antt =====
-- What becomes of the photos that wait for a flush, in `_persist_passed_crops` and `_fail_awaiting_photos` of ml/pipeline.py.
use event_vision_pipeline.Base.{
  ℕ, suc, ◌-◌, ◌<◌, ◌≤◌, List, [], ◌∷◌, ◌≡◌, refl, sym, ap, ◌∙◌, arith, ◌==◌, length, occurrences,
  if◌then◌else◌,
}
use event_vision_pipeline.Base.Effect.{Result, ok, err}
use event_vision_pipeline.Pipeline.{
  ProcessingResult, PipelineError, Models, FaceCropWithMeta, Tables, Dict, pop,
}
use event_vision_pipeline.Pipeline.Photo.{flush_embedding_batch, mark_processed}
use event_vision_pipeline.Pipeline.Photo.Rows.{flush_rows}
use event_vision_pipeline.Pipeline.Flush.{
  Awaiting, photo_ids_of, ids_by_photo, settle_photos, persisted, persist_passed_crops,
  fail_awaiting_photos,
}
use event_vision_pipeline.Pipeline.Flush.State.{face_state, face_state-mark, keys-pop, length-pop}
use event_vision_pipeline.Pipeline.Flush.Settling.{
  processed_too-some, keys-ids_by_photo, waits, state_of, Settles, Settles-refl, Settles-trans,
  IsKnown, Settles-IsKnown, settle_photos-Settles, settle_photos_clears,
}

module _ {models : Models} where
  abbrev settled : ℕ → Awaiting models → Awaiting models
  settled k a = record {
    tables = mark_processed models k a.tables;
    awaiting = pop k a.awaiting;
    count = suc a.count;
  }

  settled-Settles :
      (k : ℕ) (a : Awaiting models) → 0 < waits k a → IsKnown k a → Settles a (settled k a)
  settled-Settles k a h known = (
    omega (arith, length-pop k a.awaiting h),
    λ j. ground (
      arith,
      keys-pop j k a.awaiting,
      face_state-mark models j k a.tables,
      processed_too-some (state_of k a) (known.1 h),
    ),
  )

  -- Where each key waits as often as it is listed, all of them are counted and stop to wait.
  pub fail_awaiting_photos_lem :
      (ks : List ℕ) (a : Awaiting models)
      → ((j : ℕ) → occurrences j ks ≤ waits j a)
      → ((j : ℕ) → IsKnown j a)
      → Settles a (fail_awaiting_photos models ks a)
        × ((j : ℕ) → waits j (fail_awaiting_photos models ks a) ≡ waits j a - occurrences j ks)
  unfolding fail_awaiting_photos
  fail_awaiting_photos_lem [] a listed known = (Settles-refl a, λ j. omega arith)
  fail_awaiting_photos_lem (k ∷ rest) a listed known =
      let b = settled k a in
      let first = settled-Settles k a (ground (arith, listed k)) (known k) in
      let popped : (j : ℕ) → waits j b ≡ waits j a - (if j == k then 1 else 0) =
        λ j. keys-pop j k a.awaiting in
      let (later, gone) =
        fail_awaiting_photos_lem rest b (λ j. ground (arith, listed j, popped j))
          (λ j. Settles-IsKnown j a b first (known j)) in
      unfold settled in
      (
        Settles-trans a b (fail_awaiting_photos models rest b) first later,
        λ j. ground (arith, gone j, popped j),
      )

  -- `_persist_passed_crops` from rows `t` and waiting photos `awaiting`.
  abbrev pub unsettled : Dict ProcessingResult → Tables models → Awaiting models
  unsettled awaiting t = record { tables = t; awaiting = awaiting; count = 0 }

  same_rows-Settles :
      (awaiting : Dict ProcessingResult) (t u : Tables models)
      → u.photos ≡ t.photos
      → Settles (unsettled awaiting t) (unsettled awaiting u)
  same_rows-Settles awaiting t u e = (
    refl,
    λ j.
        let same = ap (λ ps. face_state j ps) e in
        (omega arith, λ p. absurd (omega arith), λ p. same ∙ p, λ p. sym same ∙ p),
  )

  module _ (to_flush remaining : List (FaceCropWithMeta models)) (awaiting : Dict ProcessingResult)
      (t : Tables models) where
    abbrev pub Persists : Result PipelineError ℕ × Awaiting models → Type 0
    Persists p =
        Settles (unsettled awaiting t) p.1
        × ((n j : ℕ)
            → p.0 ≡ ok n
            → 0 < occurrences j (photo_ids_of to_flush)
            → occurrences j (photo_ids_of remaining) ≡ 0
            → IsKnown j (unsettled awaiting t)
            → waits j p.1 ≡ 0)
        × ((x : PipelineError) → p.0 ≡ err x → p.1.count ≡ 0)

    persisted_lem :
        (p : Result PipelineError (List ℕ) × Tables models)
        → p.1.photos ≡ t.photos
        → ((ids : List ℕ) → p.0 ≡ ok ids → length ids ≡ length to_flush)
        → Persists (persisted models to_flush remaining awaiting p)
    unfolding persisted
    persisted_lem (err x, u) same counted =
        (same_rows-Settles awaiting t u same, λ n j e. cc, λ y e. refl)
    persisted_lem (ok ids, u) same counted =
        let groups = ids_by_photo to_flush ids [] in
        let left = photo_ids_of remaining in
        let flushed = same_rows-Settles awaiting t u same in
        (
          Settles-trans (unsettled awaiting t) (unsettled awaiting u)
              (settle_photos models groups left (unsettled awaiting u)) flushed
              (settle_photos-Settles groups left (unsettled awaiting u)),
          λ n j e flushes none_left known.
              settle_photos_clears j groups left (unsettled awaiting u)
                (keys-ids_by_photo j to_flush ids [] (counted ids refl) (omega arith)) none_left
                (Settles-IsKnown j (unsettled awaiting t) (unsettled awaiting u) flushed known),
          λ x e. cc,
        )

    pub persist_lem : Persists (persist_passed_crops models to_flush remaining awaiting t)
    unfolding persist_passed_crops
    persist_lem =
        let (same, counted) = flush_rows models to_flush t in
        persisted_lem (flush_embedding_batch models to_flush t) (ap (λ x. x.0) same) counted
