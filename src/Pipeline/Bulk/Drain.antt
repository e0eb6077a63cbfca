-- ===== src/Pipeline/Bulk/Drain.antt =====
-- The flushes of `process_event_photos` in ml/pipeline.py: full batches, the last batch, and what is failed.
use event_vision_pipeline.Base.{
  ℕ, zero, suc, ◌+◌, ◌<◌, List, ◌≡◌, refl, ap, ◌∙◌, inl, inr, arith, leb, length, take, drop,
  take-append-drop, occurrences, Bool-cases,
}
use event_vision_pipeline.Base.Effect.{Result, ok, err, after, recover}
use event_vision_pipeline.Pipeline.{PipelineError, Models, FaceCropWithMeta, keys}
use event_vision_pipeline.Pipeline.Flush.{
  Awaiting, photo_ids_of, persist_passed_crops, fail_awaiting_photos,
}
use event_vision_pipeline.Pipeline.Flush.Settling.{waits}
use event_vision_pipeline.Pipeline.Flush.Waiting.{Persists, persist_lem, fail_awaiting_photos_lem}
use event_vision_pipeline.Pipeline.Bulk.{
  Run, batch_size, flushed, flush_crops, drain, fail_awaiting, clear_buffer,
}
use event_vision_pipeline.Pipeline.Bulk.Accounts.{
  IsPart, RunAccounts, HasCrops, waiting_of, Settles-Accounts, Accounts-IsKnown,
}
use event_vision_pipeline.Pipeline.Bulk.Detection.{photo_ids_of-append}

module _ {models : Models} (all taken : List ℕ) (part : IsPart all taken) where
  -- The crops of the photos that wait are in these lists.
  abbrev InCrops :
      List (FaceCropWithMeta models) → List (FaceCropWithMeta models) → Run models → Type 0
  InCrops xs ys run =
      (j : ℕ)
      → 0 < waits j (waiting_of run)
      → 0 < occurrences j (photo_ids_of xs) + occurrences j (photo_ids_of ys)

  abbrev pub Flushes :
      List (FaceCropWithMeta models) → Run models → Result PipelineError Unit × Run models → Type 0
  Flushes remaining run q =
      RunAccounts all taken q.1
      × (q.1.crop_buffer ≡ run.crop_buffer)
      × (q.0 ≡ ok tt
          → (j : ℕ) → 0 < waits j (waiting_of q.1)
          → 0 < occurrences j (photo_ids_of remaining))

  module _ (to_flush remaining : List (FaceCropWithMeta models)) (run : Run models)
      (acc : RunAccounts all taken run) (crops : InCrops to_flush remaining run) where
    flushed_lem :
        (p : Result PipelineError ℕ × Awaiting models)
        → Persists to_flush remaining run.awaiting_flush run.tables p
        → Flushes remaining run (flushed models p run)
    unfolding flushed
    flushed_lem (err x, a) persists =
        let (counted, known) =
          Settles-Accounts all taken (run.photos_processed + run.photos_failed) (waiting_of run) a
            persists.0 acc in
        ((omega (arith, persists.2 x refl), known), refl, λ e. cc)
    flushed_lem (ok n, a) persists =
        let (counted, known) =
          Settles-Accounts all taken (run.photos_processed + run.photos_failed) (waiting_of run) a
            persists.0 acc in
        let is_known =
          Accounts-IsKnown all taken (run.photos_processed + run.photos_failed) (waiting_of run)
            part acc in
        (
          (omega arith, known),
          refl,
          λ e j h.
              let waited = (persists.0.1 j).0 in
              let had = crops j (omega arith) in
              let gone =
                λ (f : 0 < occurrences j (photo_ids_of to_flush))
                    (g : occurrences j (photo_ids_of remaining) ≡ 0).
                  persists.1 n j refl f g (is_known j) in
              ground (arith, gone),
        )

    pub flush_crops_lem : Flushes remaining run (flush_crops models to_flush remaining run)
    unfolding flush_crops
    flush_crops_lem =
        flushed_lem (persist_passed_crops models to_flush remaining run.awaiting_flush run.tables)
          (persist_lem to_flush remaining run.awaiting_flush run.tables)

  -- After the handler no photo waits.
  pub fail_awaiting_lem :
      (run : Run models)
      → RunAccounts all taken run
      → RunAccounts all taken (fail_awaiting models run)
        × ((j : ℕ) → waits j (waiting_of (fail_awaiting models run)) ≡ 0)
  unfolding fail_awaiting
  fail_awaiting_lem run acc =
      let n = run.photos_processed + run.photos_failed in
      let ks = keys run.awaiting_flush in
      let (settles, gone) =
        fail_awaiting_photos_lem ks (waiting_of run) (λ j. omega arith)
          (Accounts-IsKnown all taken n (waiting_of run) part acc) in
      let failed = fail_awaiting_photos models ks (waiting_of run) in
      let (counted, known) = Settles-Accounts all taken n (waiting_of run) failed settles acc in
      ((omega arith, known), λ j. omega (arith, gone j))

  module _ (size : ℕ) where
    -- What is left of a run of flushes: where one raised, the crops that are not flushed are not the
    -- buffer.
    abbrev pub Drains : Result PipelineError Unit × Run models → Type 0
    Drains q = RunAccounts all taken q.1 × (q.0 ≡ ok tt → HasCrops q.1)

    abbrev rest_of : Run models → Run models
    rest_of run = record run { crop_buffer = drop (batch_size models size) run.crop_buffer }

    flush_batch : Run models → Result PipelineError Unit × Run models
    flush_batch run =
        flush_crops models (take (batch_size models size) run.crop_buffer)
          (drop (batch_size models size) run.crop_buffer) (rest_of run)

    flush_batch_lem :
        (run : Run models)
        → RunAccounts all taken run
        → HasCrops run
        → Flushes (drop (batch_size models size) run.crop_buffer) (rest_of run) (flush_batch run)
    unfolding flush_batch
    flush_batch_lem run acc crops =
        let n = batch_size models size in
        let xs = take n run.crop_buffer in
        let ys = drop n run.crop_buffer in
        flush_crops_lem xs ys (rest_of run) acc (λ j h.
          let split =
            ap (λ cs. occurrences j (photo_ids_of cs)) (take-append-drop n run.crop_buffer) in
          let had = crops j h in omega (arith, photo_ids_of-append j xs ys))

    drain_flushed :
        (rest : Run models → Result PipelineError Unit × Run models)
        (buffer : List (FaceCropWithMeta models)) (q : Result PipelineError Unit × Run models)
        (run : Run models)
        → run.crop_buffer ≡ buffer
        → Flushes buffer run q
        → ((later : Run models)
            → RunAccounts all taken later
            → HasCrops later
            → Drains (rest later))
        → Drains (after q (λ _. rest))
    drain_flushed rest buffer (err x, run') run b f ih = (f.0, λ e. cc)
    drain_flushed rest buffer (ok tt, run') run b f ih = ih run' f.0 (λ j h.
        let same = ap (λ cs. occurrences j (photo_ids_of cs)) (f.1 ∙ b) in
        let had = f.2 refl j h in omega arith)

    pub drain-Drains :
        (fuel : ℕ) (run : Run models)
        → RunAccounts all taken run
        → HasCrops run
        → Drains (drain models size fuel run)
    unfolding drain flush_batch
    drain-Drains zero run acc crops = (acc, λ e. crops)
    drain-Drains (suc fuel) run acc crops =
        elim (Bool-cases (leb (batch_size models size) (length run.crop_buffer))) [
          | inl e ↦
              rw (e, drain)
                (drain_flushed (drain models size fuel)
                  (drop (batch_size models size) run.crop_buffer) (flush_batch run) (rest_of run)
                  refl (flush_batch_lem run acc crops) (λ later a c. drain-Drains fuel later a c))
          | inr e ↦ rw (e, drain) (acc, λ e. crops)
        ]

    abbrev pub drained_or_failed : Result PipelineError Unit × Run models → Run models
    drained_or_failed p = recover (λ e late. clear_buffer models (fail_awaiting models late)) p

    pub drained-Good :
        (q : Result PipelineError Unit × Run models)
        → Drains q
        → RunAccounts all taken (drained_or_failed q) × HasCrops (drained_or_failed q)
    unfolding clear_buffer
    drained-Good (ok tt, run) d = (d.0, d.1 refl)
    drained-Good (err x, run) d =
        let (acc, none_left) = fail_awaiting_lem run d.0 in
        (acc, λ j h. absurd (omega (arith, none_left j)))
