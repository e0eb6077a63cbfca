-- ===== src/Pipeline/Bulk/Finished.antt =====
-- The loop over the pending photos and the last flush of `process_event_photos` in ml/pipeline.py.
use event_vision_pipeline.Base.{
  ℕ, suc, ◌+◌, ◌<◌, ◌≤◌, true, some, none, List, [], ◌∷◌, ◌≡◌, ◌≢◌, refl, inl, inr, arith, length,
  occurrences, Bool-cases,
}
use event_vision_pipeline.Base.Effect.{Result, ok, err, after, recover, modify}
use event_vision_pipeline.Prefetch.{is_empty, for_each}
use event_vision_pipeline.Pipeline.{
  PhotoRow, PipelineError, Models, FaceCropWithMeta, Tables, Dict, keys,
}
use event_vision_pipeline.Pipeline.Flush.{photo_ids_of}
use event_vision_pipeline.Pipeline.Flush.State.{face_state}
use event_vision_pipeline.Pipeline.Flush.Settling.{waits}
use event_vision_pipeline.Pipeline.Bulk.{
  Run, fresh_run, ids_of, fail_photo, detect_photo, flush_crops, drain, fail_awaiting, clear_buffer,
  final_flush, handle_rows,
}
use event_vision_pipeline.Pipeline.Bulk.Accounts.{IsPart, RunAccounts, HasCrops, waiting_of}
use event_vision_pipeline.Pipeline.Bulk.Detection.{detect_photo-Good}
use event_vision_pipeline.Pipeline.Bulk.Drain.{
  Flushes, flush_crops_lem, fail_awaiting_lem, drain-Drains, drained-Good,
}

-- The photos taken up after these too, the last first.
abbrev taken_after : List PhotoRow → List ℕ → List ℕ
taken_after [] taken = taken
taken_after (p ∷ rest) taken = taken_after rest (p.id ∷ taken)

taken_after_lem :
    (j : ℕ) (ps : List PhotoRow) (taken : List ℕ)
    → (length (taken_after ps taken) ≡ length ps + length taken)
      × (occurrences j (taken_after ps taken) ≡ occurrences j (ids_of ps) + occurrences j taken)
taken_after_lem j [] taken = (omega arith, omega arith)
taken_after_lem j (p ∷ rest) taken = ground (arith, taken_after_lem j rest (p.id ∷ taken))

is_empty_crops :
    {models : Models} (j : ℕ) (cs : List (FaceCropWithMeta models))
    → is_empty cs ≡ true
    → occurrences j (photo_ids_of cs) ≡ 0
is_empty_crops j [] e = refl
is_empty_crops j (c ∷ cs) e = cc

no_keys : {A : Type 0} (d : Dict A) → ((j : ℕ) → occurrences j (keys d) ≡ 0) → length d ≡ 0
no_keys [] h = refl
no_keys ((k, x) ∷ rest) h = let some_key = h k in absurd (ground arith)

module _ {models : Models} (size : ℕ) (all : List ℕ) where
  handle_rows-Good :
      (taken : List ℕ) (photo : PhotoRow) (image_bytes : Result PipelineError models.Bytes)
      (run : Run models)
      → IsPart all (photo.id ∷ taken)
      → RunAccounts all taken run
      → HasCrops run
      → RunAccounts all (photo.id ∷ taken) (handle_rows models size photo image_bytes run)
        × HasCrops (handle_rows models size photo image_bytes run)
  unfolding handle_rows
  handle_rows-Good taken photo image_bytes run part acc crops =
      let (acc', crops') = detect_photo-Good all taken photo run part acc crops image_bytes in
      let found =
        recover (λ e. fail_photo models photo) (detect_photo models photo image_bytes run) in
      drained-Good all (photo.id ∷ taken) part size
        (drain models size (suc (length found.crop_buffer)) found)
        (drain-Drains all (photo.id ∷ taken) part size (suc (length found.crop_buffer)) found acc'
          crops')

  module _ (download : PhotoRow → Result PipelineError models.Bytes) where
    abbrev handle_all : List PhotoRow → Run models → Run models
    handle_all todo run = for_each download (handle_rows models size) todo run

    handle_all-Good :
        (todo : List PhotoRow) (taken : List ℕ) (run : Run models)
        → IsPart all (taken_after todo taken)
        → RunAccounts all taken run
        → HasCrops run
        → RunAccounts all (taken_after todo taken) (handle_all todo run)
          × HasCrops (handle_all todo run)
    handle_all-Good [] taken run part acc crops = (acc, crops)
    handle_all-Good (p ∷ rest) taken run part acc crops =
        let one : IsPart all (p.id ∷ taken) = (λ j.
          let whole = part j in
          let counted = taken_after_lem j rest (p.id ∷ taken) in (omega arith, whole.1)) in
        let (acc', crops') = handle_rows-Good taken p (download p) run one acc crops in
        handle_all-Good rest (p.id ∷ taken) (handle_rows models size p (download p) run) part acc'
          crops'

  -- All photos taken up are done with: none waits.
  abbrev IsDone : List ℕ → Run models → Type 0
  IsDone taken run = RunAccounts all taken run × ((j : ℕ) → waits j (waiting_of run) ≡ 0)

  flushed-IsDone :
      (taken : List ℕ) (part : IsPart all taken) (run : Run models)
      (q : Result PipelineError Unit × Run models)
      → Flushes all taken part [] run q
      → IsDone taken
          (recover (λ e. fail_awaiting models) (after q (λ _. modify (clear_buffer models))))
  unfolding clear_buffer
  flushed-IsDone taken part run (err x, run') f = fail_awaiting_lem all taken part run' f.0
  flushed-IsDone taken part run (ok tt, run') f = (f.0, λ j. let crops = f.2 refl j in ground arith)

  final_flush-IsDone :
      (taken : List ℕ) (run : Run models)
      → IsPart all taken
      → RunAccounts all taken run
      → HasCrops run
      → IsDone taken (final_flush models run)
  unfolding final_flush
  final_flush-IsDone taken run part acc crops = elim (Bool-cases (is_empty run.crop_buffer)) [
    | inl e ↦
        rw e (acc, λ j. let had = crops j in ground (arith, is_empty_crops j run.crop_buffer e))
    | inr e ↦ rw e (
        flushed-IsDone taken part run (flush_crops models run.crop_buffer [] run) (
          flush_crops_lem all taken part run.crop_buffer [] run acc
            (λ j h. let had = crops j h in omega arith)))
  ]

-- The photos have different ids, and a row each.
abbrev pub HaveRows : List PhotoRow → List PhotoRow → Type 0
HaveRows pending photos =
    (j : ℕ)
    → (occurrences j (ids_of pending) ≤ 1)
      × (0 < occurrences j (ids_of pending) → face_state j photos ≢ none)

module _ (models : Models) (size : ℕ)
    (download : PhotoRow → Result PipelineError models.Bytes) where
  pub rows_finished :
      (pending : List PhotoRow) (t : Tables models)
      → HaveRows pending t.photos
      → let run =
          final_flush models (for_each download (handle_rows models size) pending (fresh_run t)) in
        (run.photos_processed + run.photos_failed ≡ length pending)
        × ((j : ℕ)
            → 0 < occurrences j (ids_of pending)
            → face_state j run.tables.photos ≡ some true)
  rows_finished pending t have =
      let all = ids_of pending in
      let taken = taken_after pending [] in
      let part : IsPart all taken =
        (λ j. let row = have j in omega (arith, taken_after_lem j pending [])) in
      let start : RunAccounts all [] (fresh_run t) =
        (omega arith, λ j. (omega arith, λ h. absurd (omega arith), (have j).1)) in
      let (acc, crops) =
        handle_all-Good size all download pending [] (fresh_run t) part start
          (λ j h. absurd (omega arith)) in
      let looped = for_each download (handle_rows models size) pending (fresh_run t) in
      let (done, none_left) = final_flush-IsDone size all taken looped part acc crops in
      let finished = final_flush models looped in
      (
        omega (
          arith,
          done.0,
          no_keys finished.awaiting_flush none_left,
          taken_after_lem 0 pending [],
        ),
        λ j h. (done.1 j).1 (omega (arith, taken_after_lem j pending [])) (none_left j),
      )
