-- ===== src/Pipeline/Bulk/Detection.antt =====
-- The first part of the loop of `process_event_photos` in ml/pipeline.py: a photo is detected, or fails.
use event_vision_pipeline.Base.{
  ℕ, suc, ◌+◌, Option, none, some, List, [], ◌∷◌, ◌++◌, ◌≡◌, refl, ap, ◌∙◌, arith, ◌==◌,
  occurrences, if◌then◌else◌,
}
use event_vision_pipeline.Base.Effect.{Result, ok, err, recover}
use event_vision_pipeline.Pipeline.{
  PhotoRow, ProcessingResult, PipelineError, Models, FaceCropWithMeta, Tables, keys,
}
use event_vision_pipeline.Pipeline.Photo.{detect_and_buffer_photo}
use event_vision_pipeline.Pipeline.Photo.Rows.{AllOf, Buffers, detect-Buffers}
use event_vision_pipeline.Pipeline.Flush.{photo_ids_of}
use event_vision_pipeline.Pipeline.Flush.State.{
  face_state, processed_too, face_state-mark, face_state-finish, keys-set_item,
}
use event_vision_pipeline.Pipeline.Bulk.{
  Run, store_detected, detected, detect_decoded, detect_photo, fail_photo,
}
use event_vision_pipeline.Pipeline.Bulk.Accounts.{
  IsPart, RunAccounts, HasCrops, waiting_of, finished-Accounts, waiting-Accounts,
}

pub photo_ids_of-append :
    {models : Models} (j : ℕ) (xs ys : List (FaceCropWithMeta models))
    → occurrences j (photo_ids_of (xs ++ ys))
      ≡ occurrences j (photo_ids_of xs) + occurrences j (photo_ids_of ys)
photo_ids_of-append j [] ys = omega arith
photo_ids_of-append j (x ∷ xs) ys = ground (arith, photo_ids_of-append j xs ys)

module _ {models : Models} (all taken : List ℕ) (photo : PhotoRow) (run : Run models)
    (part : IsPart all (photo.id ∷ taken)) (acc : RunAccounts all taken run)
    (crops : HasCrops run) where
  abbrev pub Good : Run models → Type 0
  Good run' = RunAccounts all (photo.id ∷ taken) run' × HasCrops run'

  unseen : occurrences photo.id (keys run.awaiting_flush) ≡ 0
  unseen = let part_id = part photo.id in let acc_id = acc.1 photo.id in ground arith

  fail_photo-Good :
      (t : Tables models)
      → t.photos ≡ run.tables.photos
      → Good (fail_photo models photo (record run { tables = t }))
  unfolding fail_photo
  fail_photo-Good t same =
      let run' = fail_photo models photo (record run { tables = t }) in
      (
        finished-Accounts all photo.id taken (run.photos_processed + run.photos_failed)
            (run.photos_processed + suc run.photos_failed) (waiting_of run) (waiting_of run') part
            (omega arith) refl refl
            (λ j.
              face_state-mark models j photo.id t
              ∙ ap
                  (λ (ps : List PhotoRow).
                    if j == photo.id then processed_too (face_state j ps) else face_state j ps)
                  same)
            acc,
        crops,
      )

  store_detected-Good :
      (t : Tables models) (found : List (FaceCropWithMeta models)) (result : ProcessingResult)
      → t.photos ≡ run.tables.photos
      → AllOf models photo.id found
      → Good (store_detected models photo (found, result) (record run { tables = t }))
  unfolding store_detected
  store_detected-Good t [] result same own =
      let run' = store_detected models photo ([], result) (record run { tables = t }) in
      (
        finished-Accounts all photo.id taken (run.photos_processed + run.photos_failed)
            (suc run.photos_processed + run.photos_failed) (waiting_of run) (waiting_of run') part
            (omega arith) refl refl
            (λ j.
              face_state-finish models j photo result t
              ∙ ap
                  (λ (ps : List PhotoRow).
                    if j == photo.id then processed_too (face_state j ps) else face_state j ps)
                  same)
            acc,
        crops,
      )
  store_detected-Good t (c ∷ cs) result same own =
      let run' = store_detected models photo (c ∷ cs, result) (record run { tables = t }) in
      (
        waiting-Accounts all photo.id result taken (run.photos_processed + run.photos_failed)
            (waiting_of run) (waiting_of run') part refl refl same acc,
        λ j h.
            let crops_j = crops j in
            ground (
              arith,
              keys-set_item j photo.id result run.awaiting_flush unseen,
              photo_ids_of-append j run.crop_buffer (c ∷ cs),
              own.0,
            ),
      )

  abbrev found_or_failed : Result PipelineError Unit × Run models → Run models
  found_or_failed p = recover (λ e. fail_photo models photo) p

  detected-Good :
      (p : Result PipelineError (List (FaceCropWithMeta models) × ProcessingResult) × Tables models)
      → Buffers models photo.id run.tables p
      → Good (found_or_failed (detected models photo p run))
  unfolding detected
  detected-Good (err e, t) b = fail_photo-Good t (ap (λ x. x.0) b.0)
  detected-Good (ok (found, result), t) b =
      store_detected-Good t found result (ap (λ x. x.0) b.0) (b.1 (found, result) refl)

  decoded-Good :
      (image : Option models.Image) → Good (found_or_failed (detect_decoded models photo image run))
  unfolding detect_decoded
  decoded-Good none = fail_photo-Good run.tables refl
  decoded-Good (some image) =
      detected-Good (detect_and_buffer_photo models photo image run.tables)
        (detect-Buffers models photo image run.tables)

  -- Whatever comes of the download, of decoding and of detection.
  pub detect_photo-Good :
      (image_bytes : Result PipelineError models.Bytes)
      → Good (found_or_failed (detect_photo models photo image_bytes run))
  unfolding detect_photo
  detect_photo-Good (err e) = fail_photo-Good run.tables refl
  detect_photo-Good (ok image_bytes) = decoded-Good (models.decode_photo_bytes image_bytes photo)
