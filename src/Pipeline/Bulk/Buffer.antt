-- ===== src/Pipeline/Bulk/Buffer.antt =====
-- The crop buffer between two photos in `process_event_photos` of ml/pipeline.py.
use event_vision_pipeline.Base.{
  ℕ, zero, suc, max, ◌-◌, ◌<◌, ◌≤◌, List, ◌≡◌, refl, ap, inl, inr, arith, leb, length, take, drop,
  length-drop, Bool-cases,
}
use event_vision_pipeline.Base.Effect.{Result, ok, err, after, recover}
use event_vision_pipeline.Pipeline.{PhotoRow, PipelineError, Models, FaceCropWithMeta}
use event_vision_pipeline.Pipeline.Flush.{Awaiting}
use event_vision_pipeline.Pipeline.Bulk.{
  Run, batch_size, detect_photo, fail_photo, flushed, flush_crops, drain, fail_awaiting,
  clear_buffer, handle_rows,
}

module _ {models : Models} (size : ℕ) where
  abbrev IsShort : Result PipelineError Unit × Run models → Type 0
  IsShort (ok _, run) = length run.crop_buffer < batch_size models size
  IsShort (err e, run) = Unit

  flushed_buffer :
      (p : Result PipelineError ℕ × Awaiting models) (run : Run models)
      → (flushed models p run).1.crop_buffer ≡ run.crop_buffer
  flushed_buffer (err e, a) run = refl
  flushed_buffer (ok n, a) run = refl

  flush_crops_buffer :
      (xs ys : List (FaceCropWithMeta models)) (run : Run models)
      → (flush_crops models xs ys run).1.crop_buffer ≡ run.crop_buffer
  unfolding flush_crops
  flush_crops_buffer xs ys run = flushed_buffer _ run

  after_flush :
      (q : Result PipelineError Unit × Run models)
      (rest : Run models → Result PipelineError Unit × Run models) (n : ℕ)
      → length q.1.crop_buffer ≤ n
      → ((run : Run models) → length run.crop_buffer ≤ n → IsShort (rest run))
      → IsShort (after q (λ _. rest))
  after_flush (err e, run) rest n h ih = tt
  after_flush (ok _, run) rest n h ih = ih run h

  -- More rounds than crops are enough.
  drain-IsShort :
      (fuel : ℕ) (run : Run models)
      → length run.crop_buffer < fuel
      → IsShort (drain models size fuel run)
  unfolding drain
  drain-IsShort zero run h = absurd (omega arith)
  drain-IsShort (suc fuel) run h =
      let n = batch_size models size in
      elim (Bool-cases (leb n (length run.crop_buffer))) [
        | inl e ↦
            let rest_of : Run models = record run { crop_buffer = drop n run.crop_buffer } in
            let same =
              ap (λ cs. length cs)
                (flush_crops_buffer (take n run.crop_buffer) (drop n run.crop_buffer) rest_of) in
            let shorter : length (drop n run.crop_buffer) < fuel =
              ground (arith, length-drop n run.crop_buffer) in
            rw (e, drain)
              (after_flush
                (flush_crops models (take n run.crop_buffer) (drop n run.crop_buffer) rest_of)
                (drain models size fuel) (fuel - 1) (omega arith)
                (λ later k. drain-IsShort fuel later (omega arith)))
        | inr e ↦ rw (e, drain) (ground arith)
      ]

  recovered_short :
      (q : Result PipelineError Unit × Run models)
      → IsShort q
      → length (recover (λ e late. clear_buffer models (fail_awaiting models late)) q).crop_buffer
        < batch_size models size
  unfolding clear_buffer
  recovered_short (ok _, run) h = h
  recovered_short (err e, run) h = ground arith

-- Whatever becomes of a photo, fewer crops than one batch are in the buffer afterwards.
pub buffer_below_batch :
    (models : Models) (size : ℕ) (photo : PhotoRow)
    (image_bytes : Result PipelineError models.Bytes) (run : Run models)
    → length (handle_rows models size photo image_bytes run).crop_buffer < max 1 size
unfolding handle_rows
buffer_below_batch models size photo image_bytes run =
    let found =
      recover (λ e. fail_photo models photo) (detect_photo models photo image_bytes run) in
    recovered_short size (drain models size (suc (length found.crop_buffer)) found)
      (drain-IsShort size (suc (length found.crop_buffer)) found (omega arith))
