-- ===== src/Pipeline/Bulk.antt =====
-- The rows of `process_event_photos` in ml/pipeline.py: the pending photos of an event go through detection
-- one by one, and their passed crops through the embedder in batches. The proofs are in the modules below.
pub mod Accounts
pub mod Detection
pub mod Drain
pub mod Buffer
pub mod Pending
pub mod Finished
use event_vision_pipeline.Base.{
  ℕ, zero, suc, max, ◌+◌, true, false, ◌&&◌, not, Option, none, some, List, [], ◌∷◌, ◌++◌, ◌==◌,
  leb, length, take, drop, if◌then◌else◌,
}
use event_vision_pipeline.Base.Effect.{Result, ok, err, Effect, raise, modify, recover, after}
use event_vision_pipeline.Prefetch.{is_empty}
use event_vision_pipeline.Pipeline.{
  PhotoRow, ProcessingResult, PipelineError, failed, Models, FaceCropWithMeta, Tables, Dict, keys,
  set_item,
}
use event_vision_pipeline.Pipeline.Photo.{detect_and_buffer_photo, finish_photo, mark_processed}
use event_vision_pipeline.Pipeline.Flush.{Awaiting, persist_passed_crops, fail_awaiting_photos}

-- The locals of the run, and its session.
pub record Run (models : Models) : Type 0 where
  pub tables : Tables models
  pub crop_buffer : List (FaceCropWithMeta models)
  pub awaiting_flush : Dict ProcessingResult
  pub photos_processed : ℕ
  pub photos_failed : ℕ
  pub total_faces : ℕ
  pub total_embedded : ℕ

abbrev pub fresh_run : {models : Models} → Tables models → Run models
fresh_run t = record {
  tables = t;
  crop_buffer = [];
  awaiting_flush = [];
  photos_processed = 0;
  photos_failed = 0;
  total_faces = 0;
  total_embedded = 0;
}

abbrev pub ids_of : List PhotoRow → List ℕ
ids_of [] = []
ids_of (p ∷ rest) = p.id ∷ ids_of rest

-- The query of `_load_pending_photos`: the photos of the event that wait, by the time of their upload.
abbrev by_upload : PhotoRow → List PhotoRow → List PhotoRow
by_upload p [] = p ∷ []
by_upload p (q ∷ rest) =
    let later = by_upload p rest in
    if leb p.uploaded_at q.uploaded_at then p ∷ q ∷ rest else q ∷ later

unfoldable pub load_pending_photos : ℕ → List PhotoRow → List PhotoRow
unfolding by_upload
load_pending_photos event_id [] = []
load_pending_photos event_id (p ∷ rest) =
    let later = load_pending_photos event_id rest in
    if p.event_id == event_id && not p.faces_processed then by_upload p later else later

module _ (models : Models) where
  abbrev Step : Type 0 → Type 0
  Step A = Effect (Run models) PipelineError A

  -- What is buffered waits for its flush; a photo without passed crops is finished at once.
  pub store_detected :
      PhotoRow → List (FaceCropWithMeta models) × ProcessingResult → Run models → Run models
  store_detected photo ([], result) run = record run {
    total_faces = run.total_faces + result.face_count;
    tables = finish_photo models photo result run.tables;
    photos_processed = suc run.photos_processed;
  }
  store_detected photo (c ∷ cs, result) run = record run {
    total_faces = run.total_faces + result.face_count;
    crop_buffer = run.crop_buffer ++ (c ∷ cs);
    awaiting_flush = set_item photo.id result run.awaiting_flush;
  }

  abbrev detected :
      PhotoRow
      → Result PipelineError (List (FaceCropWithMeta models) × ProcessingResult) × Tables models
      → Run models
      → Result PipelineError Unit × Run models
  unfolding store_detected
  detected photo (err e, t) run = (err e, record run { tables = t })
  detected photo (ok found, t) run = (ok tt, store_detected photo found (record run { tables = t }))

  abbrev detect_decoded : PhotoRow → Option models.Image → Step Unit
  unfolding detected
  detect_decoded photo none run = (err (failed "Failed to decode image"), run)
  detect_decoded photo (some image) run =
      detected photo (detect_and_buffer_photo models photo image run.tables) run

  -- The body of the first try statement.
  pub detect_photo : PhotoRow → Result PipelineError models.Bytes → Step Unit
  unfolding detect_decoded
  detect_photo photo (err download_error) = raise download_error
  detect_photo photo (ok image_bytes) =
      detect_decoded photo (models.decode_photo_bytes image_bytes photo)

  pub fail_photo : PhotoRow → Run models → Run models
  fail_photo photo run = record run {
    photos_failed = suc run.photos_failed;
    tables = mark_processed models photo.id run.tables;
  }

  abbrev flushed :
      Result PipelineError ℕ × Awaiting models → Run models → Result PipelineError Unit × Run models
  flushed (err e, a) run = (err e, record run { tables = a.tables; awaiting_flush = a.awaiting })
  flushed (ok embedded, a) run = (
    ok tt,
    record run {
      tables = a.tables;
      awaiting_flush = a.awaiting;
      photos_processed = run.photos_processed + a.count;
      total_embedded = run.total_embedded + embedded;
    },
  )

  -- A flush of some crops, where the others stay in the buffer.
  pub flush_crops : List (FaceCropWithMeta models) → List (FaceCropWithMeta models) → Step Unit
  unfolding flushed
  flush_crops to_flush remaining run =
      flushed (persist_passed_crops models to_flush remaining run.awaiting_flush run.tables) run

  -- The handler of a flush that raised.
  pub fail_awaiting : Run models → Run models
  fail_awaiting run =
      let a =
        fail_awaiting_photos models (keys run.awaiting_flush)
          (record { tables = run.tables; awaiting = run.awaiting_flush; count = 0 }) in
      record run {
        tables = a.tables;
        awaiting_flush = a.awaiting;
        photos_failed = run.photos_failed + a.count;
      }

  pub clear_buffer : Run models → Run models
  clear_buffer run = record run { crop_buffer = [] }

  unfoldable pub final_flush : Run models → Run models
  unfolding flush_crops fail_awaiting clear_buffer
  final_flush run =
      if is_empty run.crop_buffer
      then run
      else recover (λ e. fail_awaiting)
          (after (flush_crops run.crop_buffer [] run) (λ _. modify clear_buffer))

module _ (models : Models) (embedding_batch_size : ℕ) where
  abbrev pub batch_size : ℕ
  batch_size = max 1 embedding_batch_size

  -- while len(crop_buffer) >= batch_size, with fuel
  pub drain : ℕ → Step models Unit
  unfolding flush_crops
  drain zero run = (ok tt, run)
  drain (suc fuel) run = elim (leb batch_size (length run.crop_buffer)) [
    | true ↦
        after
          (flush_crops models (take batch_size run.crop_buffer) (drop batch_size run.crop_buffer)
            (record run { crop_buffer = drop batch_size run.crop_buffer }))
          (λ _. drain fuel)
    | false ↦ (ok tt, run)
  ]

  -- The rows of one photo: its detection, then the full batches.
  unfoldable pub handle_rows :
      PhotoRow → Result PipelineError models.Bytes → Run models → Run models
  unfolding detect_photo fail_photo drain fail_awaiting clear_buffer
  handle_rows photo image_bytes run =
      let found =
        recover (λ e. fail_photo models photo) (detect_photo models photo image_bytes run) in
      recover (λ e late. clear_buffer models (fail_awaiting models late))
        (drain (suc (length found.crop_buffer)) found)
