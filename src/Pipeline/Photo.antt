-- ===== src/Pipeline/Photo.antt =====
-- ml/pipeline.py: what is done to one photo, and to one batch of crops.
pub mod Rows
pub mod Totals
use event_vision_pipeline.Base.{
  ℕ, suc, String, Bool, true, false, Option, none, some, List, [], ◌∷◌, ◌++◌, length, if◌then◌else◌,
}
use event_vision_pipeline.Base.Effect.{Result, ok, err, Effect, pure, raise, ◌>>=◌}
use event_vision_pipeline.Pipeline.{
  PhotoRow, ProcessingResult, PipelineError, failed, Models, FaceEmbedding, FaceCropWithMeta,
  Tables, Session, get_photo, update_photo, sum_face_count, set_total_faces,
}

abbrev pub with_ids : ProcessingResult → List ℕ → ProcessingResult
with_ids result ids = record result { embedding_ids = result.embedding_ids ++ ids }

abbrev processing_failed : ℕ → String → ProcessingResult
processing_failed photo_id message = record {
  photo_id = photo_id;
  face_count = 0;
  quality_passed_count = 0;
  embedding_ids = [];
  error = some message;
}

abbrev message_of : PipelineError → String
message_of (failed message) = message
message_of e = "lock"

module _ (models : Models) where
  open models use {Bytes, Image, Face, Crop, Quality, Vector, World}

  -- build_face_embedding_row, db.add and db.flush, which gives the row its id
  pub insert_row : FaceCropWithMeta models → Vector → Option Vector → Bool → Session models ℕ
  insert_row c primary secondary quality_passed t = (
    ok t.next_id,
    record t {
      embeddings =
          record {
            id = t.next_id;
            photo_id = c.photo_id;
            event_id = c.event_id;
            crop = c.crop;
            quality = c.quality;
            embedding = primary;
            secondary_embedding = secondary;
            quality_passed = quality_passed;
          }
          ∷ t.embeddings;
      next_id = suc t.next_id;
    },
  )

  -- One crop with its quality, before the rest of the loop.
  pub sort_crop :
      FaceCropWithMeta models
      → Session models (List (FaceCropWithMeta models) × List ℕ)
      → Session models (List (FaceCropWithMeta models) × List ℕ)
  unfolding insert_row
  sort_crop c rest =
      if models.passed c.quality
      then (rest >>= λ (buffer, ids). pure (c ∷ buffer, ids))
      else (insert_row c models.placeholder_embedding none false >>= λ id.
          rest >>= λ (buffer, ids). pure (buffer, id ∷ ids))

  abbrev judged :
      PhotoRow
      → Crop
      → Result PipelineError Quality
      → Session models (List (FaceCropWithMeta models) × List ℕ)
      → Session models (List (FaceCropWithMeta models) × List ℕ)
  unfolding sort_crop
  judged photo crop (err e) rest = raise e
  judged photo crop (ok quality) rest =
      sort_crop
        (record { crop = crop; photo_id = photo.id; event_id = photo.event_id; quality = quality })
        rest

  pub sort_crops : PhotoRow → List Crop → Session models (List (FaceCropWithMeta models) × List ℕ)
  unfolding judged
  sort_crops photo [] = pure ([], [])
  sort_crops photo (crop ∷ rest) = judged photo crop (models.filter crop) (sort_crops photo rest)

  abbrev counted :
      PhotoRow
      → List Face
      → List (FaceCropWithMeta models) × List ℕ
      → List (FaceCropWithMeta models) × ProcessingResult
  counted photo faces (buffer, stored_ids) = (
    buffer,
    record {
      photo_id = photo.id;
      face_count = length faces;
      quality_passed_count = length buffer;
      embedding_ids = stored_ids;
      error = none;
    },
  )

  abbrev sort_found :
      PhotoRow
      → List Face
      → Result PipelineError (List Crop)
      → Session models (List (FaceCropWithMeta models) × ProcessingResult)
  unfolding sort_crops
  sort_found photo faces (err e) = raise e
  sort_found photo faces (ok crops) =
      sort_crops photo crops >>= λ found. pure (counted photo faces found)

  abbrev crop_found :
      PhotoRow
      → Image
      → Result PipelineError (List Face)
      → Session models (List (FaceCropWithMeta models) × ProcessingResult)
  unfolding sort_found
  crop_found photo image (err e) = raise e
  crop_found photo image (ok faces) = sort_found photo faces (models.crop_all image faces photo.id)

  -- `_detect_and_buffer_photo`
  unfoldable pub detect_and_buffer_photo :
      PhotoRow → Image → Session models (List (FaceCropWithMeta models) × ProcessingResult)
  unfolding crop_found
  detect_and_buffer_photo photo image = crop_found photo image (models.detect image)

  -- zip(crops, results, strict=True): the rows before the mismatch are added.
  pub insert_rows :
      List (FaceCropWithMeta models) → List (Vector × Option Vector) → Session models (List ℕ)
  unfolding insert_row
  insert_rows [] [] = pure []
  insert_rows (c ∷ cs) ((primary, secondary) ∷ vs) =
      insert_row c primary secondary true >>= λ id. insert_rows cs vs >>= λ ids. pure (id ∷ ids)
  insert_rows [] (v ∷ vs) = raise (failed "zip() argument 2 is longer than argument 1")
  insert_rows (c ∷ cs) [] = raise (failed "zip() argument 2 is shorter than argument 1")

  abbrev pub crops_of : List (FaceCropWithMeta models) → List Crop
  crops_of [] = []
  crops_of (c ∷ rest) = c.crop ∷ crops_of rest

  abbrev embed : List Crop → Session models (List (Vector × Option Vector))
  embed crops t =
      let (answer, world) = models.embed_batch crops t.world in (answer, record t { world = world })

  -- `_flush_embedding_batch`
  unfoldable pub flush_embedding_batch : List (FaceCropWithMeta models) → Session models (List ℕ)
  unfolding insert_rows
  flush_embedding_batch [] = pure []
  flush_embedding_batch (c ∷ cs) = embed (crops_of (c ∷ cs)) >>= insert_rows (c ∷ cs)

  -- `_refresh_event_total_faces`
  unfoldable pub refresh_event_total_faces : ℕ → Tables models → Tables models
  refresh_event_total_faces event_id t = record t {
    events = set_total_faces event_id (sum_face_count event_id t.photos) t.events;
  }

  -- `_finish_photo`
  unfoldable pub finish_photo : PhotoRow → ProcessingResult → Tables models → Tables models
  unfolding refresh_event_total_faces
  finish_photo photo result t = refresh_event_total_faces photo.event_id (record t {
    photos =
        update_photo photo.id
          (λ p. record p { face_count = result.face_count; faces_processed = true }) t.photos;
  })

  -- photo.faces_processed = True
  unfoldable pub mark_processed : ℕ → Tables models → Tables models
  mark_processed id t = record t {
    photos = update_photo id (λ p. record p { faces_processed = true }) t.photos;
  }

  -- The body of the try statement of `process_photo`; the first argument is what
  -- `_resolve_upload_models` answers.
  pub embed_photo : Result PipelineError Unit → PhotoRow → Image → Session models ProcessingResult
  unfolding detect_and_buffer_photo flush_embedding_batch
  embed_photo (err e) photo image = raise e
  embed_photo (ok _) photo image = detect_and_buffer_photo photo image >>= λ (buffer, result).
      flush_embedding_batch buffer >>= λ ids. pure (with_ids result ids)

  abbrev outcome : ℕ → Result PipelineError ProcessingResult → ProcessingResult
  outcome photo_id (ok result) = result
  outcome photo_id (err e) = processing_failed photo_id (message_of e)

  abbrev finish_with :
      PhotoRow → ProcessingResult → Tables models → ProcessingResult × Tables models
  finish_with photo result t = (result, finish_photo photo result t)

  abbrev process_decoded :
      Result PipelineError Unit
      → PhotoRow
      → Option Image
      → Tables models
      → ProcessingResult × Tables models
  process_decoded ready photo none t =
      finish_with photo (processing_failed photo.id "Failed to decode image") t
  process_decoded ready photo (some image) t =
      let (answer, t') = embed_photo ready photo image t in
      finish_with photo (outcome photo.id answer) t'

  abbrev process_found :
      Result PipelineError Unit
      → ℕ
      → Bytes
      → Option PhotoRow
      → Tables models
      → ProcessingResult × Tables models
  process_found ready photo_id image_bytes none t =
      (processing_failed photo_id "Photo not found", t)
  process_found ready photo_id image_bytes (some photo) t =
      process_decoded ready photo (models.decode_photo_bytes image_bytes photo) t

  pub process_photo :
      Result PipelineError Unit → ℕ → Bytes → Tables models → ProcessingResult × Tables models
  process_photo ready photo_id image_bytes t =
      process_found ready photo_id image_bytes (get_photo photo_id t.photos) t
