-- ===== src/Pipeline/Photo/Totals.antt =====
-- `process_photo` of ml/pipeline.py: the row of the photo, and the total of its event.
use event_vision_pipeline.Base.{
  ℕ, Option, none, some, List, [], ◌∷◌, ◌≡◌, ◌≢◌, refl, sym, subst, ap, ◌∙◌, inl, inr, arith, ◌==◌,
  true, Bool-cases, if◌then◌else◌,
}
use event_vision_pipeline.Base.Effect.{Result, ok, err, pure, after, state-after-pure}
use event_vision_pipeline.Pipeline.{
  PhotoRow, EventRow, ProcessingResult, PipelineError, Models, FaceCropWithMeta, Tables, get_photo,
  update_photo, sum_face_count, set_total_faces,
}
use event_vision_pipeline.Pipeline.Photo.{
  with_ids, detect_and_buffer_photo, flush_embedding_batch, refresh_event_total_faces, finish_photo,
  embed_photo, outcome, process_decoded, process_photo, processing_failed,
}
use event_vision_pipeline.Pipeline.Photo.Rows.{rows, detect-Buffers, flush_rows}

-- events.total_faces of an event that has a row
abbrev pub total_of : ℕ → List EventRow → Option ℕ
total_of event_id [] = none
total_of event_id (e ∷ rest) =
    let later = total_of event_id rest in if e.id == event_id then some e.total_faces else later

set_total_faces_lem :
    (event_id n : ℕ) (es : List EventRow)
    → total_of event_id es ≢ none
    → total_of event_id (set_total_faces event_id n es) ≡ some n
set_total_faces_lem event_id n [] h = absurd (h refl)
set_total_faces_lem event_id n (e ∷ rest) h = elim (Bool-cases (e.id == event_id)) [
  | inl q ↦ ground arith
  | inr q ↦ rw q (rw q (set_total_faces_lem event_id n rest (rw q at h)))
]

abbrev mapped : (PhotoRow → PhotoRow) → Option PhotoRow → Option PhotoRow
mapped f none = none
mapped f (some p) = some (f p)

get_photo_id : (id : ℕ) (ps : List PhotoRow) (p : PhotoRow) → get_photo id ps ≡ some p → p.id ≡ id
get_photo_id id [] p e = cc
get_photo_id id (q ∷ rest) p e = ground (arith, get_photo_id id rest p)

-- What the first write of a photo leaves in its row.
get_photo-update :
    (f : PhotoRow → PhotoRow) (id : ℕ) (ps : List PhotoRow) (p : PhotoRow)
    → ((q : PhotoRow) → (f q).id ≡ q.id)
    → get_photo id ps ≡ some p
    → get_photo id (update_photo id f ps) ≡ some (f p)
get_photo-update f id [] p same e = cc
get_photo-update f id (q ∷ rest) p same e = elim (Bool-cases (q.id == id)) [
  | inl h ↦
      let same_row : some q ≡ some p = rw h at e in
      let moved : ((f q).id == id) ≡ true = rw (same q) h in
      rw h (rw moved (ap (λ (o : Option PhotoRow). mapped f o) same_row))
  | inr h ↦ rw h (rw h (get_photo-update f id rest p same (rw h at e)))
]

module _ (models : Models) where
  finish_photo_lem :
      (photo : PhotoRow) (result : ProcessingResult) (t u : Tables models)
      → u.photos ≡ t.photos
      → u.events ≡ t.events
      → get_photo photo.id t.photos ≡ some photo
      → total_of photo.event_id t.events ≢ none
      → let after = finish_photo models photo result u in
        (get_photo photo.id after.photos
          ≡ some (record photo { face_count = result.face_count; faces_processed = true }))
        × (total_of photo.event_id after.events ≡ some (sum_face_count photo.event_id after.photos))
  unfolding finish_photo refresh_event_total_faces
  finish_photo_lem photo result t u same_photos same_events found row =
      rw (same_photos, same_events)
        (
          get_photo-update
              (λ p. record p { face_count = result.face_count; faces_processed = true }) photo.id
              t.photos photo (λ q. refl) found,
          set_total_faces_lem photo.event_id _ t.events row,
        )

  -- The answer is put together from the flush.
  abbrev flush_found :
      List (FaceCropWithMeta models) × ProcessingResult
      → Tables models
      → Result PipelineError ProcessingResult × Tables models
  flush_found found t =
      after (flush_embedding_batch models found.0 t) (λ ids. pure (with_ids found.1 ids))

  flushed_rows :
      (p : Result PipelineError (List (FaceCropWithMeta models) × ProcessingResult) × Tables models)
      (t : Tables models)
      → rows models p.1 ≡ rows models t
      → rows models (after p flush_found).1 ≡ rows models t
  flushed_rows (err e, u) t same = same
  flushed_rows (ok found, u) t same =
      state-after-pure (rows models) (flush_embedding_batch models found.0 u) (with_ids found.1)
      ∙ (flush_rows models found.0 u).0
      ∙ same

  rows-embed_photo :
      (ready : Result PipelineError Unit) (photo : PhotoRow) (image : models.Image)
      (t : Tables models)
      → rows models (embed_photo models ready photo image t).1 ≡ rows models t
  unfolding embed_photo
  rows-embed_photo (err e) photo image t = refl
  rows-embed_photo (ok _) photo image t =
      let p = detect_and_buffer_photo models photo image t in
      let (same, all) = detect-Buffers models photo image t in flushed_rows p t same

  -- What a photo with a row becomes: its row and the total of its event are up to date.
  abbrev UpToDate : PhotoRow → ProcessingResult × Tables models → Type 0
  UpToDate photo (result, after) =
      (get_photo photo.id after.photos
        ≡ some (record photo { face_count = result.face_count; faces_processed = true }))
      × (total_of photo.event_id after.events ≡ some (sum_face_count photo.event_id after.photos))

  module _ (ready : Result PipelineError Unit) (photo : PhotoRow) (t : Tables models)
      (found : get_photo photo.id t.photos ≡ some photo)
      (row : total_of photo.event_id t.events ≢ none) where
    process_decoded-UpToDate :
        (image : Option models.Image) → UpToDate photo (process_decoded models ready photo image t)
    process_decoded-UpToDate none =
        finish_photo_lem photo (processing_failed photo.id "Failed to decode image") t t refl refl
          found row
    process_decoded-UpToDate (some image) =
        let (answer, t') = embed_photo models ready photo image t in
        let same = rows-embed_photo ready photo image t in
        finish_photo_lem photo (outcome models photo.id answer) t t' (ap (λ x. x.0) same)
          (ap (λ x. x.1) same) found row

  -- A photo that has a row, of an event that has one, is marked as processed whether or not decoding,
  -- the loading of the models, detection or the flush fails. Its face count is that of the result, nothing else in its row
  -- changes, and the total of its event is the sum over the photos of the event.
  pub process_photo_up_to_date :
      (ready : Result PipelineError Unit) (photo_id : ℕ) (image_bytes : models.Bytes)
      (t : Tables models) (photo : PhotoRow)
      → get_photo photo_id t.photos ≡ some photo
      → total_of photo.event_id t.events ≢ none
      → let (result, after) = process_photo models ready photo_id image_bytes t in
        (get_photo photo_id after.photos
          ≡ some (record photo { face_count = result.face_count; faces_processed = true }))
        × (total_of photo.event_id after.events ≡ some (sum_face_count photo.event_id after.photos))
  unfolding process_photo
  process_photo_up_to_date ready photo_id image_bytes t photo found row =
      let own : photo.id ≡ photo_id = get_photo_id photo_id t.photos photo found in
      let same = subst (λ (i : ℕ). get_photo i t.photos ≡ some photo) (sym own) found in
      let done =
        process_decoded-UpToDate ready photo t same row
          (models.decode_photo_bytes image_bytes photo) in
      rw found (
        subst
          (λ (i : ℕ).
            (get_photo i
                (process_decoded models ready photo (models.decode_photo_bytes image_bytes photo)
                  t).1.photos
              ≡ some (record photo {
                face_count =
                    (process_decoded models ready photo
                      (models.decode_photo_bytes image_bytes photo) t).0.face_count;
                faces_processed = true;
              }))
            × (total_of photo.event_id
                  (process_decoded models ready photo (models.decode_photo_bytes image_bytes photo)
                    t).1.events
                ≡ some (
                    sum_face_count photo.event_id
                      (process_decoded models ready photo
                        (models.decode_photo_bytes image_bytes photo) t).1.photos)))
          own done)
