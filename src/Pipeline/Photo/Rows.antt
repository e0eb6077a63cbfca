-- ===== src/Pipeline/Photo/Rows.antt =====
-- What detection and a flush of ml/pipeline.py leave alone, and whose crops detection buffers.
use event_vision_pipeline.Base.{
  ℕ, true, false, Option, none, List, [], ◌∷◌, ◌≡◌, refl, ap, subst, suc, arith, length, ◌∙◌, inl,
  inr, Bool-cases,
}
use event_vision_pipeline.Base.Effect.{
  Result, ok, err, after, Result-cases, state-after-pure, after-pure-ok,
}
use event_vision_pipeline.Pipeline.{
  PhotoRow, EventRow, ProcessingResult, PipelineError, Models, FaceCropWithMeta, Tables, Session,
}
use event_vision_pipeline.Pipeline.Photo.{
  insert_row, sort_crop, judged, sort_crops, counted, sort_found, crop_found,
  detect_and_buffer_photo, insert_rows, crops_of, embed, flush_embedding_batch,
}

module _ (models : Models) where
  abbrev pub rows : Tables models → List PhotoRow × List EventRow
  rows t = (t.photos, t.events)

  -- All crops are of one photo.
  abbrev pub AllOf : ℕ → List (FaceCropWithMeta models) → Type 0
  AllOf id [] = Unit
  AllOf id (c ∷ rest) = (c.photo_id ≡ id) × AllOf id rest

  abbrev Sorted : Type 0
  Sorted = List (FaceCropWithMeta models) × List ℕ

  -- The photo rows stay, and what is found is of the photo.
  abbrev Detects : ℕ → Tables models → Result PipelineError Sorted × Tables models → Type 0
  Detects id t p = (rows p.1 ≡ rows t) × ((found : Sorted) → p.0 ≡ ok found → AllOf id found.0)

  sort_crop-Detects :
      (id : ℕ) (c : FaceCropWithMeta models) (rest : Session models Sorted) (t : Tables models)
      → c.photo_id ≡ id
      → ((u : Tables models) → Detects id u (rest u))
      → Detects id t (sort_crop models c rest t)
  unfolding sort_crop insert_row
  sort_crop-Detects id c rest t own all = elim (Bool-cases (models.passed c.quality)) [
    | inl e ↦ rw e (
      state-after-pure rows (rest t) (λ fs. (c ∷ fs.0, fs.1)) ∙ (all t).0,
      λ found q.
          let (fs, ok_rest, made) = after-pure-ok (rest t) (λ fs. (c ∷ fs.0, fs.1)) found q in
          subst (λ f. AllOf id f.0) made (own, (all t).1 fs ok_rest),
    )
    | inr e ↦
        let u = (insert_row models c models.placeholder_embedding none false t).1 in
        let add = λ (fs : Sorted). let pair : Sorted = (fs.0, t.next_id ∷ fs.1) in pair in
        rw e (
          state-after-pure rows (rest u) add ∙ (all u).0,
          λ found q.
              let (fs, ok_rest, made) = after-pure-ok (rest u) add found q in
              subst (λ (f : Sorted). AllOf id f.0) made ((all u).1 fs ok_rest),
        )
  ]

  abbrev nothing_found : Result PipelineError Sorted
  nothing_found = ok ([], [])

  none_found : (id : ℕ) (found : Sorted) → nothing_found ≡ ok found → AllOf id found.0
  none_found id ([], ids) q = tt
  none_found id (c ∷ cs, ids) q = cc

  sort_crops-Detects :
      (photo : PhotoRow) (crops : List models.Crop) (t : Tables models)
      → Detects photo.id t (sort_crops models photo crops t)
  unfolding sort_crops judged
  sort_crops-Detects photo [] t = (refl, λ found q. none_found photo.id found q)
  sort_crops-Detects photo (crop ∷ rest) t = elim (Result-cases (models.filter crop)) [
    | inl (quality, e) ↦ rw e (
        sort_crop-Detects photo.id
          (record {
            crop = crop;
            photo_id = photo.id;
            event_id = photo.event_id;
            quality = quality;
          })
          (sort_crops models photo rest) t refl (sort_crops-Detects photo rest))
    | inr (x, e) ↦ rw e (refl, λ found q. cc)
  ]

  abbrev Buffered : Type 0
  Buffered = List (FaceCropWithMeta models) × ProcessingResult

  -- The photo rows stay, and what is buffered is of the photo.
  abbrev pub Buffers : ℕ → Tables models → Result PipelineError Buffered × Tables models → Type 0
  Buffers id t p = (rows p.1 ≡ rows t) × ((found : Buffered) → p.0 ≡ ok found → AllOf id found.0)

  sort_found-Buffers :
      (photo : PhotoRow) (faces : List models.Face)
      (crops : Result PipelineError (List models.Crop)) (t : Tables models)
      → Buffers photo.id t (sort_found models photo faces crops t)
  unfolding sort_found
  sort_found-Buffers photo faces (err x) t = (refl, λ found q. cc)
  sort_found-Buffers photo faces (ok crops) t =
      let (same, all) = sort_crops-Detects photo crops t in
      let sorted = sort_crops models photo crops t in
      (
        state-after-pure rows sorted (counted models photo faces) ∙ same,
        λ found q.
            let (fs, ok_rest, made) = after-pure-ok sorted (counted models photo faces) found q in
            subst (λ (f : Buffered). AllOf photo.id f.0) made (all fs ok_rest),
      )

  pub detect-Buffers :
      (photo : PhotoRow) (image : models.Image) (t : Tables models)
      → Buffers photo.id t (detect_and_buffer_photo models photo image t)
  unfolding detect_and_buffer_photo crop_found
  detect-Buffers photo image t = elim (Result-cases (models.detect image)) [
    | inl (faces, e) ↦
        rw e (sort_found-Buffers photo faces (models.crop_all image faces photo.id) t)
    | inr (x, e) ↦ rw e (refl, λ found q. cc)
  ]

  insert_rows_lem :
      (cs : List (FaceCropWithMeta models)) (vs : List (models.Vector × Option models.Vector))
      (t : Tables models)
      → (rows (insert_rows models cs vs t).1 ≡ rows t)
        × ((ids : List ℕ) → (insert_rows models cs vs t).0 ≡ ok ids → length ids ≡ length cs)
  unfolding insert_rows insert_row
  insert_rows_lem [] [] t = (refl, λ ids q. ground arith)
  insert_rows_lem (c ∷ cs) ((primary, secondary) ∷ vs) t =
      let u = (insert_row models c primary secondary true t).1 in
      let (same, all) = insert_rows_lem cs vs u in
      let add = λ (ids : List ℕ). let more : List ℕ = t.next_id ∷ ids in more in
      (
        state-after-pure rows (insert_rows models cs vs u) add ∙ same,
        λ ids q.
            let (rest, ok_rest, made) = after-pure-ok (insert_rows models cs vs u) add ids q in
            subst (λ (xs : List ℕ). length xs ≡ suc (length cs)) made
              (ap (λ (n : ℕ). suc n) (all rest ok_rest)),
      )
  insert_rows_lem [] (v ∷ vs) t = (refl, λ ids q. cc)
  insert_rows_lem (c ∷ cs) [] t = (refl, λ ids q. cc)

  insert_embedded :
      (cs : List (FaceCropWithMeta models))
      (p : Result PipelineError (List (models.Vector × Option models.Vector)) × Tables models)
      → (rows (after p (insert_rows models cs)).1 ≡ rows p.1)
        × ((ids : List ℕ) → (after p (insert_rows models cs)).0 ≡ ok ids → length ids ≡ length cs)
  insert_embedded cs (ok vs, t) = insert_rows_lem cs vs t
  insert_embedded cs (err x, t) = (refl, λ ids q. cc)

  -- A flush leaves the photo rows, and where it succeeds it stores a row for each crop.
  pub flush_rows :
      (cs : List (FaceCropWithMeta models)) (t : Tables models)
      → (rows (flush_embedding_batch models cs t).1 ≡ rows t)
        × ((ids : List ℕ) → (flush_embedding_batch models cs t).0 ≡ ok ids → length ids ≡ length cs)
  unfolding flush_embedding_batch
  flush_rows [] t = (refl, λ ids q. ground arith)
  flush_rows (c ∷ cs) t = insert_embedded (c ∷ cs) (embed models (crops_of models (c ∷ cs)) t)
