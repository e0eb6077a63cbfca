-- ===== src/Pipeline/Flush.antt =====
-- `_persist_passed_crops` and `_fail_awaiting_photos` of ml/pipeline.py: a batch of crops goes to the
-- embedder, and the photos that wait for it are finished, or failed. The proofs are in the modules below.
pub mod State
pub mod Settling
pub mod Waiting
use event_vision_pipeline.Base.{
  ℕ, suc, Option, none, some, List, [], ◌∷◌, ◌++◌, ◌==◌, length, if◌then◌else◌, occurrences,
}
use event_vision_pipeline.Base.Effect.{Result, ok, err}
use event_vision_pipeline.Pipeline.{
  PhotoRow, ProcessingResult, PipelineError, Models, FaceCropWithMeta, Tables, Dict, lookup, pop,
  append_id, get_photo,
}
use event_vision_pipeline.Pipeline.Photo.{
  flush_embedding_batch, finish_photo, mark_processed, with_ids,
}

abbrev pub photo_ids_of : {models : Models} → List (FaceCropWithMeta models) → List ℕ
photo_ids_of [] = []
photo_ids_of (c ∷ rest) = c.photo_id ∷ photo_ids_of rest

-- The embedding ids of a flush by photo, in the order in which the photos come.
abbrev pub ids_by_photo :
    {models : Models} → List (FaceCropWithMeta models) → List ℕ → Dict (List ℕ) → Dict (List ℕ)
ids_by_photo (c ∷ cs) (id ∷ ids) dict = ids_by_photo cs ids (append_id c.photo_id id dict)
ids_by_photo _ _ dict = dict

-- if partial is not None: partial.embedding_ids.extend(row_ids)
abbrev pub extend_result : ℕ → List ℕ → Dict ProcessingResult → Dict ProcessingResult
extend_result k ids [] = []
extend_result k ids ((j, x) ∷ rest) =
    let later = extend_result k ids rest in
    if k == j then (j, with_ids x ids) ∷ rest else (j, x) ∷ later

module _ (models : Models) where
  -- What the loops over a flush work on: the rows, and the photos that wait for their crops.
  pub record Awaiting : Type 0 where
    pub tables : Tables models
    pub awaiting : Dict ProcessingResult
    pub count : ℕ

  abbrev finish_awaiting : ℕ → Option PhotoRow → Option ProcessingResult → Awaiting → Awaiting
  finish_awaiting photo_id (some photo) (some result) a = record {
    tables = finish_photo models photo result a.tables;
    awaiting = pop photo_id a.awaiting;
    count = suc a.count;
  }
  finish_awaiting photo_id _ _ a = a

  -- One round over ids_by_photo; `remaining` are the photos of the crops that stay in the buffer.
  pub settle_photo : ℕ → List ℕ → List ℕ → Awaiting → Awaiting
  unfolding finish_awaiting
  settle_photo photo_id row_ids remaining a =
      let a' : Awaiting = record a { awaiting = extend_result photo_id row_ids a.awaiting } in
      if occurrences photo_id remaining == 0
      then finish_awaiting photo_id (get_photo photo_id a'.tables.photos)
          (lookup photo_id a'.awaiting) a'
      else a'

  pub settle_photos : Dict (List ℕ) → List ℕ → Awaiting → Awaiting
  unfolding settle_photo
  settle_photos [] remaining a = a
  settle_photos ((photo_id, row_ids) ∷ rest) remaining a =
      settle_photos rest remaining (settle_photo photo_id row_ids remaining a)

  abbrev persisted :
      List (FaceCropWithMeta models)
      → List (FaceCropWithMeta models)
      → Dict ProcessingResult
      → Result PipelineError (List ℕ) × Tables models
      → Result PipelineError ℕ × Awaiting
  unfolding settle_photos
  persisted to_flush remaining_buffer awaiting (err e, t) =
      (err e, record { tables = t; awaiting = awaiting; count = 0 })
  persisted to_flush remaining_buffer awaiting (ok inserted, t) = (
    ok (length inserted),
    settle_photos (ids_by_photo to_flush inserted []) (photo_ids_of remaining_buffer)
        (record { tables = t; awaiting = awaiting; count = 0 }),
  )

  -- `_persist_passed_crops`: the number of embedded faces; the number of finished photos is the count.
  unfoldable pub persist_passed_crops :
      List (FaceCropWithMeta models)
      → List (FaceCropWithMeta models)
      → Dict ProcessingResult
      → Tables models
      → Result PipelineError ℕ × Awaiting
  unfolding persisted
  persist_passed_crops to_flush remaining_buffer awaiting t =
      persisted to_flush remaining_buffer awaiting (flush_embedding_batch models to_flush t)

  -- `_fail_awaiting_photos`, by the keys of the dict; a photo that is gone is counted too.
  pub fail_awaiting_photos : List ℕ → Awaiting → Awaiting
  fail_awaiting_photos [] a = a
  fail_awaiting_photos (photo_id ∷ rest) a = fail_awaiting_photos rest (record {
    tables = mark_processed models photo_id a.tables;
    awaiting = pop photo_id a.awaiting;
    count = suc a.count;
  })
