-- ===== src/Pipeline.antt =====
-- ml/pipeline.py with ml/face_rows.py: the rows that the face pipeline works on, and the face models and
-- image decoding, which are parameters that may raise. Calls of the database do not fail here. What the
-- pipeline does to one photo or one batch of crops is in the module Photo, the run over an event in Bulk.
pub mod Photo
pub mod Flush
pub mod Bulk
pub mod Job
pub mod Process
use event_vision_pipeline.Base.{
  ℕ, suc, ◌+◌, String, Bool, true, false, ◌&&◌, not, Option, none, some, List, [], ◌∷◌, ◌++◌, ◌==◌,
  leb, length, if◌then◌else◌, occurrences,
}
use event_vision_pipeline.Base.Effect.{
  Result, ok, err, Effect, pure, raise, gets, modify, ◌>>=◌, ◌>>◌,
}

-- The columns that the pipeline reads or writes.
pub record PhotoRow : Type 0 where
  pub id : ℕ
  pub event_id : ℕ
  pub original_s3_key : String
  pub uploaded_at : ℕ
  pub face_count : ℕ
  pub faces_processed : Bool

pub record EventRow : Type 0 where
  pub id : ℕ
  pub total_faces : ℕ

pub record ProcessingResult : Type 0 where
  pub photo_id : ℕ
  pub face_count : ℕ
  pub quality_passed_count : ℕ
  pub embedding_ids : List ℕ
  pub error : Option String

-- ClusteringLockError, ClusteringLockBusyError, and what a model or a download raises.
pub data PipelineError : Type 0 where
  lock_error lock_busy : PipelineError
  failed : String → PipelineError

-- Decoding and the face models: what they return, and where they raise. The dual embedder may answer
-- the same crops differently (memory runs out), so it has a state of its own.
pub record Models : Type 1 where
  pub Bytes : Type 0
  pub Image : Type 0
  pub Face : Type 0
  pub Crop : Type 0
  pub Quality : Type 0
  pub Vector : Type 0
  pub World : Type 0
  pub decode_photo_bytes : Bytes → PhotoRow → Option Image
  pub detect : Image → Result PipelineError (List Face)
  pub crop_all : Image → List Face → ℕ → Result PipelineError (List Crop)
  pub filter : Crop → Result PipelineError Quality
  pub passed : Quality → Bool
  pub embed_batch : List Crop → Effect World PipelineError (List (Vector × Option Vector))
  pub placeholder_embedding : Vector

-- A dict keyed by photo, in the order of insertion.
abbrev pub Dict : Type 0 → Type 0
Dict A = List (ℕ × A)

abbrev pub keys : {A : Type 0} → Dict A → List ℕ
keys [] = []
keys ((k, x) ∷ rest) = k ∷ keys rest

abbrev pub lookup : {A : Type 0} → ℕ → Dict A → Option A
lookup k [] = none
lookup k ((j, x) ∷ rest) = let found = lookup k rest in if k == j then some x else found

abbrev pub set_item : {A : Type 0} → ℕ → A → Dict A → Dict A
set_item k x [] = (k, x) ∷ []
set_item k x ((j, y) ∷ rest) =
    let later = set_item k x rest in if k == j then (j, x) ∷ rest else (j, y) ∷ later

abbrev pub pop : {A : Type 0} → ℕ → Dict A → Dict A
pop k [] = []
pop k ((j, x) ∷ rest) = let later = pop k rest in if k == j then rest else (j, x) ∷ later

-- ids_by_photo.setdefault(photo_id, []).append(row_id)
abbrev pub append_id : ℕ → ℕ → Dict (List ℕ) → Dict (List ℕ)
append_id k id [] = (k, id ∷ []) ∷ []
append_id k id ((j, ids) ∷ rest) =
    let later = append_id k id rest in
    if k == j then (j, ids ++ (id ∷ [])) ∷ rest else (j, ids) ∷ later

abbrev pub get_photo : ℕ → List PhotoRow → Option PhotoRow
get_photo id [] = none
get_photo id (p ∷ rest) = let found = get_photo id rest in if p.id == id then some p else found

abbrev pub update_photo : ℕ → (PhotoRow → PhotoRow) → List PhotoRow → List PhotoRow
update_photo id f [] = []
update_photo id f (p ∷ rest) =
    let later = update_photo id f rest in if p.id == id then f p ∷ rest else p ∷ later

-- sum(Photo.face_count) of the event, 0 where it has no photo
abbrev pub sum_face_count : ℕ → List PhotoRow → ℕ
sum_face_count event_id [] = 0
sum_face_count event_id (p ∷ rest) =
    let n = sum_face_count event_id rest in if p.event_id == event_id then p.face_count + n else n

abbrev pub set_total_faces : ℕ → ℕ → List EventRow → List EventRow
set_total_faces event_id n [] = []
set_total_faces event_id n (e ∷ rest) =
    let later = set_total_faces event_id n rest in
    if e.id == event_id then record e { total_faces = n } ∷ rest else e ∷ later

module _ (models : Models) where
  open models use {Bytes, Image, Face, Crop, Quality, Vector, World}

  -- The other columns of the row, such as the box and the angles, are read off the crop and its quality.
  pub record FaceEmbedding : Type 0 where
    pub id : ℕ
    pub photo_id : ℕ
    pub event_id : ℕ
    pub crop : Crop
    pub quality : Quality
    pub embedding : Vector
    pub secondary_embedding : Option Vector
    pub quality_passed : Bool

  pub record FaceCropWithMeta : Type 0 where
    pub crop : Crop
    pub photo_id : ℕ
    pub event_id : ℕ
    pub quality : Quality

  -- The session: rows that were added or changed, committed or not, and the state of the embedder.
  pub record Tables : Type 0 where
    pub world : World
    pub photos : List PhotoRow
    pub events : List EventRow
    pub embeddings : List FaceEmbedding
    pub next_id : ℕ

  abbrev pub Session : Type 0 → Type 0
  Session A = Effect Tables PipelineError A
