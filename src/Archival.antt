-- ===== src/Archival.antt =====
-- services/archival_service.py: an event is archived, its originals in cold storage and its faces deleted,
-- and restored. The object store is a parameter. Moves that the code runs side by side are a row of moves.
-- The proofs are in the modules below.
pub mod Faces
pub mod Moves
mod Examples
use event_vision_pipeline.Base.{
  ℕ, suc, ◌+◌, String, Bool, true, false, not, Option, none, some, List, [], ◌∷◌, ◌++◌, length,
  ◌==◌, if◌then◌else◌,
}
use event_vision_pipeline.Base.Effect.{
  Result, ok, err, Effect, pure, raise, gets, modify, ◌>>=◌, ◌>>◌,
}
use event_vision_pipeline.FaceProcessing.{Event, PhotoRow, archived, processing}

pub data ProcessingStatus : Type 0 where
  status_pending status_processing status_completed status_failed : ProcessingStatus

pub data StorageClass : Type 0 where
  glacier_ir standard : StorageClass

-- The columns of a photo that archival reads or writes.
pub record Photo : Type 0 where
  pub id : ℕ
  pub event_id : ℕ
  pub original_s3_key : String
  pub proxy_s3_key : Option String
  pub thumb_s3_key : Option String
  pub micro_thumb_s3_key : Option String
  pub preview_s3_key : Option String
  pub blurhash : Option String
  pub derivative_file_size_bytes : ℕ
  pub face_count : ℕ
  pub faces_processed : Bool
  pub processing_status : ProcessingStatus

-- NotFoundError, and the RuntimeError of a move that failed.
pub data ArchivalError : Type 0 where
  not_found move_failed : ArchivalError

-- The object store: a move may fail.
pub record Storage : Type 1 where
  pub World : Type 0
  pub change_storage_class : String → StorageClass → World → Bool × World
  pub delete_objects : List String → World → World

-- The event that the identifier names, the photos, the event identifiers of the embeddings and of the
-- clusters, the processed-photos counter, and what is queued: notices and photos, newest first.
pub record State (World : Type 0) : Type 0 where
  pub world : World
  pub event : Option Event
  pub processed_photos : ℕ
  pub photos : List Photo
  pub embeddings : List ℕ
  pub clusters : List ℕ
  pub notices : List ℕ
  pub photo_jobs : List ℕ

abbrev pub of_event : ℕ → List Photo → List Photo
of_event event_id [] = []
of_event event_id (p ∷ rest) =
    let others = of_event event_id rest in if p.event_id == event_id then p ∷ others else others

abbrev pub key_list : Option String → List String
key_list none = []
key_list (some k) = k ∷ []

-- Photo.proxy_bucket_keys, of each photo
abbrev pub proxy_bucket_keys : Photo → List String
proxy_bucket_keys p =
    key_list p.proxy_s3_key
    ++ key_list p.thumb_s3_key
    ++ key_list p.micro_thumb_s3_key
    ++ key_list p.preview_s3_key

abbrev pub all_proxy_keys : List Photo → List String
all_proxy_keys [] = []
all_proxy_keys (p ∷ rest) = proxy_bucket_keys p ++ all_proxy_keys rest

-- DELETE ... WHERE event_id = ...
abbrev pub without : ℕ → List ℕ → List ℕ
without event_id [] = []
without event_id (x ∷ rest) =
    let others = without event_id rest in if x == event_id then others else x ∷ others

abbrev pub strip_photo : Photo → Photo
strip_photo p = record p {
  proxy_s3_key = none;
  thumb_s3_key = none;
  micro_thumb_s3_key = none;
  preview_s3_key = none;
  derivative_file_size_bytes = 0;
  blurhash = none;
  face_count = 0;
  processing_status = status_pending;
}

abbrev pub strip_photos : ℕ → List Photo → List Photo
strip_photos event_id [] = []
strip_photos event_id (p ∷ rest) =
    let others = strip_photos event_id rest in
    if p.event_id == event_id then strip_photo p ∷ others else p ∷ others

abbrev pub photo_ids : List Photo → List ℕ
photo_ids [] = []
photo_ids (p ∷ rest) = p.id ∷ photo_ids rest

module _ (storage : Storage) where
  abbrev pub Method : Type 0 → Type 0
  Method A = Effect (State storage.World) ArchivalError A

  -- The photos whose move failed, and the store after all moves.
  abbrev pub move_all : StorageClass → List Photo → storage.World → List ℕ × storage.World
  move_all class [] w = ([], w)
  move_all class (p ∷ rest) w =
      let (moved, w') = storage.change_storage_class p.original_s3_key class w in
      let (failed, w'') = move_all class rest w' in (if moved then failed else p.id ∷ failed, w'')

  abbrev delete_proxies : List String → storage.World → storage.World
  delete_proxies [] w = w
  delete_proxies keys w = storage.delete_objects keys w

  -- The rest of `archive_event`, on the event and the moves.
  pub finish_archive : ℕ → Event → List ℕ → Method Unit
  finish_archive event_id event (p ∷ failed) = raise move_failed
  finish_archive event_id event [] = modify (λ s. record s {
    world = delete_proxies (all_proxy_keys (of_event event_id s.photos)) s.world;
    embeddings = without event_id s.embeddings;
    clusters = without event_id s.clusters;
    event = some (record event { status = archived });
    photos = strip_photos event_id s.photos;
    notices = event_id ∷ s.notices;
  })

  pub archive_found : ℕ → Option Event → Method Unit
  unfolding finish_archive
  archive_found event_id none s = (err not_found, s)
  archive_found event_id (some event) s =
      let (failed, w) = move_all glacier_ir (of_event event_id s.photos) s.world in
      finish_archive event_id event failed (record s { world = w })

  unfoldable pub archive_event : ℕ → Method Unit
  unfolding archive_found
  archive_event event_id s = archive_found event_id s.event s

  -- Failed moves back are only logged.
  pub restore_found : ℕ → Option Event → Method Unit
  restore_found event_id none = raise not_found
  restore_found event_id (some event) = modify (λ s. record s {
    world = (move_all standard (of_event event_id s.photos) s.world).1;
    event = some (record event { status = processing });
    processed_photos = 0;
    photo_jobs = photo_ids (of_event event_id s.photos) ++ s.photo_jobs;
  })

  unfoldable pub restore_event : ℕ → Method Unit
  unfolding restore_found
  restore_event event_id s = restore_found event_id s.event s
