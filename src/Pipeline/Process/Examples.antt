-- ===== src/Pipeline/Process/Examples.antt =====
-- Three photos of the event 7 that wait (one cannot be downloaded, one has no face that passes), and a
-- photo of another event, with the server in memory.
use event_vision_pipeline.Base.{
  ℕ, zero, suc, ◌+◌, ◌-◌, ◌*◌, ◌≤◌, ◌<◌, Bool, true, false, not, Option, none, some, List, [], ◌∷◌,
  ◌≡◌, refl, arith, ◌==◌, length, if◌then◌else◌, max, ◌⊎◌,
}
use event_vision_pipeline.Base.Effect.{Result, ok, err}
use event_vision_pipeline.Redis.{seconds}
use event_vision_pipeline.Redis.Memory.{memory, empty, Store}
use event_vision_pipeline.Lock.{face_pipeline, EventClusteringLock, key_of, token_matches, acquire}
use event_vision_pipeline.Progress.{status_complete}
use event_vision_pipeline.Pipeline.{
  PhotoRow, get_photo, sum_face_count, PipelineError, lock_busy, failed, Models, Tables,
}
use event_vision_pipeline.Prefetch.{for_each_prefetched}
use event_vision_pipeline.Pipeline.Photo.{
  process_photo, detect_and_buffer_photo, flush_embedding_batch, finish_photo, mark_processed,
}
use event_vision_pipeline.Pipeline.Photo.Totals.{process_photo_up_to_date, total_of}
use event_vision_pipeline.Pipeline.Flush.{persist_passed_crops}
use event_vision_pipeline.Pipeline.Bulk.{final_flush, fresh_run, load_pending_photos, handle_rows}
use event_vision_pipeline.Pipeline.Bulk.Buffer.{buffer_below_batch}
use event_vision_pipeline.Pipeline.Bulk.Pending.{PrimaryKey}
use event_vision_pipeline.Pipeline.Job.{BulkConfig, Shared, acquire_pipeline_lock, handle_photo}
use event_vision_pipeline.Pipeline.Job.Attempts.{AllWithin}
use event_vision_pipeline.Pipeline.Process.{
  EventClusterer, EventFacePipelineResult, Done, process_pending, cluster_event,
  process_event_photos,
}
use event_vision_pipeline.Pipeline.Process.Photos.{photos_all_done, AllProcessed, Reports}
use event_vision_pipeline.Pipeline.Process.Release.{lock_given_back, busy_changes_nothing}
use event_vision_pipeline.Pipeline.Process.Shown.{complete_is_shown, Shows}

-- An image is its number of faces, and the face 0 does not pass.
abbrev faces : ℕ → List ℕ
faces zero = []
faces (suc n) = n ∷ faces n

abbrev vectors : List ℕ → List (ℕ × Option ℕ)
vectors [] = []
vectors (c ∷ cs) = (c * 10, none) ∷ vectors cs

abbrev toy : Models
toy = record {
  Bytes = ℕ;
  Image = ℕ;
  Face = ℕ;
  Crop = ℕ;
  Quality = ℕ;
  Vector = ℕ;
  World = ℕ;
  decode_photo_bytes = λ b p. some b;
  detect = λ image. ok (faces image);
  crop_all = λ image fs id. ok fs;
  filter = λ crop. ok crop;
  passed = λ q. not (q == 0);
  embed_batch = λ crops n. (ok (vectors crops), suc n);
  placeholder_embedding = 0;
}

abbrev photo : ℕ → ℕ → ℕ → PhotoRow
photo id event_id at = record {
  id = id;
  event_id = event_id;
  original_s3_key = "key";
  uploaded_at = at;
  face_count = 0;
  faces_processed = false;
}

abbrev shoot : Tables toy
shoot = record {
  world = 0;
  photos = photo 1 7 30 ∷ photo 2 7 10 ∷ photo 3 8 5 ∷ photo 4 7 20 ∷ [];
  events = record { id = 7; total_faces = 0 } ∷ [];
  embeddings = [];
  next_id = 100;
}

abbrev download : PhotoRow → Result PipelineError ℕ
download p = if p.id == 4 then err (failed "no such key") else ok (if p.id == 2 then 4 else 1)

abbrev config : BulkConfig
config = record {
  embedding_batch_size = 2;
  download_ahead = 2;
  processing_progress_ttl_seconds = 3600;
  lock_retry_base_delay = 500;
  lock_retry_attempts = 3;
}

abbrev lock : EventClusteringLock
lock = record { kind = face_pipeline; event_id = 7; ttl_seconds = 600; own_token = 5 }

abbrev begin : Shared Store
begin = record { tracked = record { db = empty; started_at = none }; readings = 0; slept = [] }

abbrev clock : ℕ → ℕ
clock n = n * 1000

abbrev one_pulse : ℕ → ℕ
one_pulse n = 1

abbrev clusterer : EventClusterer toy Store
clusterer = record {
  Clusters = ℕ;
  Answer = ℕ;
  run_clustering = λ event_id t (clusters, db). (ok 1, (suc clusters, db));
}

abbrev result : EventFacePipelineResult ℕ
result = record {
  event_id = 7;
  photos_processed = 2;
  photos_failed = 1;
  total_faces = 5;
  total_embedded = 3;
  clustering = 1;
}

abbrev run_once :
    Bool
    → Shared Store
    → Done memory toy config clock one_pulse lock clusterer (ok tt) (ok tt) download
run_once has_redis s =
    process_event_photos memory toy config clock one_pulse lock clusterer (ok tt) (ok tt) download
      has_redis shoot s 0

primary_key : PrimaryKey shoot.photos
primary_key j = ground arith

acquired : (acquire_pipeline_lock memory config clock true lock begin).0 ≡ ok tt
unfolding acquire_pipeline_lock acquire
acquired = refl

answered : (run_once true begin).0 ≡ ok result
unfolding process_event_photos acquire_pipeline_lock acquire process_pending for_each_prefetched
    load_pending_photos cluster_event final_flush handle_photo detect_and_buffer_photo
    persist_passed_crops flush_embedding_batch finish_photo mark_processed
answered = refl

photos_all_done_example :
    let pending = load_pending_photos 7 shoot.photos in
    let (answer, job, after) = run_once true begin in
    (job.run.photos_processed + job.run.photos_failed ≡ length pending)
    × AllProcessed pending job.run.tables.photos
    × Reports memory toy config clock one_pulse lock clusterer
        (ok tt)
        (ok tt)
        download
        job.run
        answer
photos_all_done_example =
    photos_all_done memory toy config clock one_pulse lock clusterer (ok tt) (ok tt) download true
      shoot begin 0 primary_key acquired refl

-- The clock was read often enough, and not too late.
read_in_time :
    (clock ((run_once true begin).1.shared.readings - 1) ≤ 60000)
    × (60000 < clock ((run_once true begin).1.shared.readings - 2) + seconds 3600)
unfolding process_event_photos acquire_pipeline_lock acquire process_pending for_each_prefetched
    load_pending_photos cluster_event final_flush handle_photo detect_and_buffer_photo
    persist_passed_crops flush_embedding_batch finish_photo mark_processed
read_in_time = omega arith

lock_given_back_example :
    let (answer, job, after) = run_once true begin in
    ((◌≡◌ {A = Result PipelineError Unit} (ok tt) (ok tt))
      × (token_matches (memory.get 60000 (key_of lock) job.shared.tracked.db) 5 ≡ false))
    ⊎ ((e : PipelineError) × (◌≡◌ {A = Result PipelineError Unit} (ok tt) (err e))
        × (answer ≡ err e))
lock_given_back_example =
    lock_given_back memory toy config clock one_pulse lock clusterer (ok tt) (ok tt) download true
      shoot begin 0 60000 acquired read_in_time.0

complete_is_shown_example :
    let (answer, job, after) = run_once true begin in
    Shows memory 7 3600 60000 job.shared.tracked.db
      (record {
        total_photos = length (load_pending_photos 7 shoot.photos);
        processed_photos = length (load_pending_photos 7 shoot.photos);
        failed_photos = 1;
        total_faces = 5;
        embedded_faces = 3;
      })
      status_complete
complete_is_shown_example =
    complete_is_shown memory toy config clock one_pulse lock clusterer (ok tt) (ok tt) download true
      shoot begin 0 result 60000 primary_key acquired refl answered read_in_time.1

-- Another worker has the lock.
abbrev taken : Shared Store
taken = record begin {
  tracked = record {
    db = (acquire memory 0 (record lock { own_token = 9 }) empty).1;
    started_at = none;
  };
}

refused : (acquire_pipeline_lock memory config clock true lock taken).0 ≡ err lock_busy
unfolding acquire_pipeline_lock acquire
refused = refl

busy_changes_nothing_example :
    let (answer, job, after) = run_once true taken in
    (answer ≡ err lock_busy)
    × (job.run ≡ fresh_run shoot)
    × (◌≡◌ {A = ℕ} after 0)
    × (memory.entry job.shared.tracked.db (key_of lock)
        ≡ memory.entry taken.tracked.db (key_of lock))
    × (job.shared.readings ≡ 0 + 3)
    × (length job.shared.slept ≡ 0 + (3 - 1))
    × AllWithin 8000 job.shared.slept
busy_changes_nothing_example =
    busy_changes_nothing memory toy config clock one_pulse lock clusterer (ok tt) (ok tt) download
      shoot taken 0 lock_busy (key_of lock) (omega arith) tt refused

buffer_below_batch_example :
    length (handle_rows toy 2 (photo 1 7 30) (ok 9) (fresh_run shoot)).crop_buffer < max 1 2
buffer_below_batch_example = buffer_below_batch toy 2 (photo 1 7 30) (ok 9) (fresh_run shoot)

process_photo_up_to_date_example :
    let (result, after) = process_photo toy (ok tt) 2 4 shoot in
    (get_photo 2 after.photos
      ≡ some (record (photo 2 7 10) { face_count = result.face_count; faces_processed = true }))
    × (total_of 7 after.events ≡ some (sum_face_count 7 after.photos))
process_photo_up_to_date_example =
    process_photo_up_to_date toy (ok tt) 2 4 shoot (photo 2 7 10) refl (λ e. cc)
