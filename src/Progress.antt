-- ===== src/Progress.antt =====
-- ml/processing_progress.py: the progress of the bulk face processing of an event, kept in a hash.
mod Seconds
pub mod Counters
mod Examples
use event_vision_pipeline.Base.{
  ℕ, ◌+◌, ◌-◌, ◌*◌, ◌/◌, String, Bool, true, false, ◌||◌, Option, none, some, leb, ltb, ◌==◌,
  if◌then◌else◌,
}
use event_vision_pipeline.Progress.Seconds.{nearest, divide, truncated}
use event_vision_pipeline.Redis.{Redis, Key, Value, Progress, progress, processing}

abbrev pub status_processing : String
status_processing = "processing"

abbrev pub status_clustering : String
status_clustering = "clustering"

abbrev pub status_complete : String
status_complete = "complete"

abbrev pub status_error : String
status_error = "error"

-- The five counters that every write carries.
pub record Counts : Type 0 where
  pub total_photos : ℕ
  pub processed_photos : ℕ
  pub failed_photos : ℕ
  pub total_faces : ℕ
  pub embedded_faces : ℕ

abbrev pub zero_counts : Counts
zero_counts = record {
  total_photos = 0;
  processed_photos = 0;
  failed_photos = 0;
  total_faces = 0;
  embedded_faces = 0;
}

-- The Redis database, and the tracker's own field `_started_at`.
pub record Tracked (Db : Type 0) : Type 0 where
  pub db : Db
  pub started_at : Option ℕ

-- int(remaining / (processed / elapsed)), where `elapsed` is the quotient of microseconds that
-- timedelta.total_seconds gives.
abbrev eta_from : ℕ → ℕ → ℕ → ℕ → Option ℕ
eta_from processed total now started =
    let elapsed = nearest (now - started) 1000000 in
    let rate = divide (nearest processed 1) elapsed in
    if leb total processed
    then some 0
    else if leb now started
    then none
    else some (truncated (divide (nearest (total - processed) 1) rate))

unfoldable pub eta_seconds : Option ℕ → ℕ → ℕ → ℕ → Option ℕ
eta_seconds none processed total now = none
eta_seconds (some started) processed total now =
    if processed == 0 then none else eta_from processed total now started

abbrev pub parse_progress : Option Value → Option Progress
parse_progress (some (progress p)) = some p
parse_progress _ = none

abbrev pub counts_of : Option Progress → Counts
counts_of none = zero_counts
counts_of (some p) = record {
  total_photos = p.total_photos;
  processed_photos = p.processed_photos;
  failed_photos = p.failed_photos;
  total_faces = p.total_faces;
  embedded_faces = p.embedded_faces;
}

abbrev or_now : ℕ → Option ℕ → ℕ
or_now now none = now
or_now now (some t) = t

module _ (r : Redis) (event_id ttl_seconds : ℕ) where
  unfoldable pub read : ℕ → r.Db → Option Progress
  read now db = parse_progress (r.get now (processing event_id) db)

  -- `_write`
  unfoldable pub write : ℕ → Counts → String → Option ℕ → Tracked r.Db → Tracked r.Db
  write now c status eta t = record {
    db = r.expire now (processing event_id) ttl_seconds (
        r.hset now (processing event_id)
          (progress (record {
            total_photos = c.total_photos;
            processed_photos = c.processed_photos;
            failed_photos = c.failed_photos;
            total_faces = c.total_faces;
            embedded_faces = c.embedded_faces;
            status = status;
            started_at = some (or_now now t.started_at);
            eta_seconds = eta;
          }))
          t.db);
    started_at = some (or_now now t.started_at);
  }

  unfoldable pub start : ℕ → ℕ → Tracked r.Db → Tracked r.Db
  start now total t =
      write now (record zero_counts { total_photos = total }) status_processing none
        (record t { started_at = some now })

  unfoldable pub update : ℕ → Counts → String → Tracked r.Db → Tracked r.Db
  update now c status t =
      write now c status (eta_seconds t.started_at c.processed_photos c.total_photos now) t

  unfoldable pub mark_clustering : ℕ → Counts → Tracked r.Db → Tracked r.Db
  unfolding update
  mark_clustering now c t = update now c status_clustering t

  unfoldable pub mark_complete : ℕ → Counts → Tracked r.Db → Tracked r.Db
  unfolding update
  mark_complete now c t = update now c status_complete t

  unfoldable pub mark_error : ℕ → Tracked r.Db → Tracked r.Db
  mark_error now t = write now (counts_of (read now t.db)) status_error none t
