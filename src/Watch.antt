-- ===== src/Watch.antt =====
-- ml/face_processing_watch.py: when the face job of an event was started and last heard of. An instant
-- is a number of microseconds, so `_as_utc` and the ISO form change nothing.
use event_vision_pipeline.Base.{ℕ, ◌+◌, Bool, false, Option, none, some, leb, ltb}
use event_vision_pipeline.Redis.{Redis, Value, watch, mark, face_watch, face_requeue, face_give_up}

pub record FaceProcessingWatchSnapshot : Type 0 where
  pub started_at : ℕ
  pub last_heartbeat_at : Option ℕ

abbrev pub parse_snapshot : Option Value → Option FaceProcessingWatchSnapshot
parse_snapshot (some (watch (some started) heartbeat)) =
    some (record { started_at = started; last_heartbeat_at = heartbeat })
parse_snapshot _ = none

abbrev pub or_now : ℕ → Option ℕ → ℕ
or_now now none = now
or_now now (some t) = t

abbrev started_or_now : ℕ → Option FaceProcessingWatchSnapshot → ℕ
started_or_now now none = now
started_or_now now (some s) = s.started_at

-- Since the last heartbeat, or since the start if there was none.
abbrev pub last_activity : FaceProcessingWatchSnapshot → ℕ
last_activity s = or_now s.started_at s.last_heartbeat_at

-- seconds_since_activity(...) >= stall_after, with the difference moved to the other side
unfoldable pub is_stalled : FaceProcessingWatchSnapshot → ℕ → ℕ → Bool
is_stalled s stall_after now = leb (last_activity s + stall_after) now

-- clock - last_heartbeat_at < stall_after
abbrev beats_after : Option ℕ → ℕ → ℕ → Bool
beats_after none stall_after now = false
beats_after (some t) stall_after now = ltb now (t + stall_after)

unfoldable pub has_fresh_heartbeat : FaceProcessingWatchSnapshot → ℕ → ℕ → Bool
has_fresh_heartbeat s stall_after now = beats_after s.last_heartbeat_at stall_after now

module _ (r : Redis) (event_id ttl_seconds : ℕ) where
  unfoldable pub read : ℕ → r.Db → Option FaceProcessingWatchSnapshot
  read now db = parse_snapshot (r.get now (face_watch event_id) db)

  unfoldable pub write : ℕ → ℕ → Option ℕ → r.Db → r.Db
  write now started_at last_heartbeat_at db =
      r.expire now (face_watch event_id) ttl_seconds
        (r.hset now (face_watch event_id) (watch (some started_at) last_heartbeat_at) db)

  unfoldable pub mark_started : ℕ → Option ℕ → r.Db → r.Db
  unfolding write
  mark_started now started_at db =
      r.delete (face_give_up event_id) (write now (or_now now started_at) none db)

  unfoldable pub record_heartbeat : ℕ → r.Db → r.Db
  unfolding write read
  record_heartbeat now db = write now (started_or_now now (read now db)) (some now) db

  unfoldable pub try_begin_give_up : ℕ → r.Db → Bool × r.Db
  try_begin_give_up now db = r.set_nx now (face_give_up event_id) mark ttl_seconds db

  unfoldable pub try_mark_requeued : ℕ → ℕ → r.Db → Bool × r.Db
  try_mark_requeued now debounce_seconds db =
      r.set_nx now (face_requeue event_id) mark debounce_seconds db
