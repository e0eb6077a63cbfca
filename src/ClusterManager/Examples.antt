-- ===== src/ClusterManager/Examples.antt =====
-- A pass in batches of one face over the faces of ClusterStore/Examples.antt, with the server in memory.
use event_vision_pipeline.Base.{
  ℕ, ◌+◌, ◌*◌, ◌≤◌, Bool, true, false, none, [], ◌≡◌, refl, arith, occurrences,
}
use event_vision_pipeline.Base.Effect.{ok}
use event_vision_pipeline.Redis.Memory.{memory, empty, Store as Server}
use event_vision_pipeline.Lock.{clustering, EventClusteringLock, acquire}
use event_vision_pipeline.Clustering.{cluster_type}
use event_vision_pipeline.Clustering.Incremental.Examples.{tags}
use event_vision_pipeline.ClusterStore.Examples.{shoot}
use event_vision_pipeline.Pipeline.Job.{BulkConfig, Shared, acquire_pipeline_lock}
use event_vision_pipeline.ClusterManager.{run_clustering_pass}
use event_vision_pipeline.ClusterManager.Ends.{DistinctFaces, Exhausts, pass_ends}

abbrev config : BulkConfig
config = record {
  embedding_batch_size = 2;
  download_ahead = 2;
  processing_progress_ttl_seconds = 3600;
  lock_retry_base_delay = 500;
  lock_retry_attempts = 3;
}

abbrev lock : EventClusteringLock
lock = record { kind = clustering; event_id = 7; ttl_seconds = 600; own_token = 5 }

abbrev begin : Shared Server
begin = record { tracked = record { db = empty; started_at = none }; readings = 0; slept = [] }

abbrev clock : ℕ → ℕ
clock n = n * 1000

abbrev fresh : ℕ → ℕ → ℕ
fresh batch n = 50 + batch * 10 + n

abbrev never : ℕ → Bool
never n = false

acquired : (acquire_pipeline_lock memory config clock true lock begin).0 ≡ ok tt
unfolding acquire_pipeline_lock acquire
acquired = refl

distinct : DistinctFaces shoot.faces
distinct k = ground arith

pass_ends_example :
    let (answer, p) =
      run_clustering_pass memory tags clock fresh never 1 cluster_type
        (0, 30)
        lock
        config
        true
        shoot
        begin in
    Exhausts memory tags clock fresh never 1 cluster_type (0, 30) lock answer p
    × (occurrences 3 p.attempted ≤ 1)
pass_ends_example =
    pass_ends memory tags clock fresh never 1 cluster_type (0, 30) lock config true shoot begin 3
      (omega arith) acquired distinct
