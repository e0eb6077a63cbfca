-- ===== src/Lib.antt =====
-- Event Vision Pipeline, the backend of a photo service for events: photographers upload the photos of an
-- event, a face pipeline on a GPU machine finds and groups the faces, and guests find their own photos.
-- This library models the parts of backend/app that carry its rules, and proves what they promise.
--
-- The parts and how they work together:
--   * Redis (core/redis_client.py hands the client out): the server is an interface, Redis/Server.antt, of
--     commands with their documented effect on what each key holds. Every part below that keeps state in
--     Redis takes it as a parameter; Redis/Memory.antt is a server in memory, on which the tests run.
--     Times are microseconds, and a time to live is in seconds, as in the commands.
--   * Otp.antt, utils/otp.py: one-time codes; send_otp, verify_otp and verify_otp_pair under their names.
--     The delivery adapters and the drawn code are parameters.
--   * Lock.antt, ml/clustering/locks.py: the locks on an event, with acquire, extend and release. A Lua
--     script is one step, as Redis runs it.
--   * GpuHost.antt, services/gpu_host_service.py: the EC2 machine of the face pipeline, started on demand
--     and stopped when idle. EC2 and the broker are parameters (Cloud).
--   * Watch.antt, ml/face_processing_watch.py: heartbeats and stall tests of a face job. Progress.antt,
--     ml/processing_progress.py: the counters that the dashboard shows; the estimate of the time
--     left is computed with rounded doubles, Progress/Seconds.antt.
--   * FaceProcessing.antt, services/face_processing_service.py: starts a face job and gives an event back.
--   * Reconciler.antt, services/face_processing_reconciler.py: keeps events in processing moving. It calls
--     GpuHost, Lock, Watch and FaceProcessing on one shared state.
--   * Clustering.antt and its modules, ml/clustering/types.py, clustering_config.py and
--     incremental_clusterer.py: the grouping of new face crops with the clusters that exist. numpy and
--     scikit-learn are an interface (Clustering/Arithmetic.antt) of operations, with the number of labels
--     that they document; the merging may raise.
--   * Prefetch.antt, services/storage_prefetch.py: the generator that keeps downloads in flight ahead of the
--     loop that consumes them.
--   * Pipeline.antt, ml/pipeline.py with ml/face_rows.py: the face pipeline. Pipeline/Photo.antt is one photo
--     with its rows, Flush.antt what becomes of a batch of crops, Bulk.antt the loop body over the photos of
--     an event with the buffer of crops, Job.antt the lock with its pulse and the progress, and Process.antt
--     the whole of process_event_photos. Detection, quality tests, embedding, downloads, the
--     loading of the models, the clusterer of the run and the task of the pulse are parameters that may
--     raise, and image decoding one that may give no image; calls of the database do not fail.
--   * ClusterStore.antt, ml/clustering/cluster_persistence.py: how a clustering result is written into the
--     tables of faces and clusters, foreign key included.
--   * ClusterManager.antt, ml/clustering/cluster_manager.py: run_clustering_pass, which reads open faces in
--     batches, calls the clusterer and writes its result, under the lock of the event.
--   * Selfie.antt, ml/matching/selfie_matcher.py: the clusters that match a guest's selfie, by one model or
--     two. The similarity of vectors is an interface with an order; pgvector's query is an exact sort.
--   * MediaTokens.antt, utils/media_tokens.py: the signed links to previews, with hmac as a parameter.
--   * Folder.antt, services/folder_service.py with models/folder.py: the folders of an event, as rows of a
--     table, with create_folder and update_folder.
--   * RateLimit.antt, core/rate_limit.py: the sliding window of RateLimiter.check, with the commands on
--     sorted sets as an interface of its own.
--   * Archival.antt, services/archival_service.py: archive_event and restore_event on the rows of an event,
--     with the object store as a parameter. A restored event goes back to FaceProcessing.
--
-- A method that changes state and may raise is a function from the state to a result beside the new state
-- (Base/Effect.antt), so what was written before a raise stays written. Most loops are recursions on the
-- lists that the code walks. Where a loop has no such list the model takes fuel, and a theorem says that it
-- is enough: the walk over parents in Folder.antt (one round for each folder and one more), the loop of
-- Prefetch.antt (one round for each item and one more), the draining of the crop buffer in Pipeline/Bulk.antt
-- (one round for each crop and one more) and the batches of a clustering pass in ClusterManager.antt (one
-- round for each face and one more). The scaling of a quotient of doubles in Progress/Seconds.antt takes 1023
-- steps at most, as many as the exponent of a double has, and no theorem is about it.
--
-- Not modelled: the inference with face models, image work, SQL queries and outside services, the HTTP
-- routes, schemas and tables, log lines and texts of errors; of the pipeline match_selfie and the liveness
-- checks, and of the clustering manager the recovery of orphans. The Celery queue is a list of the jobs
-- put on it, and the database rows of a part are the records that it reads. One clock value serves a whole
-- call, but for the run of the pipeline over an event, which reads a clock again for each photo and pulse,
-- and the clustering pass, which reads one for each batch. Identifiers are numbers.
mod Base
pub mod Redis
pub mod Otp
pub mod Prefetch
pub mod Pipeline
pub mod Lock
pub mod GpuHost
pub mod Watch
pub mod Progress
pub mod FaceProcessing
pub mod Reconciler
pub mod Clustering
pub mod ClusterStore
pub mod ClusterManager
pub mod Folder
pub mod RateLimit
pub mod Archival
pub mod Selfie
pub mod MediaTokens
