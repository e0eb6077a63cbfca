-- ===== src/ClusterStore/Refines.antt =====
-- A batch of the clusterer, written by ml/clustering/cluster_persistence.py.
use event_vision_pipeline.Base.{ℕ, ◌≡◌}
use event_vision_pipeline.Base.Effect.{ok}
use event_vision_pipeline.Clustering.{Numerics, ClusteringInput, ClusteringResult}
use event_vision_pipeline.Clustering.Incremental.{cluster}
use event_vision_pipeline.Clustering.Incremental.Apart.{cluster-AllApart}
use event_vision_pipeline.ClusterStore.{Store}
use event_vision_pipeline.ClusterStore.Write.{write_result}
use event_vision_pipeline.ClusterStore.View.{view, place_result, view-write_result}

-- Written to the tables of an event, a result of the clusterer puts each face of the event where the
-- result says: the crops of a new or an expanded cluster go to it, and the faces of absorbed clusters, with
-- the crops of the merge, to the survivor, in this order. All other faces of the event stay in the cluster
-- that they are in, though absorbed clusters are deleted, which sets their faces to no cluster.
pub write_result_refines :
    (numerics : Numerics) (new_cluster_id : ℕ → ℕ) (input : ClusteringInput numerics.Vector)
    (result : ClusteringResult numerics.Vector) (event_id : ℕ) (s : Store numerics.Vector)
    → cluster numerics new_cluster_id input ≡ ok result
    → view event_id (write_result numerics event_id result s).faces
      ≡ place_result result (view event_id s.faces)
write_result_refines numerics new_cluster_id input result event_id s e =
    view-write_result numerics event_id result s
      (cluster-AllApart numerics new_cluster_id input result e)
