-- ===== src/Clustering/Arithmetic.antt =====
-- numpy and scikit-learn as the clusterer uses them: vectors of floats with their arithmetic, and the
-- two clustering algorithms with the number of labels that they document. A label of -1 is none.
use event_vision_pipeline.Base.{ℕ, Bool, Option, some, List, length, ◌≡◌}

pub record Numerics : Type 1 where
  pub Vector : Type 0
  pub dimension : Vector → ℕ
  pub zeros_like : Vector → Vector
  -- sum + vector * weight
  pub add_weighted : Vector → Vector → ℕ → Vector
  pub divide : Vector → ℕ → Vector
  pub mean : List Vector → Vector
  pub norm_is_zero : Vector → Bool
  pub divide_by_norm : Vector → Vector
  pub dbscan : List Vector → List (Option ℕ)
  -- none where it raises ValueError, as it does for a vector of zeros
  pub agglomerative : List Vector → Option (List ℕ)
  pub dbscan_length : (vectors : List Vector) → length (dbscan vectors) ≡ length vectors
  pub agglomerative_length :
      (vectors : List Vector) (labels : List ℕ)
      → agglomerative vectors ≡ some labels
      → length labels ≡ length vectors
