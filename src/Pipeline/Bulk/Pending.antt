-- ===== src/Pipeline/Bulk/Pending.antt =====
-- `_load_pending_photos` of ml/pipeline.py, on a photo table whose ids are its primary key.
use event_vision_pipeline.Base.{
  ℕ, ◌<◌, ◌≤◌, none, List, [], ◌∷◌, ◌≡◌, ◌≢◌, refl, inl, inr, arith, ◌==◌, not, ◌&&◌, occurrences,
  Bool-cases,
}
use event_vision_pipeline.Pipeline.{PhotoRow}
use event_vision_pipeline.Pipeline.Flush.State.{face_state}
use event_vision_pipeline.Pipeline.Bulk.{ids_of, load_pending_photos, by_upload}

abbrev pub PrimaryKey : List PhotoRow → Type 0
PrimaryKey photos = (j : ℕ) → occurrences j (ids_of photos) ≤ 1

by_upload_ids :
    (j : ℕ) (p : PhotoRow) (ps : List PhotoRow)
    → occurrences j (ids_of (by_upload p ps)) ≡ occurrences j (p.id ∷ ids_of ps)
by_upload_ids j p [] = refl
by_upload_ids j p (q ∷ rest) = ground (arith, by_upload_ids j p rest)

load_pending_ids :
    (j event_id : ℕ) (ps : List PhotoRow)
    → occurrences j (ids_of (load_pending_photos event_id ps)) ≤ occurrences j (ids_of ps)
unfolding load_pending_photos
load_pending_ids j event_id [] = omega arith
load_pending_ids j event_id (p ∷ rest) =
    let later = load_pending_photos event_id rest in
    let fewer = load_pending_ids j event_id rest in
    elim (Bool-cases (p.event_id == event_id && not p.faces_processed)) [
      | inl e ↦ rw e (ground (arith, by_upload_ids j p later))
      | inr e ↦ rw e (ground arith)
    ]

has_row : (j : ℕ) (ps : List PhotoRow) → 0 < occurrences j (ids_of ps) → face_state j ps ≢ none
has_row j [] h = absurd (omega arith)
has_row j (p ∷ rest) h = elim (Bool-cases (p.id == j)) [
  | inl e ↦ rw e (λ q. cc)
  | inr e ↦ rw e (has_row j rest (ground arith))
]

-- What is loaded are different photos of the table.
pub load_pending_lem :
    (event_id : ℕ) (ps : List PhotoRow)
    → PrimaryKey ps
    → (j : ℕ)
    → (occurrences j (ids_of (load_pending_photos event_id ps)) ≤ 1)
      × (0 < occurrences j (ids_of (load_pending_photos event_id ps)) → face_state j ps ≢ none)
load_pending_lem event_id ps key j =
    let fewer = load_pending_ids j event_id ps in
    let once = key j in (omega arith, λ h. has_row j ps (omega arith))
