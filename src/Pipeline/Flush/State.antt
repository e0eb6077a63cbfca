-- ===== src/Pipeline/Flush/State.antt =====
-- The faces_processed column of a photo, and a dict keyed by photo, under the writes of ml/pipeline.py.
use event_vision_pipeline.Base.{
  ℕ, ◌+◌, ◌-◌, ◌<◌, Bool, true, Option, none, some, List, [], ◌∷◌, ◌≡◌, refl, inl, inr, arith, ◌==◌,
  length, if◌then◌else◌, occurrences, Bool-cases,
}
use event_vision_pipeline.Pipeline.{
  PhotoRow, ProcessingResult, Models, Tables, Dict, keys, lookup, pop, set_item, get_photo,
  update_photo,
}
use event_vision_pipeline.Pipeline.Photo.{finish_photo, mark_processed}
use event_vision_pipeline.Pipeline.Flush.{extend_result}

-- What faces_processed of a photo is, where there is a row.
abbrev pub face_state : ℕ → List PhotoRow → Option Bool
face_state id [] = none
face_state id (p ∷ rest) =
    let later = face_state id rest in if p.id == id then some p.faces_processed else later

abbrev pub processed_too : Option Bool → Option Bool
processed_too none = none
processed_too (some b) = some true

-- A write that marks one photo as processed.
module _ (f : PhotoRow → PhotoRow) (same_id : (p : PhotoRow) → (f p).id ≡ p.id)
    (marks : (p : PhotoRow) → (f p).faces_processed ≡ true) where
  face_state-update :
      (j id : ℕ) (ps : List PhotoRow)
      → face_state j (update_photo id f ps)
        ≡ (if j == id then processed_too (face_state j ps) else face_state j ps)
  face_state-update j id [] = ground arith
  face_state-update j id (p ∷ rest) =
      ground (arith, face_state-update j id rest, same_id p, marks p)

module _ (models : Models) where
  pub face_state-mark :
      (j id : ℕ) (t : Tables models)
      → face_state j (mark_processed models id t).photos
        ≡ (if j == id then processed_too (face_state j t.photos) else face_state j t.photos)
  unfolding mark_processed
  face_state-mark j id t =
      face_state-update (λ p. record p { faces_processed = true }) (λ p. refl) (λ p. refl) j id
        t.photos

  pub face_state-finish :
      (j : ℕ) (photo : PhotoRow) (result : ProcessingResult) (t : Tables models)
      → face_state j (finish_photo models photo result t).photos
        ≡ (if j == photo.id then processed_too (face_state j t.photos) else face_state j t.photos)
  unfolding finish_photo
  face_state-finish j photo result t =
      face_state-update (λ p. record p { face_count = result.face_count; faces_processed = true })
        (λ p. refl) (λ p. refl) j photo.id t.photos

-- A photo that is found is the one asked for, and has a row.
pub get_photo_lem :
    (id : ℕ) (ps : List PhotoRow) (p : PhotoRow)
    → get_photo id ps ≡ some p
    → (p.id ≡ id) × (face_state id ps ≡ some p.faces_processed)
get_photo_lem id [] p e = cc
get_photo_lem id (q ∷ rest) p e = elim (Bool-cases (q.id == id)) [
  | inl h ↦ ground arith
  | inr h ↦ rw h (get_photo_lem id rest p (ground arith))
]

pub get_photo-none :
    (id : ℕ) (ps : List PhotoRow) → get_photo id ps ≡ none → face_state id ps ≡ none
get_photo-none id [] e = refl
get_photo-none id (q ∷ rest) e = ground (arith, get_photo-none id rest)

pub keys-extend_result :
    (k : ℕ) (ids : List ℕ) (d : Dict ProcessingResult) → keys (extend_result k ids d) ≡ keys d
keys-extend_result k ids [] = refl
keys-extend_result k ids ((j, x) ∷ rest) = elim (Bool-cases (k == j)) [
  | inl e ↦ rw e refl
  | inr e ↦ rw (e, keys-extend_result k ids rest) refl
]

module _ {A : Type 0} where
  pub keys-pop :
      (j k : ℕ) (d : Dict A)
      → occurrences j (keys (pop k d)) ≡ occurrences j (keys d) - (if j == k then 1 else 0)
  keys-pop j k [] = ground arith
  keys-pop j k ((i, x) ∷ rest) = ground (arith, keys-pop j k rest)

  pub length-keys : (d : Dict A) → length (keys d) ≡ length d
  length-keys [] = refl
  length-keys ((i, x) ∷ rest) = omega (arith, length-keys rest)

  pub length-pop :
      (k : ℕ) (d : Dict A) → 0 < occurrences k (keys d) → length (pop k d) + 1 ≡ length d
  length-pop k [] h = absurd (omega arith)
  length-pop k ((i, x) ∷ rest) h = ground (arith, length-pop k rest)

  pub lookup-some : (k : ℕ) (d : Dict A) (x : A) → lookup k d ≡ some x → 0 < occurrences k (keys d)
  lookup-some k [] x e = cc
  lookup-some k ((i, y) ∷ rest) x e = ground (arith, lookup-some k rest x)

  pub lookup-none : (k : ℕ) (d : Dict A) → lookup k d ≡ none → occurrences k (keys d) ≡ 0
  lookup-none k [] e = refl
  lookup-none k ((i, y) ∷ rest) e = ground (arith, lookup-none k rest)

  -- A key that is new comes last, and all others stay.
  pub keys-set_item :
      (j k : ℕ) (x : A) (d : Dict A)
      → occurrences k (keys d) ≡ 0
      → (occurrences j (keys (set_item k x d)) ≡ occurrences j (keys d) + (if j == k then 1 else 0))
        × (length (set_item k x d) ≡ length d + 1)
  keys-set_item j k x [] e = ground arith
  keys-set_item j k x ((i, y) ∷ rest) e = ground (arith, keys-set_item j k x rest)
