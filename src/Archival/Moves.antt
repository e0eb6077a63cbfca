-- ===== src/Archival/Moves.antt =====
-- `archive_event` of services/archival_service.py: all of it, or nothing but the moves in the store.
use event_vision_pipeline.Base.{true, false, List, [], ◌∷◌, ◌≡◌, ◌⊎◌}
use event_vision_pipeline.Archival.{Photo, Storage, glacier_ir}

module _ (storage : Storage) where
  -- What the store answers to the moves of the photos, one after the other.
  abbrev pub AllMove : List Photo → storage.World → Type 0
  AllMove [] w = Unit
  AllMove (p ∷ rest) w =
      let later = AllMove rest (storage.change_storage_class p.original_s3_key glacier_ir w).1 in
      ((storage.change_storage_class p.original_s3_key glacier_ir w).0 ≡ true) × later

  abbrev pub OneRefused : List Photo → storage.World → Type 0
  OneRefused [] w = ⊥
  OneRefused (p ∷ rest) w =
      let later = OneRefused rest (storage.change_storage_class p.original_s3_key glacier_ir w).1 in
      ((storage.change_storage_class p.original_s3_key glacier_ir w).0 ≡ false) ⊎ later
