-- ===== src/Pipeline/Bulk/Accounts.antt =====
-- How many of the photos that `process_event_photos` of ml/pipeline.py took up are finished, failed or still
-- wait, and their rows.
use event_vision_pipeline.Base.{
  ℕ, suc, ◌+◌, ◌<◌, ◌≤◌, true, none, some, List, ◌∷◌, ◌≡◌, ◌≢◌, ap, arith, ◌==◌, length,
  occurrences, if◌then◌else◌,
}
use event_vision_pipeline.Pipeline.{PhotoRow, ProcessingResult, Models, Dict, keys, set_item}
use event_vision_pipeline.Pipeline.Flush.{Awaiting, photo_ids_of}
use event_vision_pipeline.Pipeline.Flush.State.{face_state, processed_too, keys-set_item}
use event_vision_pipeline.Pipeline.Flush.Settling.{
  waits, state_of, Settles, IsKnown, processed_too-some,
}
use event_vision_pipeline.Pipeline.Flush.Waiting.{unsettled}
use event_vision_pipeline.Pipeline.Bulk.{Run}

-- The photos taken up are photos of the run, each once.
abbrev pub IsPart : List ℕ → List ℕ → Type 0
IsPart all taken = (j : ℕ) → (occurrences j taken ≤ occurrences j all) × (occurrences j all ≤ 1)

module _ {models : Models} where
  abbrev pub waiting_of : Run models → Awaiting models
  waiting_of run = unsettled run.awaiting_flush run.tables

  -- Each photo that waits has a crop in the buffer.
  abbrev pub HasCrops : Run models → Type 0
  HasCrops run =
      (j : ℕ) → 0 < waits j (waiting_of run) → 0 < occurrences j (photo_ids_of run.crop_buffer)

module _ {models : Models} (all : List ℕ) where
  -- Of the photos taken up, the finished and the failed are counted, the others wait once; the photos
  -- that do not wait are marked as processed, and all photos of the run have a row.
  abbrev pub AccountsFor : ℕ → List ℕ → Awaiting models → Type 0
  AccountsFor j taken a =
      (waits j a ≤ occurrences j taken)
      × (0 < occurrences j taken → waits j a ≡ 0 → state_of j a ≡ some true)
      × (0 < occurrences j all → state_of j a ≢ none)

  abbrev pub Accounts : List ℕ → ℕ → Awaiting models → Type 0
  Accounts taken n a =
      (n + a.count + length a.awaiting ≡ length taken) × ((j : ℕ) → AccountsFor j taken a)

  pub Accounts-IsKnown :
      (taken : List ℕ) (n : ℕ) (a : Awaiting models)
      → IsPart all taken
      → Accounts taken n a
      → (j : ℕ) → IsKnown j a
  Accounts-IsKnown taken n a part acc j =
      let p = part j in
      let (few, processed, rows) = acc.1 j in (omega arith, λ h. rows (omega arith))

  pub Settles-Accounts :
      (taken : List ℕ) (n : ℕ) (a b : Awaiting models)
      → Settles a b
      → Accounts taken n a
      → Accounts taken n b
  Settles-Accounts taken n a b s acc =
      (omega (arith, s.0, acc.0), λ j. ground (arith, s.1 j, acc.1 j))

  abbrev pub RunAccounts : List ℕ → Run models → Type 0
  RunAccounts taken run = Accounts taken (run.photos_processed + run.photos_failed) (waiting_of run)

  -- A photo that is taken up and marked as processed at once.
  pub finished-Accounts :
      (id : ℕ) (taken : List ℕ) (n m : ℕ) (a b : Awaiting models)
      → IsPart all (id ∷ taken)
      → m ≡ suc n
      → b.count ≡ a.count
      → b.awaiting ≡ a.awaiting
      → ((j : ℕ) → state_of j b ≡ (if j == id then processed_too (state_of j a) else state_of j a))
      → Accounts taken n a
      → Accounts (id ∷ taken) m b
  finished-Accounts id taken n m a b part more counts same marks acc =
      let kept = ap (λ (d : Dict ProcessingResult). length d) same in
      (
        omega (arith, acc.0),
        λ j.
            let waits_same = ap (λ (d : Dict ProcessingResult). occurrences j (keys d)) same in
            let some_row = processed_too-some (state_of j a) in
            let acc_j = acc.1 j in let part_j = part j in ground (arith, marks j, some_row),
      )

  -- A photo that is taken up and has to wait for its crops.
  pub waiting-Accounts :
      (id : ℕ) (result : ProcessingResult) (taken : List ℕ) (n : ℕ) (a b : Awaiting models)
      → IsPart all (id ∷ taken)
      → b.count ≡ a.count
      → b.awaiting ≡ set_item id result a.awaiting
      → b.tables.photos ≡ a.tables.photos
      → Accounts taken n a
      → Accounts (id ∷ taken) n b
  waiting-Accounts id result taken n a b part counts set same acc =
      let new : occurrences id (keys a.awaiting) ≡ 0 =
        (let part_id = part id in let acc_id = acc.1 id in ground arith) in
      let longer = ap (λ (d : Dict ProcessingResult). length d) set in
      (
        omega (arith, acc.0, keys-set_item id id result a.awaiting new),
        λ j.
            let waits_set = ap (λ (d : Dict ProcessingResult). occurrences j (keys d)) set in
            let rows = ap (λ (ps : List PhotoRow). face_state j ps) same in
            let acc_j = acc.1 j in ground (arith, keys-set_item j id result a.awaiting new),
      )
