-- ===== src/State/Store/Spec.antt =====
-- What src/state/store.ts promises: records under their ids, without a file and without an order.
use studiobox.Common.{ℕ, ◌+◌, ◌≡◌, Option, none, some, Bool, if◌then◌else◌, ◌==◌}
use studiobox.Common.Codes.{codes_eq}
use studiobox.Common.Map.{get}
use studiobox.Common.Results.{Result, ok, ◌>>=◌}
use studiobox.State.Model.{Text, SandboxRecord}
use studiobox.State.Validation.Valid.{IsRecord}
use studiobox.State.Store.{
  StoreError, StateFile, Records, Update, read, create, compare_and_swap, remove,
}

abbrev pub Registry : Type 0
Registry = Text → Option SandboxRecord

abbrev pub put : Text → Option SandboxRecord → Registry → Registry
put id o m j = if id == j then o else m j

-- `{ ...candidate, revision: expectedRevision + 1, updatedAt: now }`
abbrev pub stamped : ℕ → Text → SandboxRecord → SandboxRecord
stamped expected_revision now candidate = record candidate {
  revision = expected_revision + 1;
  updated_at = now;
}

-- A call that changes the store.
pub data Command (E : Type 0) : Type 0 where
  creating : SandboxRecord → Command E
  swapping : Text → ℕ → Update E → Text → Command E
  removing : Text → ℕ → Command E

module _ (parses : Text → Bool) (E : Type 0) where
  unfoldable pub apply : Command E → StateFile → Result (StoreError E) StateFile
  unfolding create compare_and_swap remove
  apply (creating r) file = create parses r file
  apply (swapping id n update now) file =
      compare_and_swap parses id n update now file >>= λ swapped. ok swapped.1
  apply (removing id n) file = remove parses id n file

  -- The steps that the calls may take.
  pub data Step (m : Registry) : Command E → Registry → Type 0 where
    created :
        (r : SandboxRecord) {n : Registry}
        → m r.id ≡ none
        → IsRecord parses r
        → r.revision ≡ 0
        → ((j : Text) → n j ≡ put r.id (some r) m j)
        → Step m (creating r) n
    swapped :
        (id : Text) (revision : ℕ) (update : Update E) (now : Text)
        (current candidate : SandboxRecord) {n : Registry}
        → m id ≡ some current
        → current.revision ≡ revision
        → update current ≡ ok candidate
        → candidate.id ≡ id
        → IsRecord parses (stamped revision now candidate)
        → ((j : Text) → n j ≡ put id (some (stamped revision now candidate)) m j)
        → Step m (swapping id revision update now) n
    removed :
        (id : Text) (revision : ℕ) (current : SandboxRecord) {n : Registry}
        → m id ≡ some current
        → current.revision ≡ revision
        → ((j : Text) → n j ≡ put id none m j)
        → Step m (removing id revision) n

  -- The file can be read, and holds these records.
  abbrev pub Shows : StateFile → Registry → Type 0
  Shows file m =
      (records : Records) × (read parses {E = E} file ≡ ok records)
      × ((id : Text) → get records id ≡ m id)
