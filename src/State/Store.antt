-- ===== src/State/Store.antt =====
-- src/state/store.ts: the sandbox records in one JSON file. `#exclusive` runs one operation at a
-- time, so an operation is one step. A file is what `JSON.parse` makes of its text.
pub mod Read
pub mod Spec
pub mod Refinement
pub mod Progress
pub mod Swap
pub mod Revisions
pub mod Disk
use studiobox.Common.{
  ℕ, ◌+◌, Option, none, some, Bool, true, false, not, List, [], ◌∷◌, map, nat_beq, if◌then◌else◌,
  ◌==◌,
}
use studiobox.Common.Codes.{codes_eq}
use studiobox.Common.Map.{Map, get, has, set, delete}
use studiobox.Common.Results.{Result, err, ok, ◌>>=◌, ◌>>◌, or_throw, throw_if}
use studiobox.State.Model.{Text, SandboxRecord}
use studiobox.State.Values.{Slot}
use studiobox.State.Raw.{RawRecord}
use studiobox.State.Validation.{validate_sandbox_record}
use studiobox.State.Validation.Valid.{raw_record}

-- `update_threw` is what the caller's update threw; `invalid_record` is a TypeError of validation.
pub data StoreError (E : Type 0) : Type 0 where
  state_conflict state_corrupt invalid_record : StoreError E
  update_threw : E → StoreError E

-- `malformed` is a text that is no JSON, or whose envelope is wrong.
pub data StateFile : Type 0 where
  missing malformed : StateFile
  entries : List (Text × Slot RawRecord) → StateFile

abbrev pub Records : Type 0
Records = Map Text SandboxRecord

-- An update may throw.
abbrev pub Update : Type 0 → Type 0
Update E = SandboxRecord → Result E SandboxRecord

unfoldable pub or_invalid {ℓ} : {E T : Type 0} {A : Type ℓ} → Result T A → Result (StoreError E) A
or_invalid (err t) = err invalid_record
or_invalid (ok a) = ok a

unfoldable pub or_corrupt {ℓ} : {E T : Type 0} {A : Type ℓ} → Result T A → Result (StoreError E) A
or_corrupt (err t) = err state_corrupt
or_corrupt (ok a) = ok a

unfoldable pub or_threw {ℓ} : {E : Type 0} {A : Type ℓ} → Result E A → Result (StoreError E) A
or_threw (err e) = err (update_threw e)
or_threw (ok a) = ok a

unfoldable pub write_entry : Text × SandboxRecord → Text × Slot RawRecord
write_entry (id, r) = (id, raw_record r)

unfoldable pub write : Records → StateFile
unfolding write_entry
write records = entries (map write_entry records)

module _ (parses : Text → Bool) {E : Type 0} where
  -- The loop of `#read` over the entries of the file.
  unfoldable pub read_entries :
      List (Text × Slot RawRecord) → Records → Result (StoreError E) Records
  unfolding or_corrupt
  read_entries [] records = ok records
  read_entries ((id, record_) ∷ rest) records = do
    validated ← or_corrupt (validate_sandbox_record parses record_)
    throw_if (not (id == validated.id)) state_corrupt
    read_entries rest (set records id validated)

  unfoldable pub read : StateFile → Result (StoreError E) Records
  unfolding read_entries
  read missing = ok []
  read malformed = err state_corrupt
  read (entries es) = read_entries es []

  unfoldable pub create_in : SandboxRecord → Records → Result (StoreError E) Records
  unfolding or_invalid
  create_in r records = do
    throw_if (has records r.id) state_conflict
    validated ← or_invalid (validate_sandbox_record parses (raw_record r))
    throw_if (not (nat_beq validated.revision 0)) state_conflict
    ok (set records validated.id validated)

  unfoldable pub create : SandboxRecord → StateFile → Result (StoreError E) StateFile
  unfolding read create_in
  create r file = do records ← read file; next ← create_in r records; ok (write next)

  unfoldable pub get_record : Text → StateFile → Result (StoreError E) (Option SandboxRecord)
  unfolding read
  get_record id file = read file >>= λ records. ok (get records id)

  -- `sort` is the sort by `localeCompare` of the ids.
  unfoldable pub list :
      (List SandboxRecord → List SandboxRecord)
      → StateFile
      → Result (StoreError E) (List SandboxRecord)
  unfolding read
  list sort file =
      read file >>= λ records. ok (sort (map (λ (e : Text × SandboxRecord). e.1) records))

  unfoldable pub swap_in :
      Text → ℕ → Update E → Text → Records → Result (StoreError E) (SandboxRecord × Records)
  unfolding or_invalid or_threw
  swap_in id expected_revision update now records = do
    current ← or_throw (get records id) state_conflict
    throw_if (not (nat_beq current.revision expected_revision)) state_conflict
    candidate ← or_threw (update current)
    throw_if (not (candidate.id == id)) state_conflict
    next ← or_invalid (
        validate_sandbox_record parses
          (raw_record (record candidate { revision = expected_revision + 1; updated_at = now })))
    ok (next, set records id next)

  -- `now` is `this.#now()`.
  unfoldable pub compare_and_swap :
      Text → ℕ → Update E → Text → StateFile → Result (StoreError E) (SandboxRecord × StateFile)
  unfolding read swap_in
  compare_and_swap id expected_revision update now file = do
    records ← read file
    swapped ← swap_in id expected_revision update now records
    ok (swapped.0, write swapped.1)

  unfoldable pub remove_in : Text → ℕ → Records → Result (StoreError E) Records
  remove_in id expected_revision records = do
    current ← or_throw (get records id) state_conflict
    throw_if (not (nat_beq current.revision expected_revision)) state_conflict
    ok (delete records id)

  unfoldable pub remove : Text → ℕ → StateFile → Result (StoreError E) StateFile
  unfolding read remove_in
  remove id expected_revision file = do
    records ← read file
    next ← remove_in id expected_revision records
    ok (write next)
