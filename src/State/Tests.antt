-- ===== src/State/Tests.antt =====
-- The state modules on concrete inputs: one new record, and a file that holds it.
use studiobox.Common.{ℕ, ◌≤◌, ◌<◌, ◌≡◌, ◌↔◌, refl, none, some, Bool, true, [], ◌∷◌, arith, length}
use studiobox.Common.Codes.{codes_eq, codes_beq}
use studiobox.Common.Map.{get, set}
use studiobox.Common.Results.{err, ok}
use studiobox.Common.JsNumber.{safe_nat}
use studiobox.Common.{List, ap, sym}
use studiobox.State.Model.{Text, codes, ready, SandboxRecord}
use studiobox.State.Values.{
  absent, assert_record, assert_keys, assert_non_negative_integer, optional, optional_record,
  assert_array, assert_timestamp,
}
use studiobox.State.Grammar.{
  assert_matches, is_sandbox_id, assert_phase, assert_version, all_of, phase_text,
}
use studiobox.State.Validation.{validate_sandbox_record, validate_resources, version_allows}
use studiobox.State.Validation.Valid.{IsRecord, raw_record, raw_resources}
use studiobox.State.Validation.Record.{validate_sandbox_record_exact}
use studiobox.State.Store.{
  StateFile, missing, state_conflict, Update, create, get_record, read, write, compare_and_swap,
}
use studiobox.State.Store.Spec.{Registry, creating, swapping, removing, apply, Step, Shows}
use studiobox.State.Store.Refinement.{Simulates}
use studiobox.State.Store.Progress.{Taken, apply-refines}
use studiobox.State.Store.Revisions.{run, second_swap_refused}
use studiobox.State.Store.Disk.{DiskFile, Disk, chunks, write_effects, write_until, temporary}
use studiobox.State.Store.Disk.Atomic.{concat, concat-chunks, IsWritten}
use studiobox.State.Store.Disk.Write.{write_until_atomic}
use studiobox.State.NewRecord.{new_sandbox_record, new_sandbox_record-create}
use studiobox.State.Samples.{every_text, box, noon, fresh, only_fresh, at_box, only_fresh-read}

made : new_sandbox_record every_text noon box none none ≡ ok fresh
unfolding new_sandbox_record is_sandbox_id assert_timestamp assert_non_negative_integer safe_nat
    all_of
made = refl

validate_sandbox_record_exact_example :
    (validate_sandbox_record every_text (raw_record fresh) ≡ ok fresh)
    ↔ ((raw_record fresh ≡ raw_record fresh) × IsRecord every_text fresh)
validate_sandbox_record_exact_example =
    validate_sandbox_record_exact every_text (raw_record fresh) fresh

absent_refused : (e : _) × (validate_sandbox_record every_text absent ≡ err e)
unfolding validate_sandbox_record assert_record
absent_refused = (_, refl)

abbrev no_records : Registry
no_records id = none

missing-Shows : Shows every_text Bool missing no_records
unfolding read get
missing-Shows = ([], refl, λ id. refl)

new_sandbox_record-create_example :
    (next : StateFile) × (create every_text {E = Bool} fresh missing ≡ ok next)
    × (get_record every_text {E = Bool} box next ≡ ok (some fresh))
new_sandbox_record-create_example =
    new_sandbox_record-create every_text Bool noon box none none fresh missing no_records made
      missing-Shows refl

apply-refines_example :
    ((next : StateFile)
      → apply every_text Bool (creating fresh) missing ≡ ok next
      → Simulates every_text Bool (creating fresh) next no_records)
    × ((n : Registry)
        → Step every_text Bool no_records (creating fresh) n
        → Taken every_text Bool (creating fresh) missing n)
apply-refines_example =
    apply-refines every_text Bool (creating fresh) missing no_records missing-Shows

only_fresh-Shows : Shows every_text Bool only_fresh at_box
unfolding get
only_fresh-Shows = ((box, fresh) ∷ [], only_fresh-read Bool, λ id. refl)

abbrev touch : Update Bool
touch r = ok (record r { phase = ready })

abbrev touched : SandboxRecord
touched = record fresh { phase = ready; revision = 1 }

touched_once :
    apply every_text Bool (swapping box 0 touch noon) only_fresh ≡ ok (write ((box, touched) ∷ []))
unfolding apply compare_and_swap read write validate_sandbox_record raw_record raw_resources
    assert_record assert_keys assert_version assert_matches is_sandbox_id
    assert_non_negative_integer safe_nat assert_phase phase_text assert_timestamp optional
    validate_resources assert_array optional_record version_allows codes_eq codes_beq set get all_of
touched_once = refl

second_swap_refused_example :
    apply every_text Bool (swapping box 0 touch noon) (
      run every_text Bool
        (removing (codes "box-2") 0 ∷ creating fresh ∷ [])
        (write ((box, touched) ∷ [])))
    ≡ err state_conflict
second_swap_refused_example =
    second_swap_refused every_text Bool box 0 touch touch noon noon
      (removing (codes "box-2") 0 ∷ creating fresh ∷ []) only_fresh (write ((box, touched) ∷ []))
      at_box only_fresh-Shows touched_once (λ e. absurd (ground (arith, e)), (tt, tt))

abbrev two_at_once : ℕ → ℕ
two_at_once i = 2

concat-chunks_example : concat (chunks two_at_once 3 0 (7 ∷ 8 ∷ 9 ∷ [])) ≡ 7 ∷ 8 ∷ 9 ∷ []
concat-chunks_example =
    concat-chunks two_at_once 3 0 (7 ∷ 8 ∷ 9 ∷ []) (λ i. omega arith) (omega arith)

abbrev old_file : DiskFile
old_file = record { content = 1 ∷ []; is_file = true; mtime = some 5; is_synced = true }

abbrev old_disk : Disk
old_disk = (codes "state.json", old_file) ∷ []

abbrev nothing_left : Text → List ℕ
nothing_left name = []

-- The only file is synced.
old_disk-synced : (f : DiskFile) → get old_disk (codes "state.json") ≡ some f → f.is_synced ≡ true
unfolding get codes_beq
old_disk-synced f h = let same : old_file ≡ f = cc in ap (λ (x : DiskFile). x.is_synced) (sym same)

seven_calls : length (write_effects two_at_once (7 ∷ 8 ∷ 9 ∷ [])) ≡ 7
unfolding write_effects
seven_calls = refl

write_until_atomic_example :
    (6 < length (write_effects two_at_once (7 ∷ 8 ∷ 9 ∷ []))
      → get
          (write_until nothing_left 6 two_at_once
            (codes "state.json")
            (codes "u")
            9
            (7 ∷ 8 ∷ 9 ∷ [])
            old_disk)
          (codes "state.json")
        ≡ get old_disk (codes "state.json"))
    × (length (write_effects two_at_once (7 ∷ 8 ∷ 9 ∷ [])) ≤ 6
        → ((i : ℕ) → 1 ≤ two_at_once i)
        → IsWritten
            (temporary (codes "state.json") (codes "u"))
            (codes "state.json")
            (7 ∷ 8 ∷ 9 ∷ [])
            (write_until nothing_left 6 two_at_once
              (codes "state.json")
              (codes "u")
              9
              (7 ∷ 8 ∷ 9 ∷ [])
              old_disk))
write_until_atomic_example =
    write_until_atomic two_at_once (codes "state.json") (codes "u") 9 (7 ∷ 8 ∷ 9 ∷ []) old_disk
      nothing_left old_disk-synced 6
