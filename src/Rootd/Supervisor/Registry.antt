-- ===== src/Rootd/Supervisor/Registry.antt =====
-- `update` and `remove` of SandboxStateJailRecordStore in src/rootd/firecracker/registry.ts: the journal
-- of the machines, which the Firecracker package keeps in the sandbox records.
pub mod Owning
pub mod Changes
use studiobox.Common.{
  ℕ, zero, suc, Option, none, some, Bool, true, false, List, [], ◌∷◌, if◌then◌else◌,
}
use studiobox.Common.Results.{Result, err, ok}
use studiobox.State.Model.{Text, JailRecordState, MachineJournalState, SandboxRecord}
use studiobox.State.Store.{
  StoreError, state_conflict, state_corrupt, invalid_record, update_threw, StateFile, Update, list,
  compare_and_swap,
}
use studiobox.Rootd.Supervisor.Journal.{
  Fault, stale_execution_id, owner, patch_machine, release_machine,
}
use studiobox.Rootd.Supervisor.Bridges.{is_owned_by}

-- Whether a record was changed, and the file as it is then.
abbrev pub Change : Type 0
Change = Result (StoreError Fault) Bool × StateFile

-- #findExecution
unfoldable pub find_bound : Text → List SandboxRecord → Option SandboxRecord
unfolding is_owned_by owner
find_bound execution_id [] = none
find_bound execution_id (r ∷ rs) =
    if is_owned_by execution_id (owner r) then some r else find_bound execution_id rs

unfoldable pub jail_of : Option MachineJournalState → Option JailRecordState
jail_of none = none
jail_of (some m) = m.jail_record

unfoldable pub if_jailed : Change → Change → Option JailRecordState → Change
if_jailed swapped kept none = kept
if_jailed swapped kept (some jail) = swapped

unfoldable pub after_find : (SandboxRecord → Change) → StateFile → Option SandboxRecord → Change
unfolding if_jailed jail_of
after_find swap file none = (ok false, file)
after_find swap file (some r) = if_jailed (swap r) (ok false, file) (jail_of r.machine)

unfoldable pub after_search :
    (SandboxRecord → Change)
    → Text
    → StateFile
    → Result (StoreError Fault) (List SandboxRecord)
    → Change
unfolding find_bound after_find
after_search swap execution_id file (err e) = (err e, file)
after_search swap execution_id file (ok records) =
    after_find swap file (find_bound execution_id records)

-- After one swap. A stale execution has nothing to change.
unfoldable pub after_change :
    Change → StateFile → Result (StoreError Fault) (SandboxRecord × StateFile) → Change
after_change retry changed (ok (r, next)) = (ok true, next)
after_change retry changed (err state_conflict) = retry
after_change retry changed (err (update_threw stale_execution_id)) = (ok false, changed)
after_change retry changed (err e) = (err e, changed)

-- `world n` is what other writers do between the list and the swap of an attempt, of which n more
-- follow, and `sort` the sort of `list`.
module _ (parses : Text → Bool) (now : Text) (sort : List SandboxRecord → List SandboxRecord)
    (world : ℕ → StateFile → StateFile) where
  unfoldable pub change : Text → Update Fault → ℕ → StateFile → Change
  unfolding after_search after_change
  change execution_id mutate zero file = (err state_conflict, file)
  change execution_id mutate (suc n) file =
      after_search
        (λ r.
          let rest = change execution_id mutate n (world n file) in
          after_change rest (world n file)
            (compare_and_swap parses r.id r.revision mutate now (world n file)))
        execution_id file (list parses sort file)

  unfoldable pub update_jail :
      Text → (JailRecordState → JailRecordState) → Text → StateFile → Change
  unfolding change
  update_jail execution_id patch timestamp file =
      change execution_id (patch_machine execution_id patch timestamp) 16 file

  unfoldable pub remove_jail : Text → Text → StateFile → Change
  unfolding change
  remove_jail execution_id timestamp file =
      change execution_id (release_machine execution_id timestamp) 16 file

-- The calls that the package's sweep makes on the journal of the machines.
pub data PackageCall : Type 0 where
  updating : Text → (JailRecordState → JailRecordState) → Text → PackageCall
  removing : Text → Text → PackageCall

-- A call that throws leaves the file; a package that then gives up makes fewer calls.
module _ (parses : Text → Bool) (now : Text) (sort : List SandboxRecord → List SandboxRecord) where
  unfoldable pub called : PackageCall → StateFile → StateFile
  unfolding update_jail remove_jail
  called (updating execution_id patch timestamp) file =
      (update_jail parses now sort (λ n f. f) execution_id patch timestamp file).1
  called (removing execution_id timestamp) file =
      (remove_jail parses now sort (λ n f. f) execution_id timestamp file).1

  unfoldable pub package_sweep : List PackageCall → StateFile → StateFile
  unfolding called
  package_sweep [] file = file
  package_sweep (c ∷ cs) file = package_sweep cs (called c file)
