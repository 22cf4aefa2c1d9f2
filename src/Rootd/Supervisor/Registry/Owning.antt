-- ===== src/Rootd/Supervisor/Registry/Owning.antt =====
-- What a write of src/rootd/firecracker/registry.ts to a machine leaves of its record.
use studiobox.Common.{◌≡◌, refl, sym, ap, ◌∙◌, Option, none, some, true, arith, ◌==◌}
use studiobox.Common.Codes.{codes_eq}
use studiobox.Common.Results.{ok}
use studiobox.State.Model.{Text, JailRecordState, MachineJournalState, SandboxRecord}
use studiobox.State.Store.{Update}
use studiobox.Rootd.Supervisor.Journal.{
  Fault, stale_execution_id, owner, owner_of, patch_machine, patched_machine, patched_jail,
  release_machine, released_machine,
}
use studiobox.Rootd.Supervisor.Journal.Moves.{if_ok}
use studiobox.Rootd.Supervisor.Bridges.{is_owned_by}

-- What the record was, but for its machine, revision and time.
abbrev pub IsSame : SandboxRecord → SandboxRecord → Type 0
IsSame r r' =
    (r'.phase ≡ r.phase)
    × (r'.termination_reason ≡ r.termination_reason)
    × (r'.resources ≡ r.resources)
    × (r'.artifact ≡ r.artifact)
    × (owner r' ≡ owner r)

pub IsSame-trans : (r s t : SandboxRecord) → IsSame r s → IsSame s t → IsSame r t
IsSame-trans r s t (a, b, c, d, e) (a', b', c', d', e') = (a' ∙ a, b' ∙ b, c' ∙ c, d' ∙ d, e' ∙ e)

-- A write to the machine of an execution.
abbrev pub Owning : Text → Update Fault → Type 0
Owning execution_id mutate =
    (r next : SandboxRecord)
    → mutate r ≡ ok next
    → IsSame r next × (is_owned_by execution_id (owner r) ≡ true)

-- The record with a machine of the same execution.
with_machine-IsSame :
    (r next : SandboxRecord) (m n : MachineJournalState)
    → r.machine ≡ some m
    → n.execution_id ≡ m.execution_id
    → record r { machine = some n } ≡ next
    → IsSame r next
unfolding owner owner_of
with_machine-IsSame r next m n had same e = (
  ap (λ (x : SandboxRecord). x.phase) (sym e),
  ap (λ (x : SandboxRecord). x.termination_reason) (sym e),
  ap (λ (x : SandboxRecord). x.resources) (sym e),
  ap (λ (x : SandboxRecord). x.artifact) (sym e),
  ap (λ (x : SandboxRecord). owner_of x.machine) (sym e) ∙ ap some same ∙ sym (ap owner_of had),
)

bound_owner :
    (execution_id : Text) (r : SandboxRecord) (m : MachineJournalState)
    → r.machine ≡ some m
    → (m.execution_id == execution_id) ≡ true
    → is_owned_by execution_id (owner r) ≡ true
unfolding owner owner_of is_owned_by
bound_owner execution_id r m had same = rw had same

patched_jail-Owning :
    (execution_id : Text) (patch : JailRecordState → JailRecordState) (timestamp : Text)
    (r next : SandboxRecord) (m : MachineJournalState) (jail : Option JailRecordState)
    → r.machine ≡ some m
    → patched_jail execution_id patch timestamp r m jail ≡ ok next
    → IsSame r next × (is_owned_by execution_id (owner r) ≡ true)
unfolding patched_jail
patched_jail-Owning execution_id patch timestamp r next m none had h = absurd (ground (arith, h))
patched_jail-Owning execution_id patch timestamp r next m (some jail) had h =
    let (same, made) = if_ok (m.execution_id == execution_id) _ next stale_execution_id h in
    (with_machine-IsSame r next m _ had refl made, bound_owner execution_id r m had same)

patched-Owning :
    (execution_id : Text) (patch : JailRecordState → JailRecordState) (timestamp : Text)
    (r next : SandboxRecord) (o : Option MachineJournalState)
    → r.machine ≡ o
    → patched_machine execution_id patch timestamp r o ≡ ok next
    → IsSame r next × (is_owned_by execution_id (owner r) ≡ true)
unfolding patched_machine
patched-Owning execution_id patch timestamp r next none had h = absurd (ground (arith, h))
patched-Owning execution_id patch timestamp r next (some m) had h =
    patched_jail-Owning execution_id patch timestamp r next m m.jail_record had h

released-Owning :
    (execution_id timestamp : Text) (r next : SandboxRecord) (o : Option MachineJournalState)
    → r.machine ≡ o
    → released_machine execution_id timestamp r o ≡ ok next
    → IsSame r next × (is_owned_by execution_id (owner r) ≡ true)
unfolding released_machine
released-Owning execution_id timestamp r next none had h = absurd (ground (arith, h))
released-Owning execution_id timestamp r next (some m) had h =
    let (same, made) = if_ok (m.execution_id == execution_id) _ next stale_execution_id h in
    (with_machine-IsSame r next m _ had refl made, bound_owner execution_id r m had same)

pub patch_machine-Owning :
    (execution_id : Text) (patch : JailRecordState → JailRecordState) (timestamp : Text)
    → Owning execution_id (patch_machine execution_id patch timestamp)
unfolding patch_machine
patch_machine-Owning execution_id patch timestamp r next h =
    patched-Owning execution_id patch timestamp r next r.machine refl h

pub release_machine-Owning :
    (execution_id timestamp : Text) → Owning execution_id (release_machine execution_id timestamp)
unfolding release_machine
release_machine-Owning execution_id timestamp r next h =
    released-Owning execution_id timestamp r next r.machine refl h
