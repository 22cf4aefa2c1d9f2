-- ===== src/Rootd/Supervisor/Journal.antt =====
-- The writes of src/rootd/supervisor_core.ts and src/rootd/firecracker/registry.ts to the journal:
-- what each makes of the record that it finds.
pub mod Moves
use studiobox.Common.{
  ℕ, zero, suc, ◌+◌, Option, none, some, Bool, true, false, not, List, [], ◌∷◌, ◌++◌, nat_beq,
  if◌then◌else◌, ◌==◌,
}
use studiobox.Common.Codes.{codes_eq}
use studiobox.Common.Results.{Result, err, ok, ◌>>=◌, ◌>>◌, throw_if}
use studiobox.State.Model.{
  Text, codes, SandboxPhase, allocating, staging, booting, ready, terminating, terminated,
  reconciling, quarantined, MachineJournalPhase, launching, reclaiming, JailRecordState,
  MachineJournalState, ArtifactReference, ExposedPort, SandboxResources, SandboxRecord,
}
use studiobox.State.Grammar.{phase_text}
use studiobox.Rootd.Supervisor.Reasons.{truncate_reason}

-- SupervisorErrorCode, the conflicts of the registry, and a WireValidationError.
pub data Fault : Type 0 where
  sup_validation sup_duplicate sup_not_found sup_state sup_stale sup_unavailable : Fault
  execution_id_conflict stale_execution_id wire_validation : Fault

abbrev pub Written : Type 0
Written = Result Fault SandboxRecord

-- TERMINAL_PHASES.includes
unfoldable pub is_terminal : SandboxPhase → Bool
is_terminal terminated = true
is_terminal quarantined = true
is_terminal allocating = false
is_terminal staging = false
is_terminal booting = false
is_terminal ready = false
is_terminal terminating = false
is_terminal reconciling = false

-- RECONCILED_PHASES.includes
unfoldable pub is_reconciled : SandboxPhase → Bool
unfolding is_terminal
is_reconciled reconciling = true
is_reconciled phase = is_terminal phase

unfoldable pub owner_of : Option MachineJournalState → Option Text
owner_of none = none
owner_of (some m) = some m.execution_id

-- current.machine?.executionId
unfoldable pub owner : SandboxRecord → Option Text
unfolding owner_of
owner r = owner_of r.machine

-- owner !== undefined && owner !== executionId
unfoldable pub is_foreign : Text → Option Text → Bool
is_foreign execution_id none = false
is_foreign execution_id (some id) = not (id == execution_id)

unfoldable pub assert_writer_owns : SandboxRecord → Text → Result Fault (Unit {0})
unfolding owner is_foreign is_reconciled
assert_writer_owns current execution_id = do
  throw_if (is_foreign execution_id (owner current)) sup_stale
  throw_if (is_reconciled current.phase) sup_stale

-- A part of the resources: `none` is a key that is left out.
pub record ResourcesPatch : Type 0 where
  pub uid : Option ℕ
  pub gid : Option ℕ
  pub overlay_path : Option Text
  pub tap_name : Option Text
  pub netns_path : Option Text
  pub host_ip : Option Text
  pub guest_ip : Option Text
  pub subnet : Option Text
  pub dnsmasq_pidfile : Option Text
  pub exposed_ports : Option (List ExposedPort)

unfoldable pub overriding {ℓ} : {A : Type ℓ} → Option A → Option A → Option A
overriding none old = old
overriding (some a) old = some a

unfoldable pub replaced {ℓ} : {A : Type ℓ} → Option A → A → A
replaced none old = old
replaced (some a) old = a

-- { ...current.resources, ...resourcesPatch }
unfoldable pub merge_resources : SandboxResources → Option ResourcesPatch → SandboxResources
unfolding overriding replaced
merge_resources r none = r
merge_resources r (some p) = record {
  uid = overriding p.uid r.uid;
  gid = overriding p.gid r.gid;
  overlay_path = overriding p.overlay_path r.overlay_path;
  tap_name = overriding p.tap_name r.tap_name;
  netns_path = overriding p.netns_path r.netns_path;
  host_ip = overriding p.host_ip r.host_ip;
  guest_ip = overriding p.guest_ip r.guest_ip;
  subnet = overriding p.subnet r.subnet;
  dnsmasq_pidfile = overriding p.dnsmasq_pidfile r.dnsmasq_pidfile;
  exposed_ports = replaced p.exposed_ports r.exposed_ports;
}

-- allowedFrom.includes
unfoldable pub includes : List SandboxPhase → SandboxPhase → Bool
includes [] phase = false
includes (p ∷ ps) phase = if phase_text p == phase_text phase then true else includes ps phase

-- The patch of a transition: an artifact reference and a template pin.
unfoldable pub owned_transition :
    Text
    → List SandboxPhase
    → SandboxPhase
    → Option ArtifactReference
    → Option Bool
    → Option ResourcesPatch
    → SandboxRecord
    → Written
unfolding assert_writer_owns includes merge_resources overriding
owned_transition execution_id allowed_from to artifact pinned resources current = do
  assert_writer_owns current execution_id
  throw_if (not (includes allowed_from current.phase)) sup_state
  ok (record current {
    artifact = overriding artifact current.artifact;
    template_pinned = overriding pinned current.template_pinned;
    resources = merge_resources current.resources resources;
    phase = to;
  })

-- The end of a shutdown or a kill: `mode` is its name.
unfoldable pub complete : Text → Text → SandboxRecord → Written
unfolding assert_writer_owns
complete execution_id mode current = do
  assert_writer_owns current execution_id
  ok (record current { phase = terminated; termination_reason = some mode })

unfoldable pub park : Text → Text → SandboxRecord → Written
unfolding assert_writer_owns
park execution_id detail current = do
  assert_writer_owns current execution_id
  ok (record current { phase = terminated; termination_reason = some (truncate_reason detail) })

unfoldable pub check_owner : SandboxRecord → Option Text → Result Fault (Unit {0})
unfolding assert_writer_owns
check_owner current none = ok tt
check_owner current (some execution_id) = assert_writer_owns current execution_id

unfoldable pub quarantine : Option Text → Text → SandboxRecord → Written
unfolding check_owner
quarantine owner_execution_id detail current = do
  check_owner current owner_execution_id
  ok (record current { phase = quarantined; termination_reason = some (truncate_reason detail) })

-- The reset of a restore's binding before the cold boot.
unfoldable pub unbind : Text → SandboxRecord → Written
unfolding assert_writer_owns
unbind execution_id current = do
  assert_writer_owns current execution_id
  ok (record current { machine = none })

unfoldable pub has_host_port : ℕ → List ExposedPort → Bool
has_host_port host_port [] = false
has_host_port host_port (p ∷ ps) =
    if nat_beq p.host_port host_port then true else has_host_port host_port ps

-- The forwards with a new one, deduplicated by the host port.
unfoldable pub with_forward : ℕ → ℕ → List ExposedPort → List ExposedPort
unfolding has_host_port
with_forward guest_port host_port existing =
    if has_host_port host_port existing
    then existing
    else existing ++ record { host_port = host_port; guest_port = guest_port } ∷ []

unfoldable pub expose : Text → ℕ → ℕ → SandboxRecord → Written
unfolding assert_writer_owns with_forward
expose execution_id guest_port host_port current = do
  assert_writer_owns current execution_id
  ok (record current {
    resources = record current.resources {
      exposed_ports = with_forward guest_port host_port current.resources.exposed_ports;
    };
  })

-- What the reconciliation sweep writes, without a guard.
unfoldable pub mark_reconciling : SandboxRecord → Written
mark_reconciling current = ok (record current { phase = reconciling })

unfoldable pub mark_terminated : SandboxRecord → Written
mark_terminated current =
    ok (record current { phase = terminated; termination_reason = some (codes "host-restart") })

unfoldable pub bound_machine :
    Text → JailRecordState → Text → SandboxRecord → Option MachineJournalState → Written
bound_machine vm_id jail timestamp current (some m) = err execution_id_conflict
bound_machine vm_id jail timestamp current none = ok (record current {
  machine = some (record {
    execution_id = vm_id;
    phase = launching;
    jail_record = some jail;
    cgroup_path = none;
    updated_at = timestamp;
  });
})

-- SandboxStateJailRecordStore.create
unfoldable pub bind_machine : Text → JailRecordState → Text → SandboxRecord → Written
unfolding bound_machine
bind_machine vm_id jail timestamp current =
    bound_machine vm_id jail timestamp current current.machine

unfoldable pub patched_jail :
    Text
    → (JailRecordState → JailRecordState)
    → Text
    → SandboxRecord
    → MachineJournalState
    → Option JailRecordState
    → Written
patched_jail execution_id patch timestamp current m none = err stale_execution_id
patched_jail execution_id patch timestamp current m (some jail) =
    if m.execution_id == execution_id
    then ok (record current {
      machine = some (record m {
        jail_record = some (record (patch jail) { vm_id = execution_id });
        updated_at = timestamp;
      });
    })
    else err stale_execution_id

unfoldable pub patched_machine :
    Text
    → (JailRecordState → JailRecordState)
    → Text
    → SandboxRecord
    → Option MachineJournalState
    → Written
unfolding patched_jail
patched_machine execution_id patch timestamp current none = err stale_execution_id
patched_machine execution_id patch timestamp current (some m) =
    patched_jail execution_id patch timestamp current m m.jail_record

-- SandboxStateJailRecordStore.update: `patch` writes the fields that the package gives.
unfoldable pub patch_machine :
    Text → (JailRecordState → JailRecordState) → Text → SandboxRecord → Written
unfolding patched_machine
patch_machine execution_id patch timestamp current =
    patched_machine execution_id patch timestamp current current.machine

unfoldable pub released_machine : Text → Text → SandboxRecord → Option MachineJournalState → Written
released_machine execution_id timestamp current none = err stale_execution_id
released_machine execution_id timestamp current (some m) =
    if m.execution_id == execution_id
    then ok (record current {
      machine = some (record m { jail_record = none; phase = reclaiming; updated_at = timestamp });
    })
    else err stale_execution_id

-- SandboxStateJailRecordStore.remove
unfoldable pub release_machine : Text → Text → SandboxRecord → Written
unfolding released_machine
release_machine execution_id timestamp current =
    released_machine execution_id timestamp current current.machine

-- The writers of one execution, by the calls that make them.
pub data Write : Type 0 where
  to_staging to_ready to_terminating unbinding : Write
  to_booting : Option ArtifactReference → Option Bool → Option ResourcesPatch → Write
  completing parking quarantining : Text → Write
  exposing : ℕ → ℕ → Write
  binding : JailRecordState → Text → Write
  patching : (JailRecordState → JailRecordState) → Text → Write
  releasing : Text → Write

unfoldable pub written : Text → Write → SandboxRecord → Written
unfolding owned_transition complete park quarantine unbind expose bind_machine patch_machine
    release_machine
written id to_staging r = owned_transition id (allocating ∷ []) staging none none none r
written id (to_booting artifact pinned resources) r =
    owned_transition id (staging ∷ []) booting artifact pinned resources r
written id to_ready r = owned_transition id (booting ∷ []) ready none none none r
written id to_terminating r =
    owned_transition id (booting ∷ ready ∷ terminating ∷ []) terminating none none none r
written id unbinding r = unbind id r
written id (completing mode) r = complete id mode r
written id (parking detail) r = park id detail r
written id (quarantining detail) r = quarantine (some id) detail r
written id (exposing guest_port host_port) r = expose id guest_port host_port r
written id (binding jail timestamp) r = bind_machine id jail timestamp r
written id (patching patch timestamp) r = patch_machine id patch timestamp r
written id (releasing timestamp) r = release_machine id timestamp r
