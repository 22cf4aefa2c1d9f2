-- ===== src/State/Validation.antt =====
-- `validateSandboxRecord` of src/state/model.ts: a valid object is returned as the typed record that
-- it is a clone of.
pub mod Valid
pub mod Complete
pub mod Exact
pub mod Sound
pub mod Journal
pub mod Record
pub mod Injective
use studiobox.Common.{
  ℕ, zero, suc, ◌+◌, Option, none, some, Bool, true, false, ◌&&◌, ◌||◌, not, List, [], ◌∷◌, leb,
  ltb, nat_beq, length, if◌then◌else◌, ◌==◌, member,
}
use studiobox.Common.Codes.{codes_eq}
use studiobox.Common.Results.{Result, err, ok, ◌>>=◌, ◌>>◌, or_throw, throw_if}
use studiobox.Common.JsNumber.{JsNumber, nat}
use studiobox.State.Model.{
  Text, codes, SandboxPhase, allocating, staging, booting, ready, terminating, terminated,
  reconciling, quarantined, MachineJournalPhase, reserved, launching, running, reclaiming, Arch,
  aarch64, x86_64, JailRecordState, MachineJournalState, ArtifactReference, ExposedPort,
  SandboxResources, SchemaVersion, version_1, version_2, SandboxRecord,
}
use studiobox.State.Values.{
  TypeError, type_error, Value, undefined, null, compound, boolean, number, text, Slot, Array,
  Checked, assert_record, assert_keys, assert_unsigned_integer, assert_non_negative_integer,
  assert_text, optional, optional_record, assert_array, check_each, assert_boolean,
  assert_timestamp,
}
use studiobox.State.Raw.{RawPort, RawResources, RawArtifact, RawJail, RawMachine, RawRecord}
use studiobox.State.Grammar.{
  is_sandbox_id, is_execution_id, is_sha256_hex, assert_matches, assert_phase, assert_machine_phase,
  assert_arch, assert_version,
}

unfoldable pub validate_artifact_reference : RawArtifact → Checked ArtifactReference
unfolding assert_matches
validate_artifact_reference a = do
  assert_keys a.unknown
  manifest_hash ← assert_matches is_sha256_hex a.manifest_hash
  arch ← assert_arch a.arch
  ok (record { manifest_hash = manifest_hash; arch = arch })

unfoldable pub validate_port : Slot RawPort → Checked ExposedPort
validate_port entry = do
  port ← assert_record entry
  assert_keys port.unknown
  host_port ← assert_unsigned_integer 40_199 40_100 port.host_port
  guest_port ← assert_unsigned_integer 65_535 1 port.guest_port
  ok (record { host_port = host_port; guest_port = guest_port })

-- The loop over `exposedPorts`, with the set of host ports seen so far.
unfoldable pub validate_ports : List ℕ → List (Slot RawPort) → Checked (List ExposedPort)
unfolding validate_port
validate_ports host_ports [] = ok []
validate_ports host_ports (entry ∷ entries) = do
  port ← validate_port entry
  throw_if (member port.host_port host_ports) type_error
  ports ← validate_ports (port.host_port ∷ host_ports) entries
  ok (port ∷ ports)

abbrev pub path_text : Value → Checked Text
path_text value = assert_text 4_096 false value

abbrev pub uint32 : Value → Checked ℕ
uint32 value = assert_unsigned_integer 0xffff_ffff 0 value

unfoldable pub validate_resources : RawResources → Checked SandboxResources
unfolding validate_ports
validate_resources r = do
  assert_keys r.unknown
  uid ← optional uint32 r.uid
  gid ← optional uint32 r.gid
  overlay_path ← optional path_text r.overlay_path
  tap_name ← optional path_text r.tap_name
  netns_path ← optional path_text r.netns_path
  host_ip ← optional path_text r.host_ip
  guest_ip ← optional path_text r.guest_ip
  subnet ← optional path_text r.subnet
  dnsmasq_pidfile ← optional path_text r.dnsmasq_pidfile
  entries ← assert_array r.exposed_ports
  exposed_ports ← validate_ports [] entries
  ok (record {
    uid = uid;
    gid = gid;
    overlay_path = overlay_path;
    tap_name = tap_name;
    netns_path = netns_path;
    host_ip = host_ip;
    guest_ip = guest_ip;
    subnet = subnet;
    dnsmasq_pidfile = dnsmasq_pidfile;
    exposed_ports = exposed_ports;
  })

unfoldable pub validate_pid : Value → Checked (Option ℕ)
validate_pid null = ok none
validate_pid value = assert_unsigned_integer 0x7fff_ffff 1 value >>= λ pid. ok (some pid)

-- version === 1 && vmId === executionId
unfoldable pub assert_identity : Text → Value → Value → Checked Text
assert_identity execution_id (number (nat n)) (text vm_id) =
    if nat_beq n 1 && vm_id == execution_id then ok vm_id else err type_error
assert_identity execution_id _ _ = err type_error

unfoldable pub validate_entry : Text × Value → Checked (Text × Text)
validate_entry (key, value) = do
  checked_key ← assert_text 128 false (text key)
  checked_value ← assert_text 1_024 true value
  ok (checked_key, checked_value)

unfoldable pub validate_metadata : List (Text × Value) → Checked (List (Text × Text))
unfolding validate_entry
validate_metadata entries = do
  throw_if (ltb 64 (length entries)) type_error
  check_each validate_entry entries

-- A field that schema version 1 does not have.
unfoldable pub version_allows {ℓ} : {A : Type ℓ} → SchemaVersion → Option A → Checked (Unit {0})
version_allows version_1 (some a) = err type_error
version_allows _ _ = ok tt

module _ (parses : Text → Bool) where
  unfoldable pub validate_jail_record : Text → RawJail → Checked JailRecordState
  unfolding assert_identity validate_pid validate_metadata
  validate_jail_record execution_id j = do
    assert_keys j.unknown
    vm_id ← assert_identity execution_id j.version j.vm_id
    pid ← validate_pid j.pid
    api_socket_path ← path_text j.api_socket_path
    state_dir ← path_text j.state_dir
    owns_state_dir ← assert_boolean j.owns_state_dir
    vsock_uds_path ← optional path_text j.vsock_uds_path
    pidfile_path ← optional path_text j.pidfile_path
    chroot_dir ← optional path_text j.chroot_dir
    paths ← assert_array j.vsock_listener_paths
    vsock_listener_paths ← check_each path_text paths
    created_at ← assert_timestamp parses j.created_at
    metadata ← optional_record validate_metadata j.metadata
    ok (record {
      vm_id = vm_id;
      pid = pid;
      api_socket_path = api_socket_path;
      state_dir = state_dir;
      owns_state_dir = owns_state_dir;
      vsock_uds_path = vsock_uds_path;
      vsock_listener_paths = vsock_listener_paths;
      pidfile_path = pidfile_path;
      chroot_dir = chroot_dir;
      created_at = created_at;
      metadata = metadata;
    })

  unfoldable pub validate_machine : RawMachine → Checked MachineJournalState
  unfolding assert_matches
  validate_machine m = do
    assert_keys m.unknown
    execution_id ← assert_matches is_execution_id m.execution_id
    phase ← assert_machine_phase m.phase
    updated_at ← assert_timestamp parses m.updated_at
    cgroup_path ← optional path_text m.cgroup_path
    jail_record ← optional_record (validate_jail_record execution_id) m.jail_record
    ok (record {
      execution_id = execution_id;
      phase = phase;
      jail_record = jail_record;
      cgroup_path = cgroup_path;
      updated_at = updated_at;
    })

  unfoldable pub validate_sandbox_record : Slot RawRecord → Checked SandboxRecord
  unfolding assert_matches
  validate_sandbox_record value = do
    raw ← assert_record value
    assert_keys raw.unknown
    schema_version ← assert_version raw.schema_version
    id ← assert_matches is_sandbox_id raw.id
    revision ← assert_non_negative_integer raw.revision
    generation ← assert_non_negative_integer raw.generation
    phase ← assert_phase raw.phase
    created_at ← assert_timestamp parses raw.created_at
    updated_at ← assert_timestamp parses raw.updated_at
    termination_reason ← optional (assert_text 512 false) raw.termination_reason
    raw_resources ← assert_record raw.resources
    resources ← validate_resources raw_resources
    machine ← optional_record validate_machine raw.machine
    artifact ← optional_record validate_artifact_reference raw.artifact
    version_allows schema_version artifact
    template_pinned ← optional assert_boolean raw.template_pinned
    version_allows schema_version template_pinned
    ok (record {
      schema_version = schema_version;
      id = id;
      revision = revision;
      generation = generation;
      phase = phase;
      created_at = created_at;
      updated_at = updated_at;
      machine = machine;
      artifact = artifact;
      template_pinned = template_pinned;
      resources = resources;
      termination_reason = termination_reason;
    })
