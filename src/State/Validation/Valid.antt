-- ===== src/State/Validation/Valid.antt =====
-- What a valid record of src/state/model.ts is, and the object that it is written as.
use studiobox.Common.{
  ℕ, ◌≤◌, ◌≡◌, Option, none, some, Bool, true, false, List, [], ◌∷◌, map, length, member,
}
use studiobox.Common.JsNumber.{nat, max_safe_integer}
use studiobox.State.Model.{
  Text, JailRecordState, MachineJournalState, ArtifactReference, ExposedPort, SandboxResources,
  SchemaVersion, version_1, version_2, SandboxRecord,
}
use studiobox.State.Values.{
  Value, undefined, null, boolean, number, text, Slot, absent, object, array, utf8_length,
}
use studiobox.State.Raw.{RawPort, RawResources, RawArtifact, RawJail, RawMachine, RawRecord}
use studiobox.State.Grammar.{
  is_sandbox_id, is_execution_id, is_sha256_hex, phase_text, machine_phase_text, arch_text,
}

abbrev pub IfPresent {ℓ} : {A : Type ℓ} → (A → Type 0) → Option A → Type 0
IfPresent P none = Unit {0}
IfPresent P (some a) = P a

abbrev pub AllOf {ℓ} : {A : Type ℓ} → (A → Type 0) → List A → Type 0
AllOf P [] = Unit {0}
AllOf P (x ∷ xs) = P x × AllOf P xs

-- One to `n` bytes of UTF-8.
abbrev pub IsText : ℕ → Text → Type 0
IsText n cs = (1 ≤ length cs) × (utf8_length cs ≤ n)

abbrev pub IsBounded : ℕ → Text → Type 0
IsBounded n cs = utf8_length cs ≤ n

abbrev pub IsPath : Text → Type 0
IsPath cs = IsText 4_096 cs

abbrev pub Within : ℕ → ℕ → ℕ → Type 0
Within low high n = (low ≤ n) × (n ≤ high)

abbrev pub IsPort : ExposedPort → Type 0
IsPort p = Within 40_100 40_199 p.host_port × Within 1 65_535 p.guest_port

-- No host port stands twice, nor among those seen before.
abbrev pub AreUnseen : List ℕ → List ExposedPort → Type 0
AreUnseen seen [] = Unit {0}
AreUnseen seen (p ∷ ps) = (member p.host_port seen ≡ false) × AreUnseen (p.host_port ∷ seen) ps

pub record AreResources (r : SandboxResources) : Type 0 where
  pub uid : IfPresent (Within 0 0xffff_ffff) r.uid
  pub gid : IfPresent (Within 0 0xffff_ffff) r.gid
  pub overlay_path : IfPresent IsPath r.overlay_path
  pub tap_name : IfPresent IsPath r.tap_name
  pub netns_path : IfPresent IsPath r.netns_path
  pub host_ip : IfPresent IsPath r.host_ip
  pub guest_ip : IfPresent IsPath r.guest_ip
  pub subnet : IfPresent IsPath r.subnet
  pub dnsmasq_pidfile : IfPresent IsPath r.dnsmasq_pidfile
  pub ports : AllOf IsPort r.exposed_ports
  pub unseen : AreUnseen [] r.exposed_ports

abbrev pub IsEntry : Text × Text → Type 0
IsEntry (key, value) = IsText 128 key × IsBounded 1_024 value

abbrev pub IsMetadata : List (Text × Text) → Type 0
IsMetadata entries = (length entries ≤ 64) × AllOf IsEntry entries

abbrev pub IsArtifact : ArtifactReference → Type 0
IsArtifact a = is_sha256_hex a.manifest_hash ≡ true

-- Only schema version 2 has the field.
abbrev pub Allows {ℓ} : {A : Type ℓ} → SchemaVersion → Option A → Type 0
Allows version_1 (some a) = ⊥
Allows version_1 none = Unit {0}
Allows version_2 o = Unit {0}

module _ (parses : Text → Bool) where
  abbrev pub IsTimestamp : Text → Type 0
  IsTimestamp cs = (length cs ≤ 64) × (parses cs ≡ true)

  pub record IsJail (execution_id : Text) (j : JailRecordState) : Type 0 where
    pub vm_id : j.vm_id ≡ execution_id
    pub pid : IfPresent (Within 1 0x7fff_ffff) j.pid
    pub api_socket_path : IsPath j.api_socket_path
    pub state_dir : IsPath j.state_dir
    pub vsock_uds_path : IfPresent IsPath j.vsock_uds_path
    pub vsock_listener_paths : AllOf IsPath j.vsock_listener_paths
    pub pidfile_path : IfPresent IsPath j.pidfile_path
    pub chroot_dir : IfPresent IsPath j.chroot_dir
    pub created_at : IsTimestamp j.created_at
    pub metadata : IfPresent IsMetadata j.metadata

  pub record IsMachine (m : MachineJournalState) : Type 0 where
    pub execution_id : is_execution_id m.execution_id ≡ true
    pub updated_at : IsTimestamp m.updated_at
    pub cgroup_path : IfPresent IsPath m.cgroup_path
    pub jail_record : IfPresent (IsJail m.execution_id) m.jail_record

  pub record IsRecord (r : SandboxRecord) : Type 0 where
    pub id : is_sandbox_id r.id ≡ true
    pub revision : Within 0 max_safe_integer r.revision
    pub generation : Within 0 max_safe_integer r.generation
    pub created_at : IsTimestamp r.created_at
    pub updated_at : IsTimestamp r.updated_at
    pub termination_reason : IfPresent (IsText 512) r.termination_reason
    pub resources : AreResources r.resources
    pub machine : IfPresent IsMachine r.machine
    pub artifact : IfPresent IsArtifact r.artifact
    pub artifact_version : Allows r.schema_version r.artifact
    pub pin_version : Allows r.schema_version r.template_pinned

-- `undefined`, or what is written for a value.
abbrev pub or_undefined {ℓ} : {A : Type ℓ} → (A → Value) → Option A → Value
or_undefined write none = undefined
or_undefined write (some a) = write a

abbrev pub if_text : Option Text → Value
if_text o = or_undefined text o

abbrev pub if_number : Option ℕ → Value
if_number o = or_undefined (λ n. number (nat n)) o

abbrev pub if_boolean : Option Bool → Value
if_boolean o = or_undefined boolean o

abbrev pub or_null : Option ℕ → Value
or_null none = null
or_null (some n) = number (nat n)

abbrev pub if_object {ℓ κ} : {A : Type ℓ} {B : Type κ} → (A → B) → Option A → Slot B
if_object f none = absent
if_object f (some a) = object (f a)

abbrev pub raw_port : ExposedPort → Slot RawPort
raw_port p = object (record {
  unknown = [];
  host_port = number (nat p.host_port);
  guest_port = number (nat p.guest_port);
})

unfoldable pub raw_resources : SandboxResources → RawResources
raw_resources r = record {
  unknown = [];
  uid = if_number r.uid;
  gid = if_number r.gid;
  overlay_path = if_text r.overlay_path;
  tap_name = if_text r.tap_name;
  netns_path = if_text r.netns_path;
  host_ip = if_text r.host_ip;
  guest_ip = if_text r.guest_ip;
  subnet = if_text r.subnet;
  dnsmasq_pidfile = if_text r.dnsmasq_pidfile;
  exposed_ports = array (map raw_port r.exposed_ports);
}

unfoldable pub raw_artifact : ArtifactReference → RawArtifact
raw_artifact a = record {
  unknown = [];
  manifest_hash = text a.manifest_hash;
  arch = text (arch_text a.arch);
}

abbrev pub raw_entry : Text × Text → Text × Value
raw_entry (key, value) = (key, text value)

unfoldable pub raw_jail : JailRecordState → RawJail
raw_jail j = record {
  unknown = [];
  version = number (nat 1);
  vm_id = text j.vm_id;
  pid = or_null j.pid;
  api_socket_path = text j.api_socket_path;
  state_dir = text j.state_dir;
  owns_state_dir = boolean j.owns_state_dir;
  vsock_uds_path = if_text j.vsock_uds_path;
  vsock_listener_paths = array (map text j.vsock_listener_paths);
  pidfile_path = if_text j.pidfile_path;
  chroot_dir = if_text j.chroot_dir;
  created_at = text j.created_at;
  metadata = if_object (map raw_entry) j.metadata;
}

unfoldable pub raw_machine : MachineJournalState → RawMachine
raw_machine m = record {
  unknown = [];
  execution_id = text m.execution_id;
  phase = text (machine_phase_text m.phase);
  jail_record = if_object raw_jail m.jail_record;
  cgroup_path = if_text m.cgroup_path;
  updated_at = text m.updated_at;
}

abbrev pub version_number : SchemaVersion → Value
version_number version_1 = number (nat 1)
version_number version_2 = number (nat 2)

-- The object that a typed record is.
unfoldable pub raw_record : SandboxRecord → Slot RawRecord
raw_record r = object (record {
  unknown = [];
  schema_version = version_number r.schema_version;
  id = text r.id;
  revision = number (nat r.revision);
  generation = number (nat r.generation);
  phase = text (phase_text r.phase);
  created_at = text r.created_at;
  updated_at = text r.updated_at;
  machine = if_object raw_machine r.machine;
  artifact = if_object raw_artifact r.artifact;
  template_pinned = if_boolean r.template_pinned;
  resources = object (raw_resources r.resources);
  termination_reason = if_text r.termination_reason;
})
