-- ===== src/State/Model.antt =====
-- src/state/model.ts: the journaled record of a sandbox. Texts are lists of UTF-16 code units.
use Prim.Native.Char.{code}
use Prim.Native.String.{String}
use studiobox.Common.{ℕ, Option, Bool, List, []}

abbrev pub Text : Type 0
Text = List ℕ

-- The code units of an ASCII literal.
abbrev pub codes : String → Text
codes String.[] = []
codes (String.◌∷◌ c s) = List.◌∷◌ (code c) (codes s)

pub data SandboxPhase : Type 0 where
  allocating staging booting ready terminating terminated reconciling quarantined : SandboxPhase

pub data MachineJournalPhase : Type 0 where
  reserved launching running reclaiming : MachineJournalPhase

pub data Arch : Type 0 where
  aarch64 x86_64 : Arch

pub record JailRecordState : Type 0 where
  pub vm_id : Text
  pub pid : Option ℕ
  pub api_socket_path : Text
  pub state_dir : Text
  pub owns_state_dir : Bool
  pub vsock_uds_path : Option Text
  pub vsock_listener_paths : List Text
  pub pidfile_path : Option Text
  pub chroot_dir : Option Text
  pub created_at : Text
  pub metadata : Option (List (Text × Text))

pub record MachineJournalState : Type 0 where
  pub execution_id : Text
  pub phase : MachineJournalPhase
  pub jail_record : Option JailRecordState
  pub cgroup_path : Option Text
  pub updated_at : Text

pub record ArtifactReference : Type 0 where
  pub manifest_hash : Text
  pub arch : Arch

pub record ExposedPort : Type 0 where
  pub host_port : ℕ
  pub guest_port : ℕ

pub record SandboxResources : Type 0 where
  pub uid : Option ℕ
  pub gid : Option ℕ
  pub overlay_path : Option Text
  pub tap_name : Option Text
  pub netns_path : Option Text
  pub host_ip : Option Text
  pub guest_ip : Option Text
  pub subnet : Option Text
  pub dnsmasq_pidfile : Option Text
  pub exposed_ports : List ExposedPort

pub data SchemaVersion : Type 0 where
  version_1 version_2 : SchemaVersion

pub record SandboxRecord : Type 0 where
  pub schema_version : SchemaVersion
  pub id : Text
  pub revision : ℕ
  pub generation : ℕ
  pub phase : SandboxPhase
  pub created_at : Text
  pub updated_at : Text
  pub machine : Option MachineJournalState
  pub artifact : Option ArtifactReference
  pub template_pinned : Option Bool
  pub resources : SandboxResources
  pub termination_reason : Option Text
