-- ===== src/State/Raw.antt =====
-- The objects that src/state/model.ts validates: the known fields of an object, and the list of its
-- other keys.
use studiobox.Common.{List}
use studiobox.Common.Codes.{codes_eq}
use studiobox.State.Model.{Text}
use studiobox.State.Values.{Value, Slot, Array}

pub record RawPort : Type 0 where
  pub unknown : List Text
  pub host_port : Value
  pub guest_port : Value

pub record RawResources : Type 0 where
  pub unknown : List Text
  pub uid : Value
  pub gid : Value
  pub overlay_path : Value
  pub tap_name : Value
  pub netns_path : Value
  pub host_ip : Value
  pub guest_ip : Value
  pub subnet : Value
  pub dnsmasq_pidfile : Value
  pub exposed_ports : Array (Slot RawPort)

pub record RawArtifact : Type 0 where
  pub unknown : List Text
  pub manifest_hash : Value
  pub arch : Value

pub record RawJail : Type 0 where
  pub unknown : List Text
  pub version : Value
  pub vm_id : Value
  pub pid : Value
  pub api_socket_path : Value
  pub state_dir : Value
  pub owns_state_dir : Value
  pub vsock_uds_path : Value
  pub vsock_listener_paths : Array Value
  pub pidfile_path : Value
  pub chroot_dir : Value
  pub created_at : Value
  pub metadata : Slot (List (Text × Value))

pub record RawMachine : Type 0 where
  pub unknown : List Text
  pub execution_id : Value
  pub phase : Value
  pub jail_record : Slot RawJail
  pub cgroup_path : Value
  pub updated_at : Value

pub record RawRecord : Type 0 where
  pub unknown : List Text
  pub schema_version : Value
  pub id : Value
  pub revision : Value
  pub generation : Value
  pub phase : Value
  pub created_at : Value
  pub updated_at : Value
  pub machine : Slot RawMachine
  pub artifact : Slot RawArtifact
  pub template_pinned : Value
  pub resources : Slot RawResources
  pub termination_reason : Value
