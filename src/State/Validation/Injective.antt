-- ===== src/State/Validation/Injective.antt =====
-- Two records of src/state/model.ts that are written as the same object are the same.
use studiobox.Common.{◌≡◌, refl, sym, ap, ◌∙◌, none, some, List, [], ◌∷◌, map}
use studiobox.Common.Results.{ok}
use studiobox.Common.JsNumber.{nat}
use studiobox.State.Model.{SandboxRecord}
use studiobox.State.Values.{boolean, number, text, object, array, Checked}
use studiobox.State.Raw.{RawPort, RawResources, RawArtifact, RawJail, RawMachine, RawRecord}
use studiobox.State.Grammar.{
  phase_text, machine_phase_text, arch_text, assert_phase, assert_machine_phase, assert_arch,
  assert_version,
}
use studiobox.State.Validation.Valid.{
  or_undefined, or_null, if_object, raw_port, raw_resources, raw_artifact, raw_entry, raw_jail,
  raw_machine, version_number, raw_record,
}
use studiobox.State.Validation.Exact.{ok_injective}
use studiobox.State.Validation.Complete.{
  assert_phase-phase_text, assert_machine_phase-machine_phase_text, assert_arch-arch_text,
  assert_version-version_number,
}

abbrev pub Injective {ℓ κ} : {A : Type ℓ} {B : Type κ} → (A → B) → Type (ℓ ⊔ κ)
Injective {A = A} write = (a b : A) → write a ≡ write b → a ≡ b

-- What a check gives back is written differently for different values.
checked-Injective {ℓ κ} :
    {A : Type ℓ} {B : Type κ} (check : B → Checked A) (write : A → B)
    → ((a : A) → check (write a) ≡ ok a)
    → Injective write
checked-Injective check write back a b e = ok_injective (sym (back a) ∙ ap check e ∙ back b)

pub phase-Injective : Injective (λ p. text (phase_text p))
phase-Injective = checked-Injective assert_phase _ assert_phase-phase_text

machine_phase-Injective : Injective (λ p. text (machine_phase_text p))
machine_phase-Injective =
    checked-Injective assert_machine_phase _ assert_machine_phase-machine_phase_text

arch-Injective : Injective (λ a. text (arch_text a))
arch-Injective = checked-Injective assert_arch _ assert_arch-arch_text

version-Injective : Injective version_number
version-Injective = checked-Injective assert_version _ assert_version-version_number

text-Injective : Injective text
text-Injective a b e = cc

number-Injective : Injective (λ n. number (nat n))
number-Injective a b e = cc

boolean-Injective : Injective boolean
boolean-Injective a b e = cc

text_or_undefined : Injective (or_undefined text)
text_or_undefined none none e = refl
text_or_undefined none (some b) e = cc
text_or_undefined (some a) none e = cc
text_or_undefined (some a) (some b) e = cc

number_or_undefined : Injective (or_undefined (λ n. number (nat n)))
number_or_undefined none none e = refl
number_or_undefined none (some b) e = cc
number_or_undefined (some a) none e = cc
number_or_undefined (some a) (some b) e = cc

boolean_or_undefined : Injective (or_undefined boolean)
boolean_or_undefined none none e = refl
boolean_or_undefined none (some b) e = cc
boolean_or_undefined (some a) none e = cc
boolean_or_undefined (some a) (some b) e = cc

or_null-Injective : Injective or_null
or_null-Injective none none e = refl
or_null-Injective none (some b) e = cc
or_null-Injective (some a) none e = cc
or_null-Injective (some a) (some b) e = cc

object_injective {ℓ} : {A : Type ℓ} (a b : A) → object a ≡ object b → a ≡ b
object_injective a b e = cc

array_injective {ℓ} : {A : Type ℓ} (a b : List A) → array a ≡ array b → a ≡ b
array_injective a b e = cc

if_object-Injective {ℓ κ} :
    {A : Type ℓ} {B : Type κ} (write : A → B) → Injective write → Injective (if_object write)
if_object-Injective write inj none none e = refl
if_object-Injective write inj none (some b) e = cc
if_object-Injective write inj (some a) none e = cc
if_object-Injective write inj (some a) (some b) e =
    ap some (inj a b (object_injective (write a) (write b) e))

head_eq {ℓ} : {A : Type ℓ} (a b : A) (as' bs : List A) → a ∷ as' ≡ b ∷ bs → (a ≡ b) × (as' ≡ bs)
head_eq a b as' bs e = (cc, cc)

map-Injective {ℓ κ} :
    {A : Type ℓ} {B : Type κ} (write : A → B) → Injective write → Injective (map write)
map-Injective write inj [] [] e = refl
map-Injective write inj [] (b ∷ bs) e = cc
map-Injective write inj (a ∷ as') [] e = cc
map-Injective write inj (a ∷ as') (b ∷ bs) e =
    let parts = head_eq (write a) (write b) (map write as') (map write bs) e in
    let first = inj a b parts.0 in
    let rest = map-Injective write inj as' bs parts.1 in λ i. first i ∷ rest i

raw_port-Injective : Injective raw_port
raw_port-Injective a b e =
    let raw = object_injective _ _ e in
    λ i. record {
      host_port =
          number-Injective a.host_port b.host_port (ap (λ (r : RawPort). r.host_port) raw) i;
      guest_port =
          number-Injective a.guest_port b.guest_port (ap (λ (r : RawPort). r.guest_port) raw) i;
    }

raw_resources-Injective : Injective raw_resources
unfolding raw_resources
raw_resources-Injective a b e = λ i. record {
  uid = number_or_undefined a.uid b.uid (ap (λ (r : RawResources). r.uid) e) i;
  gid = number_or_undefined a.gid b.gid (ap (λ (r : RawResources). r.gid) e) i;
  overlay_path =
      text_or_undefined a.overlay_path b.overlay_path (ap (λ (r : RawResources). r.overlay_path) e)
        i;
  tap_name = text_or_undefined a.tap_name b.tap_name (ap (λ (r : RawResources). r.tap_name) e) i;
  netns_path =
      text_or_undefined a.netns_path b.netns_path (ap (λ (r : RawResources). r.netns_path) e) i;
  host_ip = text_or_undefined a.host_ip b.host_ip (ap (λ (r : RawResources). r.host_ip) e) i;
  guest_ip = text_or_undefined a.guest_ip b.guest_ip (ap (λ (r : RawResources). r.guest_ip) e) i;
  subnet = text_or_undefined a.subnet b.subnet (ap (λ (r : RawResources). r.subnet) e) i;
  dnsmasq_pidfile =
      text_or_undefined a.dnsmasq_pidfile b.dnsmasq_pidfile
        (ap (λ (r : RawResources). r.dnsmasq_pidfile) e) i;
  exposed_ports =
      map-Injective raw_port raw_port-Injective a.exposed_ports b.exposed_ports
        (array_injective _ _ (ap (λ (r : RawResources). r.exposed_ports) e)) i;
}

raw_artifact-Injective : Injective raw_artifact
unfolding raw_artifact
raw_artifact-Injective a b e = λ i. record {
  manifest_hash =
      text-Injective a.manifest_hash b.manifest_hash (ap (λ (r : RawArtifact). r.manifest_hash) e)
        i;
  arch = arch-Injective a.arch b.arch (ap (λ (r : RawArtifact). r.arch) e) i;
}

raw_entry-Injective : Injective raw_entry
raw_entry-Injective (j, v) (k, w) e = cc

raw_jail-Injective : Injective raw_jail
unfolding raw_jail
raw_jail-Injective a b e = λ i. record {
  vm_id = text-Injective a.vm_id b.vm_id (ap (λ (r : RawJail). r.vm_id) e) i;
  pid = or_null-Injective a.pid b.pid (ap (λ (r : RawJail). r.pid) e) i;
  api_socket_path =
      text-Injective a.api_socket_path b.api_socket_path (ap (λ (r : RawJail). r.api_socket_path) e)
        i;
  state_dir = text-Injective a.state_dir b.state_dir (ap (λ (r : RawJail). r.state_dir) e) i;
  owns_state_dir =
      boolean-Injective a.owns_state_dir b.owns_state_dir (ap (λ (r : RawJail). r.owns_state_dir) e)
        i;
  vsock_uds_path =
      text_or_undefined a.vsock_uds_path b.vsock_uds_path (ap (λ (r : RawJail). r.vsock_uds_path) e)
        i;
  vsock_listener_paths =
      map-Injective text text-Injective a.vsock_listener_paths b.vsock_listener_paths
        (array_injective _ _ (ap (λ (r : RawJail). r.vsock_listener_paths) e)) i;
  pidfile_path =
      text_or_undefined a.pidfile_path b.pidfile_path (ap (λ (r : RawJail). r.pidfile_path) e) i;
  chroot_dir = text_or_undefined a.chroot_dir b.chroot_dir (ap (λ (r : RawJail). r.chroot_dir) e) i;
  created_at = text-Injective a.created_at b.created_at (ap (λ (r : RawJail). r.created_at) e) i;
  metadata =
      if_object-Injective (map raw_entry) (map-Injective raw_entry raw_entry-Injective) a.metadata
        b.metadata (ap (λ (r : RawJail). r.metadata) e) i;
}

raw_machine-Injective : Injective raw_machine
unfolding raw_machine
raw_machine-Injective a b e = λ i. record {
  execution_id =
      text-Injective a.execution_id b.execution_id (ap (λ (r : RawMachine). r.execution_id) e) i;
  phase = machine_phase-Injective a.phase b.phase (ap (λ (r : RawMachine). r.phase) e) i;
  jail_record =
      if_object-Injective raw_jail raw_jail-Injective a.jail_record b.jail_record
        (ap (λ (r : RawMachine). r.jail_record) e) i;
  cgroup_path =
      text_or_undefined a.cgroup_path b.cgroup_path (ap (λ (r : RawMachine). r.cgroup_path) e) i;
  updated_at = text-Injective a.updated_at b.updated_at (ap (λ (r : RawMachine). r.updated_at) e) i;
}

pub raw_record_injective : (a b : SandboxRecord) → raw_record a ≡ raw_record b → a ≡ b
unfolding raw_record
raw_record_injective a b same =
    let e = object_injective _ _ same in
    λ i. record {
      schema_version =
          version-Injective a.schema_version b.schema_version
            (ap (λ (r : RawRecord). r.schema_version) e) i;
      id = text-Injective a.id b.id (ap (λ (r : RawRecord). r.id) e) i;
      revision = number-Injective a.revision b.revision (ap (λ (r : RawRecord). r.revision) e) i;
      generation =
          number-Injective a.generation b.generation (ap (λ (r : RawRecord). r.generation) e) i;
      phase = phase-Injective a.phase b.phase (ap (λ (r : RawRecord). r.phase) e) i;
      created_at =
          text-Injective a.created_at b.created_at (ap (λ (r : RawRecord). r.created_at) e) i;
      updated_at =
          text-Injective a.updated_at b.updated_at (ap (λ (r : RawRecord). r.updated_at) e) i;
      machine =
          if_object-Injective raw_machine raw_machine-Injective a.machine b.machine
            (ap (λ (r : RawRecord). r.machine) e) i;
      artifact =
          if_object-Injective raw_artifact raw_artifact-Injective a.artifact b.artifact
            (ap (λ (r : RawRecord). r.artifact) e) i;
      template_pinned =
          boolean_or_undefined a.template_pinned b.template_pinned
            (ap (λ (r : RawRecord). r.template_pinned) e) i;
      resources =
          raw_resources-Injective a.resources b.resources
            (object_injective _ _ (ap (λ (r : RawRecord). r.resources) e)) i;
      termination_reason =
          text_or_undefined a.termination_reason b.termination_reason
            (ap (λ (r : RawRecord). r.termination_reason) e) i;
    }
