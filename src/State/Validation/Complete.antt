-- ===== src/State/Validation/Complete.antt =====
-- `validateSandboxRecord` of src/state/model.ts accepts every valid record.
use studiobox.Common.{
  ℕ, ltb, ◌≤◌, ◌≡◌, refl, Option, none, some, Bool, true, false, List, [], ◌∷◌, map, length, arith,
  beq_refl,
}
use studiobox.Common.Codes.{codes_eq, codes_beq}
use studiobox.Common.Results.{ok}
use studiobox.Common.JsNumber.{nat, max_safe_integer, safe_nat}
use studiobox.State.Model.{
  Text, SandboxPhase, allocating, staging, booting, ready, terminating, terminated, reconciling,
  quarantined, MachineJournalPhase, reserved, launching, running, reclaiming, Arch, aarch64, x86_64,
  JailRecordState, MachineJournalState, ArtifactReference, ExposedPort, SandboxResources,
  SchemaVersion, version_1, version_2, SandboxRecord,
}
use studiobox.State.Values.{
  number, text, Checked, assert_record, assert_keys, assert_array, assert_unsigned_integer,
  assert_non_negative_integer, assert_text, optional, optional_record, check_each, assert_boolean,
  assert_timestamp,
}
use studiobox.State.Grammar.{
  is_sandbox_id, is_execution_id, is_sha256_hex, assert_matches, phase_text, assert_phase,
  machine_phase_text, assert_machine_phase, arch_text, assert_arch, assert_version,
}
use studiobox.State.Validation.{
  validate_artifact_reference, validate_port, validate_ports, path_text, uint32, validate_resources,
  validate_pid, assert_identity, validate_entry, validate_metadata, version_allows,
  validate_jail_record, validate_machine, validate_sandbox_record,
}
use studiobox.State.Validation.Valid.{
  IfPresent, AllOf, IsText, IsBounded, IsPath, Within, IsPort, AreUnseen, AreResources, IsEntry,
  IsMetadata, IsArtifact, Allows, IsTimestamp, IsJail, IsMachine, IsRecord, if_text, if_number,
  if_boolean, or_null, if_object, raw_port, raw_resources, raw_artifact, raw_entry, raw_jail,
  raw_machine, version_number, raw_record,
}

assert_text-text : (n : ℕ) (cs : Text) → IsText n cs → assert_text n false (text cs) ≡ ok cs
unfolding assert_text
assert_text-text n cs h = ground arith

assert_text-bounded : (n : ℕ) (cs : Text) → IsBounded n cs → assert_text n true (text cs) ≡ ok cs
unfolding assert_text
assert_text-bounded n cs h = ground arith

assert_unsigned_integer-number :
    (high low n : ℕ)
    → high ≤ max_safe_integer
    → Within low high n
    → assert_unsigned_integer high low (number (nat n)) ≡ ok n
unfolding assert_unsigned_integer safe_nat
assert_unsigned_integer-number high low n b h = ground arith

assert_non_negative_integer-number :
    (n : ℕ) → Within 0 max_safe_integer n → assert_non_negative_integer (number (nat n)) ≡ ok n
unfolding assert_non_negative_integer
assert_non_negative_integer-number n h =
    assert_unsigned_integer-number max_safe_integer 0 n (omega arith) h

optional-if_text :
    (n : ℕ) (o : Option Text)
    → IfPresent (IsText n) o
    → optional (assert_text n false) (if_text o) ≡ ok o
unfolding optional
optional-if_text n none h = refl
optional-if_text n (some cs) h = rw (assert_text-text n cs h) refl

optional-if_number :
    (o : Option ℕ) → IfPresent (Within 0 0xffff_ffff) o → optional uint32 (if_number o) ≡ ok o
unfolding optional
optional-if_number none h = refl
optional-if_number (some n) h =
    rw (assert_unsigned_integer-number 0xffff_ffff 0 n (omega arith) h) refl

optional-if_boolean : (o : Option Bool) → optional assert_boolean (if_boolean o) ≡ ok o
unfolding optional assert_boolean
optional-if_boolean none = refl
optional-if_boolean (some b) = refl

optional_record-if_object {ℓ κ} :
    {A : Type ℓ} {B : Type κ} (P : A → Type 0) (check : B → Checked A) (write : A → B)
    → ((a : A) → P a → check (write a) ≡ ok a)
    → (o : Option A) → IfPresent P o
    → optional_record check (if_object write o) ≡ ok o
unfolding optional_record
optional_record-if_object P check write h none p = refl
optional_record-if_object P check write h (some a) p = rw (h a p) refl

check_each-map {ℓ κ} :
    {A : Type ℓ} {B : Type κ} (P : A → Type 0) (check : B → Checked A) (write : A → B)
    → ((a : A) → P a → check (write a) ≡ ok a)
    → (as' : List A) → AllOf P as'
    → check_each check (map write as') ≡ ok as'
unfolding check_each
check_each-map P check write h [] p = refl
check_each-map P check write h (a ∷ as') p =
    rw (h a p.0, check_each-map P check write h as' p.1) refl

validate_port-raw_port : (p : ExposedPort) → IsPort p → validate_port (raw_port p) ≡ ok p
unfolding validate_port assert_record assert_keys
validate_port-raw_port p h =
    rw
      (
        assert_unsigned_integer-number 40_199 40_100 p.host_port (omega arith) h.0,
        assert_unsigned_integer-number 65_535 1 p.guest_port (omega arith) h.1,
      )
      refl

validate_ports-map :
    (seen : List ℕ) (ps : List ExposedPort)
    → AllOf IsPort ps
    → AreUnseen seen ps
    → validate_ports seen (map raw_port ps) ≡ ok ps
unfolding validate_ports
validate_ports-map seen [] h u = refl
validate_ports-map seen (p ∷ ps) h u =
    rw (validate_port-raw_port p h.0, u.0, validate_ports-map (p.host_port ∷ seen) ps h.1 u.1) refl

validate_resources-raw_resources :
    (r : SandboxResources) → AreResources r → validate_resources (raw_resources r) ≡ ok r
unfolding validate_resources raw_resources assert_keys assert_array
validate_resources-raw_resources r h =
    rw
      (
        optional-if_number r.uid h.uid,
        optional-if_number r.gid h.gid,
        optional-if_text 4_096 r.overlay_path h.overlay_path,
        optional-if_text 4_096 r.tap_name h.tap_name,
        optional-if_text 4_096 r.netns_path h.netns_path,
        optional-if_text 4_096 r.host_ip h.host_ip,
        optional-if_text 4_096 r.guest_ip h.guest_ip,
        optional-if_text 4_096 r.subnet h.subnet,
        optional-if_text 4_096 r.dnsmasq_pidfile h.dnsmasq_pidfile,
        validate_ports-map [] r.exposed_ports h.ports h.unseen,
      )
      refl

assert_matches-text :
    (test : Text → Bool) (cs : Text) → test cs ≡ true → assert_matches test (text cs) ≡ ok cs
unfolding assert_matches
assert_matches-text test cs h = rw h refl

pub assert_phase-phase_text : (p : SandboxPhase) → assert_phase (text (phase_text p)) ≡ ok p
unfolding assert_phase phase_text codes_eq codes_beq
assert_phase-phase_text allocating = refl
assert_phase-phase_text staging = refl
assert_phase-phase_text booting = refl
assert_phase-phase_text ready = refl
assert_phase-phase_text terminating = refl
assert_phase-phase_text terminated = refl
assert_phase-phase_text reconciling = refl
assert_phase-phase_text quarantined = refl

pub assert_machine_phase-machine_phase_text :
    (p : MachineJournalPhase) → assert_machine_phase (text (machine_phase_text p)) ≡ ok p
unfolding assert_machine_phase machine_phase_text codes_eq codes_beq
assert_machine_phase-machine_phase_text reserved = refl
assert_machine_phase-machine_phase_text launching = refl
assert_machine_phase-machine_phase_text running = refl
assert_machine_phase-machine_phase_text reclaiming = refl

pub assert_arch-arch_text : (a : Arch) → assert_arch (text (arch_text a)) ≡ ok a
unfolding assert_arch arch_text codes_eq codes_beq
assert_arch-arch_text aarch64 = refl
assert_arch-arch_text x86_64 = refl

pub assert_version-version_number : (v : SchemaVersion) → assert_version (version_number v) ≡ ok v
unfolding assert_version
assert_version-version_number version_1 = refl
assert_version-version_number version_2 = refl

validate_artifact_reference-raw_artifact :
    (a : ArtifactReference) → IsArtifact a → validate_artifact_reference (raw_artifact a) ≡ ok a
unfolding validate_artifact_reference raw_artifact assert_keys
validate_artifact_reference-raw_artifact a h =
    rw (assert_matches-text is_sha256_hex a.manifest_hash h, assert_arch-arch_text a.arch) refl

pub length-map_entry : (es : List (Text × Text)) → length (map raw_entry es) ≡ length es
length-map_entry [] = refl
length-map_entry (e ∷ es) = omega (arith, length-map_entry es)

validate_entry-raw_entry : (e : Text × Text) → IsEntry e → validate_entry (raw_entry e) ≡ ok e
unfolding validate_entry
validate_entry-raw_entry (key, value) h =
    rw (assert_text-text 128 key h.0, assert_text-bounded 1_024 value h.1) refl

validate_metadata-map :
    (es : List (Text × Text)) → IsMetadata es → validate_metadata (map raw_entry es) ≡ ok es
unfolding validate_metadata
validate_metadata-map es h =
    let few : ltb 64 (length (map raw_entry es)) ≡ false =
      ground (arith, length-map_entry es, h.0) in
    rw (few, check_each-map IsEntry validate_entry raw_entry validate_entry-raw_entry es h.1) refl

validate_pid-or_null :
    (o : Option ℕ) → IfPresent (Within 1 0x7fff_ffff) o → validate_pid (or_null o) ≡ ok o
unfolding validate_pid
validate_pid-or_null none h = refl
validate_pid-or_null (some n) h =
    rw (assert_unsigned_integer-number 0x7fff_ffff 1 n (omega arith) h) refl

assert_identity-text :
    (id vm_id : Text) → vm_id ≡ id → assert_identity id (number (nat 1)) (text vm_id) ≡ ok vm_id
unfolding assert_identity
assert_identity-text id vm_id h = rw (h, beq_refl id) refl

version_allows-Allows {ℓ} :
    {A : Type ℓ} (v : SchemaVersion) (o : Option A) → Allows v o → version_allows v o ≡ ok tt
unfolding version_allows
version_allows-Allows version_1 none h = refl
version_allows-Allows version_1 (some a) h = absurd h
version_allows-Allows version_2 o h = refl

module _ (parses : Text → Bool) where
  assert_timestamp-text :
      (cs : Text) → IsTimestamp parses cs → assert_timestamp parses (text cs) ≡ ok cs
  unfolding assert_timestamp
  assert_timestamp-text cs h = ground arith

  validate_jail_record-raw_jail :
      (id : Text) (j : JailRecordState)
      → IsJail parses id j
      → validate_jail_record parses id (raw_jail j) ≡ ok j
  unfolding validate_jail_record raw_jail assert_keys assert_array assert_boolean
  validate_jail_record-raw_jail id j h =
      rw
        (
          assert_identity-text id j.vm_id h.vm_id,
          validate_pid-or_null j.pid h.pid,
          assert_text-text 4_096 j.api_socket_path h.api_socket_path,
          assert_text-text 4_096 j.state_dir h.state_dir,
          optional-if_text 4_096 j.vsock_uds_path h.vsock_uds_path,
          optional-if_text 4_096 j.pidfile_path h.pidfile_path,
          optional-if_text 4_096 j.chroot_dir h.chroot_dir,
          check_each-map IsPath path_text text (assert_text-text 4_096) j.vsock_listener_paths
              h.vsock_listener_paths,
          assert_timestamp-text j.created_at h.created_at,
          optional_record-if_object IsMetadata validate_metadata (map raw_entry)
              validate_metadata-map j.metadata h.metadata,
        )
        refl

  validate_machine-raw_machine :
      (m : MachineJournalState)
      → IsMachine parses m
      → validate_machine parses (raw_machine m) ≡ ok m
  unfolding validate_machine raw_machine assert_keys
  validate_machine-raw_machine m h =
      rw
        (
          assert_matches-text is_execution_id m.execution_id h.execution_id,
          assert_machine_phase-machine_phase_text m.phase,
          assert_timestamp-text m.updated_at h.updated_at,
          optional-if_text 4_096 m.cgroup_path h.cgroup_path,
          optional_record-if_object (IsJail parses m.execution_id)
              (validate_jail_record parses m.execution_id) raw_jail
              (validate_jail_record-raw_jail m.execution_id) m.jail_record h.jail_record,
        )
        refl

  -- A valid record, written as an object, is accepted and returned unchanged.
  pub validate-raw_record :
      (r : SandboxRecord) → IsRecord parses r → validate_sandbox_record parses (raw_record r) ≡ ok r
  unfolding validate_sandbox_record raw_record assert_record assert_keys
  validate-raw_record r h =
      rw
        (
          assert_version-version_number r.schema_version,
          assert_matches-text is_sandbox_id r.id h.id,
          assert_non_negative_integer-number r.revision h.revision,
          assert_non_negative_integer-number r.generation h.generation,
          assert_phase-phase_text r.phase,
          assert_timestamp-text r.created_at h.created_at,
          assert_timestamp-text r.updated_at h.updated_at,
          optional-if_text 512 r.termination_reason h.termination_reason,
          validate_resources-raw_resources r.resources h.resources,
          optional_record-if_object (IsMachine parses) (validate_machine parses) raw_machine
              validate_machine-raw_machine r.machine h.machine,
          optional_record-if_object IsArtifact validate_artifact_reference raw_artifact
              validate_artifact_reference-raw_artifact r.artifact h.artifact,
          version_allows-Allows r.schema_version r.artifact h.artifact_version,
          optional-if_boolean r.template_pinned,
          version_allows-Allows r.schema_version r.template_pinned h.pin_version,
        )
        refl
