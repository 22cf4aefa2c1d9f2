-- ===== src/State/Validation/Journal.antt =====
-- `validateSandboxRecord` of src/state/model.ts accepts nothing but valid records, and returns them
-- as they are: the jail record and the journal of a machine.
use studiobox.Common.{
  ℕ, ◌≡◌, refl, ap, subst, ◌∙◌, Option, none, some, Bool, true, false, map, length, arith, ltb,
}
use studiobox.Common.Codes.{codes_eq, codes_beq_iff}
use studiobox.Common.Results.{ok, ◌>>=◌, >>=-returned, throw_if}
use studiobox.Common.JsNumber.{nat, frac, negative, infinite, nan}
use studiobox.State.Model.{Text, SchemaVersion, version_1, version_2}
use studiobox.State.Values.{
  type_error, Value, undefined, null, compound, boolean, number, text, array, assert_keys,
  assert_array, assert_unsigned_integer, assert_text, optional, optional_record, check_each,
  assert_boolean, assert_timestamp,
}
use studiobox.State.Grammar.{is_execution_id, assert_matches, assert_machine_phase}
use studiobox.State.Validation.{
  path_text, validate_jail_record, validate_machine, validate_pid, assert_identity, validate_entry,
  validate_metadata, version_allows,
}
use studiobox.State.Validation.Valid.{
  IsTimestamp, IsJail, IsMachine, raw_jail, raw_machine, IfPresent, IsPath, Within, IsEntry,
  IsMetadata, Allows, or_null, raw_entry,
}
use studiobox.State.Validation.Complete.{length-map_entry}
use studiobox.State.Validation.Exact.{
  Exactly, ok_injective, assert_array_exact, assert_keys_exact, assert_unsigned_integer_exact,
  assert_text_exact, assert_text-IsBounded, assert_boolean_exact, optional_record_exact,
  check_each_exact, assert_matches_exact, assert_machine_phase_exact,
}
use studiobox.State.Validation.Sound.{IsPath-exact, throw_if_exact}

some_pid :
    (v : Value) (o : Option ℕ)
    → assert_unsigned_integer 0x7fff_ffff 1 v >>= (λ pid. ok (some pid)) ≡ ok o
    → (v ≡ or_null o) × IfPresent (Within 1 0x7fff_ffff) o
some_pid v o h = >>=-returned (assert_unsigned_integer 0x7fff_ffff 1 v) _ h λ pid e last.
    subst (λ o. (v ≡ or_null o) × IfPresent (Within 1 0x7fff_ffff) o) (ok_injective last)
      (assert_unsigned_integer_exact 0x7fff_ffff 1 v pid e)

validate_pid_exact : Exactly validate_pid or_null (IfPresent (Within 1 0x7fff_ffff))
unfolding validate_pid
validate_pid_exact undefined o h = some_pid undefined o h
validate_pid_exact null o h =
    subst (λ o. (null ≡ or_null o) × IfPresent (Within 1 0x7fff_ffff) o) (ok_injective h) (refl, tt)
validate_pid_exact compound o h = some_pid compound o h
validate_pid_exact (boolean b) o h = some_pid (boolean b) o h
validate_pid_exact (number x) o h = some_pid (number x) o h
validate_pid_exact (text cs) o h = some_pid (text cs) o h

identity_exact :
    (id vm_id cs : Text) (n : ℕ)
    → assert_identity id (number (nat n)) (text cs) ≡ ok vm_id
    → (n ≡ 1) × (cs ≡ vm_id) × (vm_id ≡ id)
unfolding assert_identity
identity_exact id vm_id cs n h = ground (arith, codes_beq_iff cs id)

assert_identity_exact :
    (id : Text) (version v : Value) (vm_id : Text)
    → assert_identity id version v ≡ ok vm_id
    → (version ≡ number (nat 1)) × (v ≡ text vm_id) × (vm_id ≡ id)
unfolding assert_identity
assert_identity_exact id (number (nat n)) (text cs) vm_id h =
    let found = identity_exact id vm_id cs n h in
    (ap (λ m. number (nat m)) found.0, ap text found.1, found.2)
assert_identity_exact id undefined v vm_id h = cc
assert_identity_exact id null v vm_id h = cc
assert_identity_exact id compound v vm_id h = cc
assert_identity_exact id (boolean b) v vm_id h = cc
assert_identity_exact id (text cs) v vm_id h = cc
assert_identity_exact id (number (frac n)) v vm_id h = cc
assert_identity_exact id (number negative) v vm_id h = cc
assert_identity_exact id (number infinite) v vm_id h = cc
assert_identity_exact id (number nan) v vm_id h = cc
assert_identity_exact id (number (nat n)) undefined vm_id h = cc
assert_identity_exact id (number (nat n)) null vm_id h = cc
assert_identity_exact id (number (nat n)) compound vm_id h = cc
assert_identity_exact id (number (nat n)) (boolean b) vm_id h = cc
assert_identity_exact id (number (nat n)) (number x) vm_id h = cc

validate_entry_exact : Exactly validate_entry raw_entry IsEntry
unfolding validate_entry
validate_entry_exact (key, value) entry h =
    >>=-returned (assert_text 128 false (text key)) _ h λ k e1 h1.
      >>=-returned (assert_text 1_024 true value) _ h1 λ v e2 last.
        let key_exact = assert_text_exact 128 (text key) k e1 in
        let value_exact = assert_text-IsBounded 1_024 value v e2 in
        let same : key ≡ k = cc key_exact.0 in
        subst (λ entry. ((key, value) ≡ raw_entry entry) × IsEntry entry) (ok_injective last)
          (λ i. (same i, value_exact.0 i), (key_exact.1, value_exact.1))

validate_metadata_exact : Exactly validate_metadata (map raw_entry) IsMetadata
unfolding validate_metadata
validate_metadata_exact entries es h =
    >>=-returned (throw_if (ltb 64 (length entries)) type_error) _ h λ u e1 last.
      let each =
        check_each_exact validate_entry raw_entry IsEntry validate_entry_exact entries es last in
      let few = throw_if_exact _ type_error u e1 in
      (each.0, (ground (arith, few, ap length each.0, length-map_entry es), each.1))

pub version_allows_exact {ℓ} :
    {A : Type ℓ} (v : SchemaVersion) (o : Option A) (u : Unit {0})
    → version_allows v o ≡ ok u
    → Allows v o
unfolding version_allows
version_allows_exact version_1 none u h = tt
version_allows_exact version_1 (some a) u h = absurd (ground (arith, h))
version_allows_exact version_2 o u h = tt

module _ (parses : Text → Bool) where
  pub assert_timestamp_exact : Exactly (assert_timestamp parses) text (IsTimestamp parses)
  unfolding assert_timestamp
  assert_timestamp_exact undefined cs h = cc
  assert_timestamp_exact null cs h = cc
  assert_timestamp_exact compound cs h = cc
  assert_timestamp_exact (boolean b) cs h = cc
  assert_timestamp_exact (number x) cs h = cc
  assert_timestamp_exact (text ds) cs h = ground arith

  validate_jail_record_exact :
      (id : Text) → Exactly (validate_jail_record parses id) raw_jail (IsJail parses id)
  unfolding validate_jail_record raw_jail
  validate_jail_record_exact id raw j h = >>=-returned (assert_keys raw.unknown) _ h λ u e0 h0.
      >>=-returned (assert_identity id raw.version raw.vm_id) _ h0 λ vm_id e1 h1.
        >>=-returned (validate_pid raw.pid) _ h1 λ pid e2 h2.
          >>=-returned (path_text raw.api_socket_path) _ h2 λ api_socket_path e3 h3.
            >>=-returned (path_text raw.state_dir) _ h3 λ state_dir e4 h4.
              >>=-returned (assert_boolean raw.owns_state_dir) _ h4 λ owns_state_dir e5 h5.
                >>=-returned (optional path_text raw.vsock_uds_path) _ h5 λ vsock_uds_path e6 h6.
                  >>=-returned (optional path_text raw.pidfile_path) _ h6 λ pidfile_path e7 h7.
                    >>=-returned (optional path_text raw.chroot_dir) _ h7 λ chroot_dir e8 h8.
                      >>=-returned (assert_array raw.vsock_listener_paths) _ h8 λ paths e9 h9.
                        >>=-returned (check_each path_text paths) _ h9 λ listeners e10 h10.
                          >>=-returned (assert_timestamp parses raw.created_at) _ h10
                            λ created_at e11 h11.
                              >>=-returned (optional_record validate_metadata raw.metadata) _ h11
                                λ metadata e12 last.
                                  let x1 =
                                    assert_identity_exact id raw.version raw.vm_id vm_id e1 in
                                  let x2 = validate_pid_exact raw.pid pid e2 in
                                  let x3 =
                                    assert_text_exact 4_096 raw.api_socket_path api_socket_path
                                      e3 in
                                  let x4 = assert_text_exact 4_096 raw.state_dir state_dir e4 in
                                  let x5 =
                                    assert_boolean_exact raw.owns_state_dir owns_state_dir e5 in
                                  let x6 = IsPath-exact raw.vsock_uds_path vsock_uds_path e6 in
                                  let x7 = IsPath-exact raw.pidfile_path pidfile_path e7 in
                                  let x8 = IsPath-exact raw.chroot_dir chroot_dir e8 in
                                  let x10 =
                                    check_each_exact path_text text IsPath (assert_text_exact 4_096)
                                      paths listeners e10 in
                                  let x11 = assert_timestamp_exact raw.created_at created_at e11 in
                                  let x12 =
                                    optional_record_exact validate_metadata (map raw_entry)
                                      IsMetadata validate_metadata_exact raw.metadata metadata
                                      e12 in
                                  let written =
                                    assert_array_exact raw.vsock_listener_paths paths e9
                                    ∙ ap array x10.0 in
                                  subst (λ j. (raw ≡ raw_jail j) × IsJail parses id j)
                                    (ok_injective last)
                                    (
                                      λ i. record {
                                        unknown = assert_keys_exact raw.unknown u e0 i;
                                        version = x1.0 i;
                                        vm_id = x1.1 i;
                                        pid = x2.0 i;
                                        api_socket_path = x3.0 i;
                                        state_dir = x4.0 i;
                                        owns_state_dir = x5.0 i;
                                        vsock_uds_path = x6.0 i;
                                        vsock_listener_paths = written i;
                                        pidfile_path = x7.0 i;
                                        chroot_dir = x8.0 i;
                                        created_at = x11.0 i;
                                        metadata = x12.0 i;
                                      },
                                      record {
                                        vm_id = x1.2;
                                        pid = x2.1;
                                        api_socket_path = x3.1;
                                        state_dir = x4.1;
                                        vsock_uds_path = x6.1;
                                        vsock_listener_paths = x10.1;
                                        pidfile_path = x7.1;
                                        chroot_dir = x8.1;
                                        created_at = x11.1;
                                        metadata = x12.1;
                                      },
                                    )

  pub validate_machine_exact : Exactly (validate_machine parses) raw_machine (IsMachine parses)
  unfolding validate_machine raw_machine
  validate_machine_exact raw m h = >>=-returned (assert_keys raw.unknown) _ h λ u e0 h0.
      >>=-returned (assert_matches is_execution_id raw.execution_id) _ h0 λ id e1 h1.
        >>=-returned (assert_machine_phase raw.phase) _ h1 λ phase e2 h2.
          >>=-returned (assert_timestamp parses raw.updated_at) _ h2 λ updated_at e3 h3.
            >>=-returned (optional path_text raw.cgroup_path) _ h3 λ cgroup_path e4 h4.
              >>=-returned (optional_record (validate_jail_record parses id) raw.jail_record) _ h4
                λ jail e5 last.
                  let x1 = assert_matches_exact is_execution_id raw.execution_id id e1 in
                  let x3 = assert_timestamp_exact raw.updated_at updated_at e3 in
                  let x4 = IsPath-exact raw.cgroup_path cgroup_path e4 in
                  let x5 =
                    optional_record_exact (validate_jail_record parses id) raw_jail
                      (IsJail parses id) (validate_jail_record_exact id) raw.jail_record jail e5 in
                  subst (λ m. (raw ≡ raw_machine m) × IsMachine parses m) (ok_injective last)
                    (
                      λ i. record {
                        unknown = assert_keys_exact raw.unknown u e0 i;
                        execution_id = x1.0 i;
                        phase = assert_machine_phase_exact raw.phase phase e2 i;
                        jail_record = x5.0 i;
                        cgroup_path = x4.0 i;
                        updated_at = x3.0 i;
                      },
                      record {
                        execution_id = x1.1;
                        updated_at = x3.1;
                        cgroup_path = x4.1;
                        jail_record = x5.1;
                      },
                    )
