-- ===== src/State/Validation/Record.antt =====
-- `validateSandboxRecord` of src/state/model.ts as a whole.
use studiobox.Common.{◌≡◌, ap, subst, ◌∙◌, Bool, false}
use studiobox.Common.Codes.{codes_eq}
use studiobox.Common.Results.{ok, >>=-returned}
use studiobox.State.Model.{Text, SandboxRecord}
use studiobox.State.Values.{
  boolean, text, Slot, object, assert_record, assert_keys, assert_non_negative_integer, assert_text,
  optional, optional_record, assert_boolean, assert_timestamp,
}
use studiobox.State.Raw.{RawRecord}
use studiobox.State.Grammar.{is_sandbox_id, assert_matches, assert_phase, assert_version}
use studiobox.State.Validation.{
  validate_artifact_reference, validate_resources, validate_machine, validate_sandbox_record,
  version_allows,
}
use studiobox.State.Validation.Valid.{
  IsMachine, IsRecord, raw_machine, raw_record, IsText, IsArtifact, raw_artifact,
}
use studiobox.State.Validation.Exact.{
  Exactly, ok_injective, assert_record_exact, assert_keys_exact, assert_non_negative_integer_exact,
  assert_text_exact, assert_boolean_exact, optional_exact, optional_record_exact,
  assert_matches_exact, assert_phase_exact, assert_version_exact,
}
use studiobox.State.Validation.Sound.{validate_artifact_reference_exact, validate_resources_exact}
use studiobox.State.Validation.Complete.{validate-raw_record}
use studiobox.State.Validation.Journal.{
  validate_machine_exact, version_allows_exact, assert_timestamp_exact,
}
use studiobox.Common.{◌↔◌}

module _ (parses : Text → Bool) where
  validate-IsRecord_exact : Exactly (validate_sandbox_record parses) raw_record (IsRecord parses)
  unfolding validate_sandbox_record raw_record
  validate-IsRecord_exact v r h = >>=-returned (assert_record v) _ h λ raw e h0.
      >>=-returned (assert_keys raw.unknown) _ h0 λ u e0 h1.
        >>=-returned (assert_version raw.schema_version) _ h1 λ version e1 h2.
          >>=-returned (assert_matches is_sandbox_id raw.id) _ h2 λ id e2 h3.
            >>=-returned (assert_non_negative_integer raw.revision) _ h3 λ revision e3 h4.
              >>=-returned (assert_non_negative_integer raw.generation) _ h4 λ generation e4 h5.
                >>=-returned (assert_phase raw.phase) _ h5 λ phase e5 h6.
                  >>=-returned (assert_timestamp parses raw.created_at) _ h6 λ created_at e6 h7.
                    >>=-returned (assert_timestamp parses raw.updated_at) _ h7 λ updated_at e7 h8.
                      >>=-returned (optional (assert_text 512 false) raw.termination_reason) _ h8
                        λ reason e8 h9.
                          >>=-returned (assert_record raw.resources) _ h9 λ resources e9 h10.
                            >>=-returned (validate_resources resources) _ h10 λ checked e10 h11.
                              >>=-returned (optional_record (validate_machine parses) raw.machine) _
                                h11
                                λ machine e11 h12.
                                  >>=-returned
                                    (optional_record validate_artifact_reference raw.artifact) _ h12
                                    λ artifact e12 h13.
                                      >>=-returned (version_allows version artifact) _ h13
                                        λ u1 e13 h14.
                                          >>=-returned (optional assert_boolean raw.template_pinned)
                                            _ h14
                                            λ pinned e14 h15.
                                              >>=-returned (version_allows version pinned) _ h15
                                                λ u2 e15 last.
                                                  let x2 =
                                                    assert_matches_exact is_sandbox_id raw.id id
                                                      e2 in
                                                  let x3 =
                                                    assert_non_negative_integer_exact raw.revision
                                                      revision e3 in
                                                  let x4 =
                                                    assert_non_negative_integer_exact raw.generation
                                                      generation e4 in
                                                  let x6 =
                                                    assert_timestamp_exact parses raw.created_at
                                                      created_at e6 in
                                                  let x7 =
                                                    assert_timestamp_exact parses raw.updated_at
                                                      updated_at e7 in
                                                  let x8 =
                                                    optional_exact (assert_text 512 false) text
                                                      (IsText 512) (assert_text_exact 512)
                                                      raw.termination_reason reason e8 in
                                                  let x10 =
                                                    validate_resources_exact resources checked
                                                      e10 in
                                                  let x11 =
                                                    optional_record_exact (validate_machine parses)
                                                      raw_machine (IsMachine parses)
                                                      (validate_machine_exact parses) raw.machine
                                                      machine e11 in
                                                  let x12 =
                                                    optional_record_exact
                                                      validate_artifact_reference raw_artifact
                                                      IsArtifact validate_artifact_reference_exact
                                                      raw.artifact artifact e12 in
                                                  let x14 =
                                                    optional_exact assert_boolean boolean _
                                                      assert_boolean_exact raw.template_pinned
                                                      pinned e14 in
                                                  let written =
                                                    assert_record_exact raw.resources resources e9
                                                    ∙ ap object x10.0 in
                                                  subst
                                                    (λ r. (v ≡ raw_record r) × IsRecord parses r)
                                                    (ok_injective last)
                                                    (
                                                      assert_record_exact v raw e ∙ λ i.
                                                          object (record {
                                                            unknown =
                                                            assert_keys_exact raw.unknown u e0 i;
                                                            schema_version =
                                                            assert_version_exact raw.schema_version
                                                            version e1 i;
                                                            id = x2.0 i;
                                                            revision = x3.0 i;
                                                            generation = x4.0 i;
                                                            phase =
                                                            assert_phase_exact raw.phase phase e5 i;
                                                            created_at = x6.0 i;
                                                            updated_at = x7.0 i;
                                                            machine = x11.0 i;
                                                            artifact = x12.0 i;
                                                            template_pinned = x14.0 i;
                                                            resources = written i;
                                                            termination_reason = x8.0 i;
                                                          }),
                                                      record {
                                                        id = x2.1;
                                                        revision = x3.1;
                                                        generation = x4.1;
                                                        created_at = x6.1;
                                                        updated_at = x7.1;
                                                        termination_reason = x8.1;
                                                        resources = x10.1;
                                                        machine = x11.1;
                                                        artifact = x12.1;
                                                        artifact_version =
                                                            version_allows_exact version artifact u1
                                                            e13;
                                                        pin_version =
                                                            version_allows_exact version pinned u2
                                                            e15;
                                                      },
                                                    )

  -- For every value v and record r: validation of v returns r exactly when v is the object that r is
  -- written as, with no other field, and r is valid: every number, text, timestamp and port is in
  -- its range, no host port stands twice, the jail belongs to its execution, and the fields of
  -- version 2 are absent in version 1.
  pub validate_sandbox_record_exact :
      (v : Slot RawRecord) (r : SandboxRecord)
      → (validate_sandbox_record parses v ≡ ok r) ↔ ((v ≡ raw_record r) × IsRecord parses r)
  validate_sandbox_record_exact v r = (
    validate-IsRecord_exact v r,
    λ h. ap (validate_sandbox_record parses) h.0 ∙ validate-raw_record parses r h.1,
  )
