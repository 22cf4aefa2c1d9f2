-- ===== src/State/Samples.antt =====
-- One new record, and a file that holds it, for tests.
use studiobox.Common.{◌≡◌, refl, none, some, Bool, true, [], ◌∷◌, if◌then◌else◌, ◌==◌}
use studiobox.Common.Codes.{codes_eq, codes_beq}
use studiobox.Common.Map.{set}
use studiobox.Common.Results.{ok}
use studiobox.Common.JsNumber.{safe_nat}
use studiobox.State.Model.{Text, codes, allocating, version_2, SandboxRecord}
use studiobox.State.Values.{
  assert_record, assert_keys, assert_non_negative_integer, optional, optional_record, assert_array,
  assert_timestamp,
}
use studiobox.State.Grammar.{
  assert_matches, is_sandbox_id, assert_phase, assert_version, all_of, phase_text,
}
use studiobox.State.Validation.{validate_sandbox_record, validate_resources, version_allows}
use studiobox.State.Validation.Valid.{raw_record, raw_resources}
use studiobox.State.Store.{StateFile, read, write}
use studiobox.State.Store.Spec.{Registry}

abbrev pub every_text : Text → Bool
every_text cs = true

abbrev pub box : Text
box = codes "box-1"

abbrev pub noon : Text
noon = codes "2026-01-01T12:00:00Z"

abbrev pub fresh : SandboxRecord
fresh = record {
  schema_version = version_2;
  id = box;
  revision = 0;
  generation = 0;
  phase = allocating;
  created_at = noon;
  updated_at = noon;
  machine = none;
  artifact = none;
  template_pinned = none;
  resources = record {
    uid = none;
    gid = none;
    overlay_path = none;
    tap_name = none;
    netns_path = none;
    host_ip = none;
    guest_ip = none;
    subnet = none;
    dnsmasq_pidfile = none;
    exposed_ports = [];
  };
  termination_reason = none;
}

abbrev pub only_fresh : StateFile
only_fresh = write ((box, fresh) ∷ [])

abbrev pub at_box : Registry
at_box id = if box == id then some fresh else none

pub only_fresh-read : (E : Type 0) → read every_text {E = E} only_fresh ≡ ok ((box, fresh) ∷ [])
unfolding read write validate_sandbox_record raw_record raw_resources assert_record assert_keys
    assert_version assert_matches is_sandbox_id assert_non_negative_integer safe_nat assert_phase
    phase_text assert_timestamp optional validate_resources assert_array optional_record
    version_allows codes_eq codes_beq set all_of
only_fresh-read E = refl
