-- ===== src/State/Grammar.antt =====
-- The scalar grammars of src/state/model.ts: ids, hashes, phases, architectures, versions.
use studiobox.Common.{
  ℕ, Bool, true, false, ◌&&◌, ◌||◌, List, [], ◌∷◌, leb, nat_beq, length, if◌then◌else◌, ◌==◌,
}
use studiobox.Common.Codes.{codes_eq}
use studiobox.Common.Results.{err, ok}
use studiobox.Common.JsNumber.{nat}
use studiobox.State.Model.{
  Text, codes, SandboxPhase, allocating, staging, booting, ready, terminating, terminated,
  reconciling, quarantined, MachineJournalPhase, reserved, launching, running, reclaiming, Arch,
  aarch64, x86_64, SchemaVersion, version_1, version_2,
}
use studiobox.State.Values.{type_error, Value, number, text, Checked}

-- [A-Za-z0-9]
unfoldable pub is_alphanumeric : ℕ → Bool
is_alphanumeric c =
    (leb b'A' c && leb c b'Z') || (leb b'a' c && leb c b'z') || (leb b'0' c && leb c b'9')

unfoldable pub all_of : (ℕ → Bool) → Text → Bool
all_of test [] = true
all_of test (c ∷ cs) = if test c then all_of test cs else false

-- /^[A-Za-z0-9][A-Za-z0-9_-]{0,127}$/
unfoldable pub is_sandbox_id : Text → Bool
unfolding is_alphanumeric
is_sandbox_id [] = false
is_sandbox_id (c ∷ cs) =
    is_alphanumeric c
    && all_of (λ d. is_alphanumeric d || nat_beq d b'_' || nat_beq d b'-') cs
    && leb (length cs) 127

-- /^[A-Za-z0-9][A-Za-z0-9-]{0,63}$/
unfoldable pub is_execution_id : Text → Bool
unfolding is_alphanumeric
is_execution_id [] = false
is_execution_id (c ∷ cs) =
    is_alphanumeric c && all_of (λ d. is_alphanumeric d || nat_beq d b'-') cs && leb (length cs) 63

-- /^[0-9a-f]{64}$/
unfoldable pub is_sha256_hex : Text → Bool
is_sha256_hex cs =
    all_of (λ c. (leb b'0' c && leb c b'9') || (leb b'a' c && leb c b'f')) cs
    && nat_beq (length cs) 64

unfoldable pub assert_matches : (Text → Bool) → Value → Checked Text
assert_matches test (text cs) = if test cs then ok cs else err type_error
assert_matches test _ = err type_error

-- The text of each phase, and `SANDBOX_PHASES.includes`.
unfoldable pub phase_text : SandboxPhase → Text
phase_text allocating = codes "allocating"
phase_text staging = codes "staging"
phase_text booting = codes "booting"
phase_text ready = codes "ready"
phase_text terminating = codes "terminating"
phase_text terminated = codes "terminated"
phase_text reconciling = codes "reconciling"
phase_text quarantined = codes "quarantined"

unfoldable pub find_phase : Text → List SandboxPhase → Checked SandboxPhase
unfolding phase_text
find_phase cs [] = err type_error
find_phase cs (p ∷ ps) = if cs == phase_text p then ok p else find_phase cs ps

abbrev pub sandbox_phases : List SandboxPhase
sandbox_phases =
    allocating ∷ staging ∷ booting ∷ ready ∷ terminating ∷ terminated ∷ reconciling ∷ quarantined
    ∷ []

unfoldable pub assert_phase : Value → Checked SandboxPhase
unfolding find_phase
assert_phase (text cs) = find_phase cs sandbox_phases
assert_phase _ = err type_error

unfoldable pub machine_phase_text : MachineJournalPhase → Text
machine_phase_text reserved = codes "reserved"
machine_phase_text launching = codes "launching"
machine_phase_text running = codes "running"
machine_phase_text reclaiming = codes "reclaiming"

unfoldable pub find_machine_phase : Text → List MachineJournalPhase → Checked MachineJournalPhase
unfolding machine_phase_text
find_machine_phase cs [] = err type_error
find_machine_phase cs (p ∷ ps) =
    if cs == machine_phase_text p then ok p else find_machine_phase cs ps

abbrev pub machine_phases : List MachineJournalPhase
machine_phases = reserved ∷ launching ∷ running ∷ reclaiming ∷ []

unfoldable pub assert_machine_phase : Value → Checked MachineJournalPhase
unfolding find_machine_phase
assert_machine_phase (text cs) = find_machine_phase cs machine_phases
assert_machine_phase _ = err type_error

unfoldable pub arch_text : Arch → Text
arch_text aarch64 = codes "aarch64"
arch_text x86_64 = codes "x86_64"

unfoldable pub assert_arch : Value → Checked Arch
unfolding arch_text
assert_arch (text cs) =
    if cs == arch_text aarch64
    then ok aarch64
    else if cs == arch_text x86_64
    then ok x86_64
    else err type_error
assert_arch _ = err type_error

unfoldable pub assert_version : Value → Checked SchemaVersion
assert_version (number (nat n)) =
    if nat_beq n 2 then ok version_2 else if nat_beq n 1 then ok version_1 else err type_error
assert_version _ = err type_error
