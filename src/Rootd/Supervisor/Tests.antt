-- ===== src/Rootd/Supervisor/Tests.antt =====
-- The supervisor of src/rootd/supervisor_core.ts on concrete inputs.
use studiobox.Common.{
  ℕ, ◌≤◌, ◌<◌, ◌≡◌, ◌≢◌, refl, sym, ap, ◌∙◌, some, true, false, List, [], ◌∷◌, ◌++◌, map, arith,
}
use studiobox.Common.Codes.{codes_eq, codes_beq}
use studiobox.Common.Map.{get, set, reject, Distinct}
use studiobox.Common.Results.{err, ok}
use studiobox.State.Model.{Text, codes, SandboxPhase, allocating, staging, SandboxRecord}
use studiobox.State.Values.{utf8_length}
use studiobox.State.Validation.Valid.{IsText}
use studiobox.State.Samples.{every_text, box, noon, fresh, only_fresh, only_fresh-read}
use studiobox.State.Grammar.{phase_text}
use studiobox.State.Store.{state_conflict, StateFile, get_record}
use studiobox.State.Store.Read.{ok_injective}
use studiobox.State.Store.Revisions.{run}
use studiobox.Rootd.Supervisor.Reasons.{max_reason_length, truncate_reason, truncate_reason-IsText}
use studiobox.Rootd.Supervisor.Journal.{
  Fault, sup_unavailable, to_staging, written, owner, is_foreign, is_reconciled, mark_terminated,
  includes,
}
use studiobox.Rootd.Supervisor.Journal.Moves.{Move, written-Move}
use studiobox.Rootd.Supervisor.Update.{update, Settled, update-Settled, update_settles}
use studiobox.Rootd.Supervisor.History.{Turn, command, Moves, rank, HasPhase, phases_move_forward}
use studiobox.Rootd.Supervisor.Bridges.{
  BridgeGrantEntry, SupervisorCore, Operation, take_bridge_grant, begin_operation, begin_reconcile,
}
use studiobox.Rootd.Supervisor.Bridges.Once.{
  taking, ending, purging, sweeping, happen, happen_all, IsRefused, grant_taken_once,
  ended_grant-IsRefused,
}
use studiobox.State.Model.{terminated, quarantined, reclaiming, JailRecordState}
use studiobox.Rootd.Supervisor.Journal.{released_machine}
use studiobox.State.Validation.{validate_jail_record, assert_identity, validate_pid}
use studiobox.State.Validation.Valid.{raw_jail}
use studiobox.State.Values.{assert_boolean, check_each}
use studiobox.State.Store.{list, read, write, compare_and_swap}
use studiobox.Rootd.Supervisor.Bridges.{forget_all}
use studiobox.Rootd.Supervisor.Journal.{is_terminal}
use studiobox.Rootd.Supervisor.Registry.{
  PackageCall, removing, package_sweep, find_bound, after_find, if_jailed, jail_of,
}
use studiobox.Rootd.Supervisor.Bridges.{is_owned_by}
use studiobox.Rootd.Supervisor.Journal.{owner_of, release_machine}
use studiobox.Rootd.Supervisor.Sweep.{
  ReconcileSummary, reconcile_sweep, filter_open, settle_each, mark_each,
}
use studiobox.Rootd.Supervisor.Sweep.Settles.{IsKept, sweep_settles}
use studiobox.Rootd.Supervisor.Sweep.Writes.{IsHeld, HasEnded}
use studiobox.Common.{none, some}
use studiobox.Common.JsNumber.{safe_nat}
use studiobox.State.Values.{
  assert_record, assert_keys, assert_non_negative_integer, assert_text, optional, optional_record,
  assert_array, assert_timestamp,
}
use studiobox.State.Grammar.{assert_matches, is_sandbox_id, assert_phase, assert_version, all_of}
use studiobox.State.Validation.{validate_sandbox_record, validate_resources, version_allows}
use studiobox.State.Validation.Valid.{raw_record, raw_resources}
use studiobox.State.Model.{MachineJournalState, ready, running}
use studiobox.State.Validation.{validate_machine}
use studiobox.State.Validation.Valid.{raw_machine}
use studiobox.State.Grammar.{
  assert_machine_phase, machine_phase_text, is_execution_id, is_alphanumeric,
}
use studiobox.Rootd.Supervisor.Bridges.{MachineState}
use studiobox.Rootd.Supervisor.Exclusion.{Step, Reach, sweep_runs_alone}

truncate_reason-IsText_example :
    IsText max_reason_length (truncate_reason (codes "boom"))
    × (utf8_length (codes "boom") ≤ max_reason_length
        → truncate_reason (codes "boom") ≡ codes "boom")
    × (max_reason_length < utf8_length (codes "boom")
        → (rest : Text) × (start : Text) × (codes "boom" ≡ start ++ rest)
          × (truncate_reason (codes "boom") ≡ start ++ codes "..."))
truncate_reason-IsText_example = truncate_reason-IsText (codes "boom") (omega arith)

abbrev boot_1 : Text
boot_1 = codes "boot-1"

staged : written boot_1 to_staging fresh ≡ ok (record fresh { phase = staging })
unfolding written includes phase_text codes_beq
staged = refl

written-Move_example : Move allocating staging × (is_foreign boot_1 (owner fresh) ≡ false)
written-Move_example =
    written-Move boot_1 to_staging fresh (record fresh { phase = staging }) staged

abbrev nobody : ℕ → StateFile → StateFile
nobody n file = file

update-Settled_example :
    Settled every_text box
      (written boot_1 to_staging)
      noon
      nobody
      only_fresh
      (update every_text box (written boot_1 to_staging) noon nobody 16 only_fresh)
update-Settled_example =
    update-Settled every_text box (written boot_1 to_staging) noon nobody 16 only_fresh

only_fresh-box : get_record every_text {E = Fault} box only_fresh ≡ ok (some fresh)
unfolding get_record get codes_beq
only_fresh-box = rw (only_fresh-read Fault) refl

mark_terminated-id : (r c : SandboxRecord) → r.id ≡ box → mark_terminated r ≡ ok c → c.id ≡ box
unfolding mark_terminated
mark_terminated-id r c own h = sym (ap (λ (x : SandboxRecord). x.id) (ok_injective h)) ∙ own

update_settles_example :
    (update every_text box mark_terminated noon nobody 16 only_fresh).0 ≢ err state_conflict
update_settles_example =
    update_settles every_text box mark_terminated noon nobody 16 15 only_fresh mark_terminated-id
      (λ n f found. found) (λ f. refl) (omega arith) (fresh, only_fresh-box)

abbrev one_turn : List Turn
one_turn =
    record { sandbox = box; execution = boot_1; revision = 0; write = to_staging; now = noon } ∷ []

phases_move_forward_example :
    (q : SandboxPhase) × HasPhase every_text box q
      (run every_text Fault (map command one_turn) only_fresh)
    × Moves allocating q
    × (rank allocating ≤ rank q)
    × (is_reconciled allocating ≡ true → q ≡ allocating)
phases_move_forward_example =
    phases_move_forward every_text box one_turn allocating only_fresh (fresh, only_fresh-box, refl)

abbrev bridge_1 : Text
bridge_1 = codes "b-1"

abbrev entry_1 : BridgeGrantEntry
entry_1 = record {
  grant = record {
    bridge_id = bridge_1;
    socket_path = codes "/run/studiobox/b/b-1";
    bridge_credential = 1 ∷ [];
    agent_credential = 2 ∷ [];
    expires_at = 100;
  };
  sandbox_id = box;
  execution_id = boot_1;
  consumed = false;
}

abbrev one_bridge : SupervisorCore
one_bridge = record {
  machines = [];
  agent_ports = [];
  agent_credentials = [];
  exits = [];
  bridges = (bridge_1, entry_1) ∷ [];
  inflight = [];
  is_reconciling = false;
}

abbrev after_take : SupervisorCore
after_take = record one_bridge { bridges = (bridge_1, record entry_1 { consumed = true }) ∷ [] }

one_bridge-Distinct : Distinct one_bridge.bridges
unfolding get
one_bridge-Distinct = (refl, tt)

taken_first : take_bridge_grant 50 bridge_1 one_bridge ≡ ok (entry_1.grant, after_take)
unfolding take_bridge_grant reject get set codes_beq
taken_first = refl

one_bridge-entry : get one_bridge.bridges bridge_1 ≡ some entry_1
unfolding get codes_beq
one_bridge-entry = refl

grant_taken_once_example :
    ((entry : BridgeGrantEntry) × (get one_bridge.bridges bridge_1 ≡ some entry)
      × (entry.consumed ≡ false)
      × (entry.grant ≡ entry_1.grant)
      × (50 < entry_1.grant.expires_at))
    × IsRefused bridge_1 60 (happen_all (taking 55 bridge_1 ∷ purging 56 ∷ []) after_take)
grant_taken_once_example =
    grant_taken_once bridge_1 50 60 one_bridge after_take entry_1.grant
      (taking 55 bridge_1 ∷ purging 56 ∷ []) one_bridge-Distinct taken_first (tt, (tt, tt))

ended_grant-IsRefused_example :
    IsRefused bridge_1 60 (happen_all (purging 56 ∷ []) (happen (ending boot_1) one_bridge))
    × IsRefused bridge_1 60
        (happen_all (purging 56 ∷ []) (happen (sweeping (fresh ∷ [])) one_bridge))
ended_grant-IsRefused_example =
    ended_grant-IsRefused bridge_1 60 one_bridge entry_1 (purging 56 ∷ []) fresh []
      one_bridge-Distinct one_bridge-entry (tt, tt)

abbrev in_sweep : SupervisorCore
in_sweep = record one_bridge { is_reconciling = true }

sweep_begins : begin_reconcile one_bridge ≡ ok in_sweep
unfolding begin_reconcile
sweep_begins = refl

sweep_runs_alone_example :
    (in_sweep.inflight ≡ [])
    × ((operation : Operation) (id : Text)
        → begin_operation operation id in_sweep ≡ err sup_unavailable)
    × (begin_reconcile in_sweep ≡ err sup_unavailable)
sweep_runs_alone_example =
    sweep_runs_alone one_bridge in_sweep refl
      (Reach.after Reach.at_start (Step.sweeps sweep_begins)) refl

abbrev swept_record : SandboxRecord
swept_record = record fresh {
  phase = terminated;
  revision = 2;
  termination_reason = some (codes "host-restart");
}

abbrev one_swept : ReconcileSummary
one_swept = record { examined = 1; killed = 0; reclaimed = 1; quarantined = 0; failures = [] }

abbrev jail : JailRecordState
jail = record {
  vm_id = boot_1;
  pid = none;
  api_socket_path = codes "/a";
  state_dir = codes "/s";
  owns_state_dir = true;
  vsock_uds_path = none;
  vsock_listener_paths = [];
  pidfile_path = none;
  chroot_dir = none;
  created_at = noon;
  metadata = none;
}

abbrev old_box : Text
old_box = codes "box-2"

abbrev jailed : MachineJournalState
jailed = record {
  execution_id = boot_1;
  phase = running;
  jail_record = some jail;
  cgroup_path = none;
  updated_at = noon;
}

-- Quarantined after a failed kill, with the journal of its machine.
abbrev set_aside : SandboxRecord
set_aside = record fresh { id = old_box; phase = quarantined; machine = some jailed }

abbrev freed : SandboxRecord
freed = record set_aside {
  machine = some (record jailed { phase = reclaiming; jail_record = none });
  revision = 1;
}

abbrev two_boxes : StateFile
two_boxes = write ((box, fresh) ∷ (old_box, set_aside) ∷ [])

abbrev two_ended : StateFile
two_ended = write ((box, swept_record) ∷ (old_box, freed) ∷ [])

abbrev package_calls : List PackageCall
package_calls = removing boot_1 noon ∷ []

swept_once :
    reconcile_sweep every_text noon [] (λ id. none) (λ rs. rs) package_calls 0 two_boxes one_bridge
    ≡ ok (one_swept, two_ended, forget_all one_bridge)
unfolding reconcile_sweep filter_open settle_each mark_each update compare_and_swap read write
    get_record list validate_sandbox_record raw_record raw_resources assert_record assert_keys
    assert_version assert_matches is_sandbox_id assert_non_negative_integer safe_nat assert_phase
    phase_text assert_timestamp assert_text optional validate_resources assert_array optional_record
    version_allows codes_eq codes_beq set get all_of is_terminal owner mark_terminated utf8_length
    package_sweep find_bound is_owned_by after_find if_jailed jail_of release_machine
    released_machine owner_of validate_machine raw_machine assert_machine_phase machine_phase_text
    is_execution_id is_alphanumeric validate_jail_record raw_jail assert_identity assert_boolean
    validate_pid check_each
swept_once = refl

sweep_settles_example :
    ((id : Text) (r : SandboxRecord)
      → IsHeld every_text noon id r two_boxes
      → HasEnded every_text noon id (two_ended)
        × (is_terminal r.phase ≡ true
            → IsKept every_text noon [] (λ id. none) package_calls id r (two_ended)))
    × (◌≡◌ {A = ℕ} 1 1)
sweep_settles_example =
    sweep_settles every_text noon [] (λ id. none) (λ rs. rs) package_calls 0 two_boxes (two_ended)
      one_bridge (forget_all one_bridge) one_swept (λ xs r m. m) (λ xs r m. m) swept_once

abbrev bound_to_boot_1 : MachineJournalState
bound_to_boot_1 = record {
  execution_id = boot_1;
  phase = running;
  jail_record = none;
  cgroup_path = none;
  updated_at = noon;
}

abbrev bound : SandboxRecord
bound = record fresh { phase = ready; machine = some bound_to_boot_1 }

abbrev only_bound : StateFile
only_bound = write ((box, bound) ∷ [])

abbrev one_machine : SupervisorCore
one_machine = record one_bridge {
  machines = (boot_1, record { pid = none; state = MachineState.running }) ∷ [];
}

abbrev ended_file : StateFile
ended_file = write (
    (
      box,
      record bound {
        phase = terminated;
        revision = 2;
        termination_reason = some (codes "shutdown");
      },
    )
    ∷ [])
