-- ===== src/Rootd/Supervisor/Bridges.antt =====
-- The bridge grants and the live machines of src/rootd/supervisor_core.ts, kept in the process.
pub mod Once
use studiobox.Common.{
  ℕ, zero, suc, ◌+◌, Option, none, some, Bool, true, false, not, ◌&&◌, ◌||◌, List, [], ◌∷◌, ◌++◌,
  leb, ltb, length, if◌then◌else◌, ◌==◌,
}
use studiobox.Common.Codes.{codes_eq}
use studiobox.Common.Map.{Map, get, has, set, delete, reject}
use studiobox.Common.Results.{Result, err, ok, ◌>>=◌, ◌>>◌, throw_if, or_throw}
use studiobox.State.Model.{
  Text, codes, SandboxPhase, allocating, staging, booting, ready, terminating, terminated,
  reconciling, quarantined, JailRecordState, MachineJournalState, SandboxRecord,
}
use studiobox.State.Grammar.{phase_text}
use studiobox.Wire.Supervisor.{
  Accepted, RawBridgeRequest, BridgeRequest, BridgeGrant, bridge_socket_root,
  validate_bridge_request, validate_bridge_socket_path, validate_bridge_grant,
}
use studiobox.Rootd.Supervisor.Journal.{
  Fault, sup_validation, wire_validation, sup_not_found, sup_state, sup_unavailable, owner_of,
  owner,
}

pub record BridgeGrantEntry : Type 0 where
  pub grant : BridgeGrant
  pub sandbox_id : Text
  pub execution_id : Text
  pub consumed : Bool

pub data MachineState : Type 0 where
  configured starting running paused shutting_down exited cleaned : MachineState

pub record ObservedExit : Type 0 where
  pub exit_code : Option ℕ
  pub at : ℕ

pub record LiveMachine : Type 0 where
  pub pid : Option ℕ
  pub state : MachineState

pub data Operation : Type 0 where
  launch shutdown kill : Operation

-- The maps of the class, the set of what is in flight, and the flag of the sweep.
pub record SupervisorCore : Type 0 where
  pub machines : Map Text LiveMachine
  pub agent_ports : Map Text ℕ
  pub agent_credentials : Map Text (List ℕ)
  pub exits : Map Text ObservedExit
  pub bridges : Map Text BridgeGrantEntry
  pub inflight : List (Operation × Text)
  pub is_reconciling : Bool

abbrev pub Answer {ℓ} : Type ℓ → Type ℓ
Answer A = Result Fault A

unfoldable pub reject_during_reconcile : SupervisorCore → Answer (Unit {0})
reject_during_reconcile core = throw_if core.is_reconciling sup_unavailable

unfoldable pub require_ready_and_live : SandboxRecord → Text → SupervisorCore → Answer (Unit {0})
require_ready_and_live r execution_id core = do
  throw_if (not (phase_text r.phase == phase_text ready)) sup_state
  throw_if (not (has core.machines execution_id) || has core.exits execution_id) sup_state

unfoldable pub is_expired : ℕ → BridgeGrantEntry → Bool
is_expired now entry = leb entry.grant.expires_at now

unfoldable pub purge_expired_bridges : ℕ → SupervisorCore → SupervisorCore
unfolding is_expired
purge_expired_bridges now core = record core { bridges = reject (is_expired now) core.bridges }

unfoldable pub revoke_bridges : Text → SupervisorCore → SupervisorCore
revoke_bridges execution_id core = record core {
  bridges = reject (λ entry. entry.execution_id == execution_id) core.bridges;
}

unfoldable pub or_validation {ℓ} : {A : Type ℓ} → Accepted A → Answer A
or_validation (err e) = err sup_validation
or_validation (ok a) = ok a

-- A WireValidationError of the grant is thrown as it is.
unfoldable pub or_wire {ℓ} : {A : Type ℓ} → Accepted A → Answer A
or_wire (err e) = err wire_validation
or_wire (ok a) = ok a

-- `#byExecution` on the records of the journal.
unfoldable pub is_owned_by : Text → Option Text → Bool
is_owned_by execution_id none = false
is_owned_by execution_id (some id) = id == execution_id

unfoldable pub find_execution : Text → List SandboxRecord → Answer SandboxRecord
unfolding is_owned_by owner
find_execution execution_id [] = err sup_not_found
find_execution execution_id (r ∷ rs) =
    if is_owned_by execution_id (owner r) then ok r else find_execution execution_id rs

unfoldable pub credential_or : List ℕ → Option (List ℕ) → List ℕ
credential_or drawn none = drawn
credential_or drawn (some baked) = baked

abbrev pub bridge_id_of : Text → Text
bridge_id_of uuid = codes "b-" ++ uuid

unfoldable pub make_grant : Text → List ℕ → List ℕ → Text → ℕ → SupervisorCore → BridgeGrant
unfolding credential_or
make_grant uuid credential drawn execution_id expires_at core = record {
  bridge_id = bridge_id_of uuid;
  socket_path = bridge_socket_root ++ bridge_id_of uuid;
  bridge_credential = credential;
  agent_credential = credential_or drawn (get core.agent_credentials execution_id);
  expires_at = expires_at;
}

unfoldable pub add_bridge : ℕ → BridgeGrant → BridgeRequest → SupervisorCore → SupervisorCore
unfolding purge_expired_bridges
add_bridge now grant request core =
    let purged = purge_expired_bridges now core in
    record purged {
      bridges = set purged.bridges grant.bridge_id (record {
        grant = grant;
        sandbox_id = request.sandbox_id;
        execution_id = request.execution_id;
        consumed = false;
      });
    }

-- `entered` is the supervisor when the call comes, `core` when the journal has answered with
-- `records`; `uuid`, `credential` and `drawn` are random, and `later` is the time of the purge.
unfoldable pub open_bridge :
    ℕ
    → ℕ
    → Text
    → List ℕ
    → List ℕ
    → RawBridgeRequest
    → List SandboxRecord
    → SupervisorCore
    → SupervisorCore
    → Answer (BridgeGrant × SupervisorCore)
unfolding reject_during_reconcile or_validation find_execution require_ready_and_live make_grant
    or_wire add_bridge
open_bridge now later uuid credential drawn raw records entered core = do
  reject_during_reconcile entered
  request ← or_validation (validate_bridge_request now raw)
  r ← find_execution request.execution_id records
  throw_if (not (r.id == request.sandbox_id)) sup_state
  require_ready_and_live r request.execution_id core
  or_wire (validate_bridge_socket_path (bridge_socket_root ++ bridge_id_of uuid))
  grant ← or_wire (
      validate_bridge_grant now
        (make_grant uuid credential drawn request.execution_id request.expires_at core))
  ok (grant, add_bridge later grant request core)

unfoldable pub consume :
    Text → BridgeGrantEntry → SupervisorCore → Answer (BridgeGrant × SupervisorCore)
consume bridge_id entry core =
    if entry.consumed
    then err sup_state
    else ok (
      entry.grant,
      record core { bridges = set core.bridges bridge_id (record entry { consumed = true }) },
    )

unfoldable pub take_bridge_grant : ℕ → Text → SupervisorCore → Answer (BridgeGrant × SupervisorCore)
unfolding purge_expired_bridges consume
take_bridge_grant now bridge_id core =
    let purged = purge_expired_bridges now core in
    or_throw (get purged.bridges bridge_id) sup_not_found >>= λ entry.
    consume bridge_id entry purged

-- The end of `#reconcileSweep`.
unfoldable pub forget_all : SupervisorCore → SupervisorCore
forget_all core = record core {
  machines = [];
  agent_ports = [];
  agent_credentials = [];
  exits = [];
  bridges = [];
}

-- The end of `#terminateInflight`.
unfoldable pub forget_execution : Text → SupervisorCore → SupervisorCore
unfolding revoke_bridges
forget_execution execution_id core = revoke_bridges execution_id (record core {
  machines = delete core.machines execution_id;
  agent_ports = delete core.agent_ports execution_id;
  agent_credentials = delete core.agent_credentials execution_id;
  exits = delete core.exits execution_id;
})

-- `reconcile` up to its sweep.
unfoldable pub begin_reconcile : SupervisorCore → Answer SupervisorCore
begin_reconcile core = do
  throw_if core.is_reconciling sup_unavailable
  throw_if (ltb 0 (length core.inflight)) sup_unavailable
  ok (record core { is_reconciling = true })

unfoldable pub begin_operation : Operation → Text → SupervisorCore → Answer SupervisorCore
unfolding reject_during_reconcile
begin_operation operation execution_id core = do
  reject_during_reconcile core
  ok (record core { inflight = (operation, execution_id) ∷ core.inflight })

-- SupervisorMachineStatus["state"]
pub data ReportedState : Type 0 where
  is_launching is_running is_stopping is_exited is_cleanup_pending : ReportedState

unfoldable pub live_state : MachineState → ReportedState
live_state configured = is_launching
live_state starting = is_launching
live_state running = is_running
live_state paused = is_running
live_state shutting_down = is_stopping
live_state exited = is_exited
live_state cleaned = is_exited

unfoldable pub journaled_state : SandboxPhase → ReportedState
journaled_state allocating = is_launching
journaled_state staging = is_launching
journaled_state booting = is_launching
journaled_state terminating = is_stopping
journaled_state terminated = is_exited
journaled_state quarantined = is_exited
journaled_state ready = is_cleanup_pending
journaled_state reconciling = is_cleanup_pending
