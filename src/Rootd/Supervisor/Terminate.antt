-- ===== src/Rootd/Supervisor/Terminate.antt =====
-- `shutdown` and `kill` of src/rootd/supervisor_core.ts: `#terminate` from its guard to its end.
pub mod Ends
use studiobox.Common.{ℕ, Option, none, some, Bool, true, false, List, [], ◌∷◌}
use studiobox.Common.Codes.{codes_eq}
use studiobox.Common.Map.{get}
use studiobox.Common.Results.{Result, err, ok, ◌>>=◌, ◌>>◌, throw_if, or_throw}
use studiobox.State.Model.{Text, codes, booting, ready, terminating, SandboxRecord}
use studiobox.State.Store.{StoreError, update_threw, StateFile, Update, list}
use studiobox.Rootd.Supervisor.Journal.{
  Fault, sup_state, sup_stale, is_terminal, owned_transition, quarantine, complete,
}
use studiobox.Rootd.Supervisor.Update.{Outcome, update}
use studiobox.Rootd.Supervisor.Bridges.{
  SupervisorCore, LiveMachine, Answer, reject_during_reconcile, find_execution, forget_execution,
  Operation, launch, shutdown, kill,
}

-- What a call throws: an error of the journal, or that of the machine.
pub data Thrown : Type 0 where
  journal : StoreError Fault → Thrown
  machine_failed : Text → Thrown

-- How the call ended, and the file and the supervisor that it left.
abbrev pub Termination : Type 0
Termination = Result Thrown (Unit {0}) × StateFile × SupervisorCore

unfoldable pub mode_text : Operation → Text
mode_text launch = codes "launch"
mode_text shutdown = codes "shutdown"
mode_text kill = codes "kill"

-- The checks before the first write.
unfoldable pub check_termination : Text → List SandboxRecord → SupervisorCore → Answer SandboxRecord
unfolding find_execution
check_termination execution_id records core = do
  r ← find_execution execution_id records
  throw_if (is_terminal r.phase) sup_state
  machine ← or_throw (get core.machines execution_id) sup_state
  ok r

-- The last write: the supervisor forgets the execution when it is made.
unfoldable pub completed : Text → SupervisorCore → Outcome → Termination
completed execution_id core (err e, file) = (err (journal e), file, core)
completed execution_id core (ok r, file) = (ok tt, file, forget_execution execution_id core)

-- A hook that failed: the record is set aside, and the call throws.
unfoldable pub hook_failed : SupervisorCore → Outcome → Termination
hook_failed core (err e, file) = (err (journal e), file, core)
hook_failed core (ok r, file) = (err (journal (update_threw sup_state)), file, core)

-- A machine that failed: a stale journal is left alone, another error of the journal is thrown.
unfoldable pub machine_broke : Text → SupervisorCore → Outcome → Termination
machine_broke reason core (err (update_threw sup_stale), file) =
    (err (machine_failed reason), file, core)
machine_broke reason core (err e, file) = (err (journal e), file, core)
machine_broke reason core (ok r, file) = (err (machine_failed reason), file, core)

-- The supervisor's own maps are those of the start of the call: what other calls do to them while it
-- waits is not in the model, nor is its entry in `inflight`, which it takes out again.
-- `world k` is what other writers do during the k-th update, `stop` the failure of the machine's stop
-- or disposal, and `hook` what `#runReclaimHooks` returns.
module _ (parses : Text → Bool) (now : Text) (world : ℕ → ℕ → StateFile → StateFile)
    (execution_id : Text) (mode : Operation) where
  unfoldable pub after_hooks : Option Text → Text → SupervisorCore → StateFile → Termination
  unfolding hook_failed completed
  after_hooks (some detail) id core file =
      hook_failed core
        (update parses id (quarantine (some execution_id) detail) now (world 1) 16 file)
  after_hooks none id core file =
      completed execution_id core
        (update parses id (complete execution_id (mode_text mode)) now (world 2) 16 file)

  unfoldable pub after_stop :
      Option Text → Option Text → Text → SupervisorCore → StateFile → Termination
  unfolding machine_broke after_hooks
  after_stop (some reason) hook id core file =
      machine_broke reason core
        (update parses id (quarantine (some execution_id) reason) now (world 3) 16 file)
  after_stop none hook id core file = after_hooks hook id core file

  unfoldable pub after_transition :
      Option Text → Option Text → Text → SupervisorCore → Outcome → Termination
  unfolding after_stop
  after_transition stop hook id core (err e, file) = (err (journal e), file, core)
  after_transition stop hook id core (ok r, file) = after_stop stop hook id core file

  -- The first write.
  unfoldable pub begin_termination : Text → StateFile → Outcome
  begin_termination id file =
      update parses id
        (owned_transition execution_id (booting ∷ ready ∷ terminating ∷ []) terminating none none
          none)
        now (world 0) 16 file

  unfoldable pub after_check :
      Option Text → Option Text → SupervisorCore → StateFile → Answer SandboxRecord → Termination
  unfolding after_transition begin_termination
  after_check stop hook core file (err fault) = (err (journal (update_threw fault)), file, core)
  after_check stop hook core file (ok r) =
      after_transition stop hook r.id core (begin_termination r.id file)

  unfoldable pub after_list :
      Option Text
      → Option Text
      → SupervisorCore
      → StateFile
      → Result (StoreError Fault) (List SandboxRecord)
      → Termination
  unfolding after_check check_termination
  after_list stop hook core file (err e) = (err (journal e), file, core)
  after_list stop hook core file (ok records) =
      after_check stop hook core file (check_termination execution_id records core)

  unfoldable pub after_guard :
      (List SandboxRecord → List SandboxRecord)
      → Option Text
      → Option Text
      → SupervisorCore
      → StateFile
      → Answer (Unit {0})
      → Termination
  unfolding after_list
  after_guard sort stop hook core file (err fault) =
      (err (journal (update_threw fault)), file, core)
  after_guard sort stop hook core file (ok u) =
      after_list stop hook core file (list parses sort file)

  unfoldable pub terminate :
      (List SandboxRecord → List SandboxRecord)
      → Option Text
      → Option Text
      → SupervisorCore
      → StateFile
      → Termination
  unfolding after_guard
  terminate sort stop hook core file =
      after_guard sort stop hook core file (reject_during_reconcile core)
