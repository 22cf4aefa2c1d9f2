-- ===== src/Rootd/Supervisor/Terminate/Ends.antt =====
-- What a shutdown or a kill of src/rootd/supervisor_core.ts that returns has done.
use studiobox.Common.{ℕ, ◌≡◌, Option, none, some, Bool, false, List}
use studiobox.Common.Results.{ok}
use studiobox.State.Model.{Text, terminated, SandboxRecord}
use studiobox.State.Store.{StateFile, list, get_record}
use studiobox.State.Store.Spec.{stamped}
use studiobox.Common.Codes.{codes_eq}
use studiobox.Rootd.Supervisor.Update.{Reaches}
use studiobox.Rootd.Supervisor.Bridges.{find_execution}
use studiobox.Rootd.Supervisor.Terminate.{begin_termination}
use studiobox.Rootd.Supervisor.Journal.{Fault, complete, is_reconciled, is_foreign, owner}
use studiobox.Rootd.Supervisor.Bridges.{SupervisorCore, forget_execution, Operation}
use studiobox.Rootd.Supervisor.Terminate.{Termination, mode_text}

module _ (parses : Text → Bool) (now : Text) (world : ℕ → ℕ → StateFile → StateFile)
    (execution_id : Text) (mode : Operation) where
  -- Of `before`, which others made of the file after the transition, the execution's record was
  -- terminated by the last write: it had no other owner, and no sweep or end had taken it.
  pub record Completed (id : Text) (mid after : StateFile) : Type 0 where
    pub before : StateFile
    pub reached :
        Reaches parses id (complete execution_id (mode_text mode)) now (world 2) mid before
    pub last : SandboxRecord
    pub held : get_record parses {E = Fault} id before ≡ ok (some last)
    pub free : is_reconciled last.phase ≡ false
    pub own : is_foreign execution_id (owner last) ≡ false
    pub stored :
        get_record parses {E = Fault} id after
        ≡ ok (
            some (
              stamped last.revision now
                (record last { phase = terminated; termination_reason = some (mode_text mode) })))

  -- The record of the execution at the start of the call, its move to terminating, and its end.
  pub record IsTerminated (sort : List SandboxRecord → List SandboxRecord) (file after : StateFile)
      : Type 0 where
    pub records : List SandboxRecord
    pub listed : list parses {E = Fault} sort file ≡ ok records
    pub started : SandboxRecord
    pub found : find_execution execution_id records ≡ ok started
    pub moved : SandboxRecord
    pub mid : StateFile
    pub transition :
        begin_termination parses now world execution_id mode started.id file ≡ (ok moved, mid)
    pub ended : Completed started.id mid after

  module _ (core left : SupervisorCore) (after : StateFile) (u : Unit {0}) where
    abbrev Ended : Termination → Type 0
    Ended t = t ≡ (ok u, after, left)

    -- What a call that returns from its last part has done.
    abbrev Finished : Option Text → Option Text → Text → StateFile → Type 0
    Finished stop hook id mid =
        (stop ≡ none)
        × (hook ≡ none)
        × (left ≡ forget_execution execution_id core)
        × Completed id mid after

    abbrev pub IsEnded :
        (List SandboxRecord → List SandboxRecord) → Option Text → Option Text → StateFile → Type 0
    IsEnded sort stop hook file =
        (stop ≡ none)
        × (hook ≡ none)
        × (left ≡ forget_execution execution_id core)
        × IsTerminated sort file after
