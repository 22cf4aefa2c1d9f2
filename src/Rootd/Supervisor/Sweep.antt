-- ===== src/Rootd/Supervisor/Sweep.antt =====
-- `#reconcileSweep` of src/rootd/supervisor_core.ts, which runs alone: every open record is marked, the
-- package reclaims, and every open record is ended or set aside. Where the package's sweep throws, this one
-- does, which is not in the model.
pub mod Members
pub mod Writes
pub mod Settles
use studiobox.Common.{
  ℕ, ◌+◌, Option, none, some, Bool, true, false, not, List, [], ◌∷◌, ◌++◌, length, if◌then◌else◌,
  ◌==◌,
}
use studiobox.Common.Codes.{codes_eq}
use studiobox.Common.Map.{Map, get}
use studiobox.Common.Results.{Result, err, ok, ◌>>=◌}
use studiobox.State.Model.{Text, codes, reconciling, SandboxRecord}
use studiobox.State.Grammar.{phase_text}
use studiobox.State.Store.{StoreError, StateFile, Update, list}
use studiobox.Rootd.Supervisor.Journal.{
  Fault, owner, is_terminal, quarantine, mark_reconciling, mark_terminated,
}
use studiobox.Rootd.Supervisor.Update.{Outcome, update}
use studiobox.Rootd.Supervisor.Bridges.{SupervisorCore, forget_all}
use studiobox.Rootd.Supervisor.Registry.{PackageCall, package_sweep}

-- SupervisorReconcileSummary, and its failures.
pub record ReconcileFailure : Type 0 where
  pub sandbox_id : Text
  pub execution_id : Option Text
  pub detail : Text

pub record ReconcileSummary : Type 0 where
  pub examined : ℕ
  pub killed : ℕ
  pub reclaimed : ℕ
  pub quarantined : ℕ
  pub failures : List ReconcileFailure

abbrev pub Swept {ℓ} : Type ℓ → Type ℓ
Swept A = Result (StoreError Fault) A

unfoldable pub updated : Outcome → Swept StateFile
updated (ok r, after) = ok after
updated (err e, after) = err e

unfoldable pub filter_open : List SandboxRecord → List SandboxRecord
filter_open [] = []
filter_open (r ∷ rs) =
    let rest = filter_open rs in if not (is_terminal r.phase) then r ∷ rest else rest

-- What the package's sweep reports for an execution.
unfoldable pub package_failure : Map Text Text → Option Text → Option Text
package_failure failures none = none
package_failure failures (some execution_id) = get failures execution_id

-- A failure of the package comes before the hooks, which then do not run.
unfoldable pub detail_after : Option Text → Option Text → Option Text
detail_after none hook = hook
detail_after (some failure) hook = some (codes "firecracker reclaim: " ++ failure)

unfoldable pub write_of : Option Text → Update Fault
write_of none r = mark_terminated r
write_of (some detail) r = quarantine none detail r

unfoldable pub count_in : SandboxRecord → Option Text → ReconcileSummary → ReconcileSummary
count_in r none s = record s { reclaimed = s.reclaimed + 1 }
count_in r (some detail) s = record s {
  quarantined = s.quarantined + 1;
  failures =
      s.failures ++ record { sandbox_id = r.id; execution_id = owner r; detail = detail } ∷ [];
}

-- No other writer comes between: `update` is given what changes nothing.
module _ (parses : Text → Bool) (now : Text) where
  unfoldable pub write_alone : Text → Update Fault → StateFile → Swept StateFile
  unfolding updated update
  write_alone id mutate file = updated (update parses id mutate now (λ n f. f) 16 file)

  unfoldable pub mark_one : SandboxRecord → StateFile → Swept StateFile
  unfolding write_alone mark_reconciling
  mark_one r file =
      if phase_text r.phase == phase_text reconciling
      then ok file
      else write_alone r.id mark_reconciling file

  unfoldable pub mark_each : List SandboxRecord → StateFile → Swept StateFile
  unfolding mark_one
  mark_each [] file = ok file
  mark_each (r ∷ rs) file = mark_one r file >>= λ next. mark_each rs next

  -- `failures` is what the package reports, and `hooks` what `#runReclaimHooks` answers for an id.
  module _ (failures : Map Text Text) (hooks : Text → Option Text) where
    unfoldable pub detail_of : SandboxRecord → Option Text
    unfolding package_failure detail_after
    detail_of r = detail_after (package_failure failures (owner r)) (hooks r.id)

    unfoldable pub settle_each :
        List SandboxRecord → ReconcileSummary → StateFile → Swept (ReconcileSummary × StateFile)
    unfolding detail_of write_of write_alone count_in
    settle_each [] s file = ok (s, file)
    settle_each (r ∷ rs) s file = do
      next ← write_alone r.id (write_of (detail_of r)) file
      settle_each rs (count_in r (detail_of r) s) next

    -- `reclaim` is what the package's sweep does to the journal.
    unfoldable pub sweep_open :
        (StateFile → StateFile)
        → ℕ
        → List SandboxRecord
        → StateFile
        → SupervisorCore
        → Swept (ReconcileSummary × StateFile × SupervisorCore)
    sweep_open reclaim killed [] file core = ok (
      record { examined = 0; killed = 0; reclaimed = 0; quarantined = 0; failures = [] },
      file,
      core,
    )
    sweep_open reclaim killed (r ∷ rs) file core = do
      marked ← mark_each (r ∷ rs) file
      settled ←
          settle_each (r ∷ rs)
            (record {
              examined = length (r ∷ rs);
              killed = killed;
              reclaimed = 0;
              quarantined = 0;
              failures = [];
            })
            (reclaim marked)
      ok (settled.0, settled.1, forget_all core)

    -- `sort` is the sort of `list`, `killed` how many the package has reclaimed, and `calls` the calls
    -- that it makes on its journal.
    unfoldable pub reconcile_sweep :
        (List SandboxRecord → List SandboxRecord)
        → List PackageCall
        → ℕ
        → StateFile
        → SupervisorCore
        → Swept (ReconcileSummary × StateFile × SupervisorCore)
    unfolding sweep_open package_sweep
    reconcile_sweep sort calls killed file core = do
      records ← list parses sort file
      sweep_open (package_sweep parses now sort calls) killed (filter_open records) file core
