-- ===== src/Rootd/Supervisor/Exclusion.antt =====
-- A reconciliation of src/rootd/supervisor_core.ts runs alone: never while a launch, a shutdown or a
-- kill is in flight.
use studiobox.Common.{
  ◌≡◌, refl, sym, ap, subst, ◌∙◌, Bool, true, false, ◌&&◌, List, [], ◌∷◌, length, ltb, arith,
  if◌then◌else◌, ◌==◌, Bool-cases, inl, inr,
}
use studiobox.Common.Codes.{codes_eq}
use studiobox.Common.Results.{err, ok, throw_if, >>=-returned}
use studiobox.State.Model.{Text}
use studiobox.State.Store.Read.{ok_injective}
use studiobox.Rootd.Supervisor.Journal.{sup_unavailable}
use studiobox.Rootd.Supervisor.Bridges.{
  SupervisorCore, Operation, launch, shutdown, kill, reject_during_reconcile, begin_operation,
  begin_reconcile,
}

unfoldable pub same_operation : Operation → Operation → Bool
same_operation launch launch = true
same_operation shutdown shutdown = true
same_operation kill kill = true
same_operation _ _ = false

-- `this.#inflight.delete(inflight)`: one entry goes.
unfoldable pub without : Operation → Text → List (Operation × Text) → List (Operation × Text)
unfolding same_operation
without operation execution_id [] = []
without operation execution_id ((o, id) ∷ rest) =
    let later = without operation execution_id rest in
    if same_operation o operation && id == execution_id then rest else (o, id) ∷ later

unfoldable pub end_operation : Operation → Text → SupervisorCore → SupervisorCore
unfolding without
end_operation operation execution_id core = record core {
  inflight = without operation execution_id core.inflight;
}

unfoldable pub end_reconcile : SupervisorCore → SupervisorCore
end_reconcile core = record core { is_reconciling = false }

-- What changes the guards of the supervisor.
pub data Step (core : SupervisorCore) : SupervisorCore → Type 0 where
  begins :
      (operation : Operation) (execution_id : Text) {next : SupervisorCore}
      → begin_operation operation execution_id core ≡ ok next
      → Step core next
  ends :
      (operation : Operation) (execution_id : Text) {next : SupervisorCore}
      → end_operation operation execution_id core ≡ next
      → Step core next
  sweeps : {next : SupervisorCore} → begin_reconcile core ≡ ok next → Step core next
  swept : {next : SupervisorCore} → end_reconcile core ≡ next → Step core next

pub data Reach (start : SupervisorCore) : SupervisorCore → Type 0 where
  at_start : Reach start start
  after : {core next : SupervisorCore} → Reach start core → Step core next → Reach start next

abbrev pub IsExclusive : SupervisorCore → Type 0
IsExclusive core = core.is_reconciling ≡ true → core.inflight ≡ []

begin_operation-IsExclusive :
    (operation : Operation) (id : Text) (core next : SupervisorCore)
    → begin_operation operation id core ≡ ok next
    → IsExclusive next
unfolding begin_operation reject_during_reconcile
begin_operation-IsExclusive operation id core next h =
    >>=-returned (reject_during_reconcile core) _ h λ u e last. λ sweeping.
      elim (Bool-cases core.is_reconciling) [
        | inl busy ↦ absurd (ground (arith, rw busy at e))
        | inr free ↦ absurd (
            ground (
              arith,
              ap (λ (c : SupervisorCore). c.is_reconciling) (ok_injective last),
              free,
              sweeping,
            ))
      ]

no_length : (xs : List (Operation × Text)) → ltb 0 (length xs) ≡ false → xs ≡ []
no_length [] h = refl
no_length (x ∷ xs) h = absurd (ground (arith, h))

idle-eq-ok : (b : Bool) (u : Unit {0}) → throw_if b sup_unavailable ≡ ok u → b ≡ false
idle-eq-ok false u h = refl
idle-eq-ok true u h = cc

begin_reconcile-IsExclusive :
    (core next : SupervisorCore) → begin_reconcile core ≡ ok next → next.inflight ≡ []
unfolding begin_reconcile
begin_reconcile-IsExclusive core next h =
    >>=-returned (throw_if core.is_reconciling sup_unavailable) _ h λ u e h1.
      >>=-returned (throw_if (ltb 0 (length core.inflight)) sup_unavailable) _ h1 λ u1 e1 last.
        sym (ap (λ (c : SupervisorCore). c.inflight) (ok_injective last))
        ∙ no_length core.inflight (idle-eq-ok _ u1 e1)

Step-IsExclusive :
    {core next : SupervisorCore} → Step core next → IsExclusive core → IsExclusive next
unfolding end_operation end_reconcile
Step-IsExclusive {core} {next} (Step.begins operation id h) x =
    begin_operation-IsExclusive operation id core next h
Step-IsExclusive {core} {next} (Step.ends operation id h) x =
    subst IsExclusive h (λ sweeping. ap (without operation id) (x sweeping))
Step-IsExclusive {core} {next} (Step.sweeps h) x =
    λ sweeping. begin_reconcile-IsExclusive core next h
Step-IsExclusive {core} {next} (Step.swept h) x =
    subst IsExclusive h (λ sweeping. absurd (ground (arith, sweeping)))

-- For every supervisor that starts with no sweep and no operation, and every order in which operations
-- and sweeps begin and end: while a sweep runs, no operation is in flight, none can begin, and no second
-- sweep can.
pub sweep_runs_alone :
    (start core : SupervisorCore)
    → start.inflight ≡ []
    → Reach start core
    → core.is_reconciling ≡ true
    → (core.inflight ≡ [])
      × ((operation : Operation) (id : Text)
          → begin_operation operation id core ≡ err sup_unavailable)
      × (begin_reconcile core ≡ err sup_unavailable)
unfolding begin_operation reject_during_reconcile begin_reconcile
sweep_runs_alone start core empty reach sweeping =
    (exclusive reach sweeping, λ operation id. rw sweeping refl, rw sweeping refl)
  where
    exclusive : {c : SupervisorCore} → Reach start c → IsExclusive c
    exclusive at_start = λ h. empty
    exclusive (Reach.after r s) = Step-IsExclusive s (exclusive r)
