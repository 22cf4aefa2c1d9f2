-- ===== src/Rootd/Supervisor/History.antt =====
-- The journal of src/rootd/supervisor_core.ts under any interleaving of its writers.
use studiobox.Common.{
  ℕ, ◌≤◌, ◌≡◌, inl, inr, refl, sym, ap, subst, ◌∙◌, some, Bool, true, List, [], ◌∷◌, map, arith,
  Bool-cases, ◌==◌,
}
use studiobox.Common.Codes.{codes_eq, codes_beq_iff}
use studiobox.Common.Results.{Result, err, ok, >>=-returned}
use studiobox.State.Model.{
  Text, SandboxPhase, allocating, staging, booting, ready, terminating, terminated, reconciling,
  quarantined, SandboxRecord,
}
use studiobox.State.Store.{StoreError, StateFile, get_record, compare_and_swap}
use studiobox.State.Store.Read.{ok_injective}
use studiobox.State.Store.Spec.{Command, swapping, apply}
use studiobox.State.Store.Revisions.{run, left}
use studiobox.State.Store.Swap.{Swapped, compare_and_swap-Swapped}
use studiobox.Rootd.Supervisor.Journal.{Fault, Write, written, is_reconciled}
use studiobox.Rootd.Supervisor.Journal.Moves.{
  Move, stays, stage, boot, answer, stop_booting, stop_ready, finish, set_aside, written-Move,
}

-- One attempt of a writer: the revision that it has read, and what it writes.
pub record Turn : Type 0 where
  pub sandbox : Text
  pub execution : Text
  pub revision : ℕ
  pub write : Write
  pub now : Text

abbrev pub command : Turn → Command Fault
command t = swapping t.sandbox t.revision (written t.execution t.write) t.now

pub data Moves : SandboxPhase → SandboxPhase → Type 0 where
  here : {p : SandboxPhase} → Moves p p
  then_on : {p q s : SandboxPhase} → Move p q → Moves q s → Moves p s

-- How far a phase stands in the life of a sandbox.
unfoldable pub rank : SandboxPhase → ℕ
rank allocating = 0
rank staging = 1
rank booting = 2
rank ready = 3
rank terminating = 4
rank reconciling = 5
rank terminated = 6
rank quarantined = 6

Move-rank-finish : (p : SandboxPhase) → rank p ≤ 6
unfolding rank
Move-rank-finish allocating = omega arith
Move-rank-finish staging = omega arith
Move-rank-finish booting = omega arith
Move-rank-finish ready = omega arith
Move-rank-finish terminating = omega arith
Move-rank-finish reconciling = omega arith
Move-rank-finish terminated = omega arith
Move-rank-finish quarantined = omega arith

Move-rank : {p q : SandboxPhase} → Move p q → rank p ≤ rank q
unfolding rank
Move-rank stays = omega arith
Move-rank stage = omega arith
Move-rank boot = omega arith
Move-rank answer = omega arith
Move-rank stop_booting = omega arith
Move-rank stop_ready = omega arith
Move-rank {p} (finish free) = Move-rank-finish p
Move-rank {p} (set_aside free) = Move-rank-finish p

Moves-rank : {p q : SandboxPhase} → Moves p q → rank p ≤ rank q
Moves-rank here = omega arith
Moves-rank (Moves.then_on m ms) = omega (arith, Move-rank m, Moves-rank ms)

Move-reconciled : {p q : SandboxPhase} → Move p q → is_reconciled p ≡ true → q ≡ p
unfolding is_reconciled
Move-reconciled stays h = refl
Move-reconciled stage h = cc
Move-reconciled boot h = cc
Move-reconciled answer h = cc
Move-reconciled stop_booting h = cc
Move-reconciled stop_ready h = cc
Move-reconciled (finish free) h = cc
Move-reconciled (set_aside free) h = cc

Moves-reconciled : {p q : SandboxPhase} → Moves p q → is_reconciled p ≡ true → q ≡ p
Moves-reconciled here h = refl
Moves-reconciled (Moves.then_on m ms) h =
    let e = Move-reconciled m h in Moves-reconciled ms (ap is_reconciled e ∙ h) ∙ e

module _ (parses : Text → Bool) (id : Text) where
  -- The file holds a record of this phase under the id.
  abbrev pub HasPhase : SandboxPhase → StateFile → Type 0
  HasPhase p file =
      (r : SandboxRecord) × (get_record parses {E = Fault} id file ≡ ok (some r)) × (r.phase ≡ p)

  Swapped-HasPhase :
      (t : Turn) (p : SandboxPhase) (file next : StateFile) (r : SandboxRecord)
      → Swapped parses Fault t.sandbox (written t.execution t.write) t.now file r next
      → HasPhase p file
      → (q : SandboxPhase) × Move p q × HasPhase q next
  Swapped-HasPhase t p file next r s (old, held, phase) = elim (Bool-cases (t.sandbox == id)) [
    | inl same ↦
        let e = (codes_beq_iff t.sandbox id).0 same in
        let both : some s.current ≡ some old = ok_injective (
          sym (subst (λ j. get_record parses {E = Fault} j file ≡ ok (some s.current)) e s.held)
          ∙ held) in
        let one : s.current ≡ old = cc in
        let moved = (written-Move t.execution t.write s.current s.candidate s.updated).0 in
        (
          r.phase,
          subst (λ x. Move x r.phase) (ap (λ (x : SandboxRecord). x.phase) one ∙ phase)
              (subst (λ x. Move s.current.phase x)
                (ap (λ (x : SandboxRecord). x.phase) (sym s.result)) moved),
          (r, subst (λ j. get_record parses {E = Fault} j next ≡ ok (some r)) e s.stored, refl),
        )
    | inr other ↦ (p, stays, (old, s.others id other ∙ held, phase))
  ]

  left-HasPhase :
      (t : Turn) (p : SandboxPhase) (file : StateFile) (o : Result (StoreError Fault) StateFile)
      → apply parses Fault (command t) file ≡ o
      → HasPhase p file
      → (q : SandboxPhase) × Moves p q × HasPhase q (left parses Fault file o)
  unfolding left apply
  left-HasPhase t p file (err e) h found = (p, here, found)
  left-HasPhase t p file (ok next) h found =
      >>=-returned
        (compare_and_swap parses t.sandbox t.revision (written t.execution t.write) t.now file) _ h
        λ swapped e last.
          let s =
            compare_and_swap-Swapped parses Fault t.sandbox t.revision (written t.execution t.write)
              t.now file swapped.1 swapped.0 e in
          let (q, m, result) = Swapped-HasPhase t p file swapped.1 swapped.0 s found in
          (q, Moves.then_on m here, subst (HasPhase q) (ok_injective last) result)

  Moves-join : {p q s : SandboxPhase} → Moves p q → Moves q s → Moves p s
  Moves-join here ns = ns
  Moves-join (Moves.then_on m ms) ns = Moves.then_on m (Moves-join ms ns)

  run-Moves :
      (ts : List Turn) (p : SandboxPhase) (file : StateFile)
      → HasPhase p file
      → (q : SandboxPhase) × Moves p q × HasPhase q (run parses Fault (map command ts) file)
  unfolding run
  run-Moves [] p file found = (p, here, found)
  run-Moves (t ∷ ts) p file found =
      let (q, ms, next) = left-HasPhase t p file (apply parses Fault (command t) file) refl found in
      let (s, ns, last) =
        run-Moves ts q (left parses Fault file (apply parses Fault (command t) file)) next in
      (s, Moves-join ms ns, last)

  -- For every file that holds a record and every history of attempts by writers of any executions,
  -- fresh or stale, on any records: afterwards the record is still there, its phase was reached by
  -- allowed moves, is no earlier one, and is the same if a sweep or an end had taken the record.
  pub phases_move_forward :
      (ts : List Turn) (p : SandboxPhase) (file : StateFile)
      → HasPhase p file
      → (q : SandboxPhase) × HasPhase q (run parses Fault (map command ts) file)
        × Moves p q
        × (rank p ≤ rank q)
        × (is_reconciled p ≡ true → q ≡ p)
  phases_move_forward ts p file found =
      let (q, ms, last) = run-Moves ts p file found in
      (q, last, ms, Moves-rank ms, λ h. Moves-reconciled ms h)
