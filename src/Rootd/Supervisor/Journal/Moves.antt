-- ===== src/Rootd/Supervisor/Journal/Moves.antt =====
-- The phases that the writers of src/rootd/supervisor_core.ts and of the registry move a record
-- through.
use studiobox.Common.{
  ◌≡◌, refl, sym, ap, subst, Option, none, some, Bool, true, false, not, List, [], ◌∷◌, arith,
  if◌then◌else◌, ◌==◌,
}
use studiobox.Common.Codes.{codes_eq, codes_beq, codes_beq_iff}
use studiobox.Common.Results.{err, ok, ◌>>=◌, throw_if, >>=-returned}
use studiobox.State.Model.{
  Text, SandboxPhase, allocating, staging, booting, ready, terminating, terminated, reconciling,
  quarantined, JailRecordState, MachineJournalState, ArtifactReference, SandboxRecord,
}
use studiobox.State.Values.{text}
use studiobox.State.Grammar.{phase_text}
use studiobox.State.Validation.Injective.{phase-Injective}
use studiobox.State.Store.Read.{ok_injective, guard-eq-ok}
use studiobox.Rootd.Supervisor.Journal.{
  Fault, sup_stale, sup_state, is_reconciled, owner, is_foreign, owner_of, assert_writer_owns,
  bound_machine, patched_jail, patched_machine, released_machine, stale_execution_id, check_owner,
  ResourcesPatch, includes, owned_transition, complete, park, quarantine, unbind, expose,
  bind_machine, patch_machine, release_machine, Write, to_staging, to_ready, to_terminating,
  unbinding, to_booting, completing, parking, quarantining, exposing, binding, patching, releasing,
  written,
}

-- One write to a record takes its phase from the first to the second.
pub data Move : SandboxPhase → SandboxPhase → Type 0 where
  stays : {p : SandboxPhase} → Move p p
  stage : Move allocating staging
  boot : Move staging booting
  answer : Move booting ready
  stop_booting : Move booting terminating
  stop_ready : Move ready terminating
  finish : {p : SandboxPhase} → is_reconciled p ≡ false → Move p terminated
  set_aside : {p : SandboxPhase} → is_reconciled p ≡ false → Move p quarantined

pass-eq-ok : {T : Type 0} (b : Bool) (t : T) (u : Unit {0}) → throw_if b t ≡ ok u → b ≡ false
pass-eq-ok false t u h = refl
pass-eq-ok true t u h = cc

pub assert_writer_owns-eq-ok :
    (r : SandboxRecord) (id : Text) (u : Unit {0})
    → assert_writer_owns r id ≡ ok u
    → (is_foreign id (owner r) ≡ false) × (is_reconciled r.phase ≡ false)
unfolding assert_writer_owns
assert_writer_owns-eq-ok r id u h =
    >>=-returned (throw_if (is_foreign id (owner r)) sup_stale) _ h
      λ u1 e1 h1. (pass-eq-ok _ sup_stale u1 e1, pass-eq-ok _ sup_stale u h1)

phase_same : (p q : SandboxPhase) → (phase_text p == phase_text q) ≡ true → q ≡ p
phase_same p q h =
    sym (phase-Injective p q (ap text ((codes_beq_iff (phase_text p) (phase_text q)).0 h)))

includes_one : (a q : SandboxPhase) → includes (a ∷ []) q ≡ true → q ≡ a
unfolding includes
includes_one a q h = phase_same a q (ground (arith, h))

owned_transition-eq-ok :
    (id : Text) (from : List SandboxPhase) (to : SandboxPhase) (artifact : Option ArtifactReference)
    (pinned : Option Bool) (resources : Option ResourcesPatch) (r next : SandboxRecord)
    → owned_transition id from to artifact pinned resources r ≡ ok next
    → (includes from r.phase ≡ true) × (is_foreign id (owner r) ≡ false) × (next.phase ≡ to)
unfolding owned_transition
owned_transition-eq-ok id from to artifact pinned resources r next h =
    >>=-returned (assert_writer_owns r id) _ h λ u e1 h1.
      >>=-returned (throw_if (not (includes from r.phase)) sup_state) _ h1 λ u2 e2 last. (
        guard-eq-ok _ sup_state u2 e2,
        (assert_writer_owns-eq-ok r id u e1).0,
        sym (ap (λ (x : SandboxRecord). x.phase) (ok_injective last)),
      )

includes_terminating :
    (q : SandboxPhase) → includes (booting ∷ ready ∷ terminating ∷ []) q ≡ true → Move q terminating
unfolding includes phase_text codes_beq
includes_terminating allocating h = absurd (ground (arith, h))
includes_terminating staging h = absurd (ground (arith, h))
includes_terminating booting h = stop_booting
includes_terminating ready h = stop_ready
includes_terminating terminating h = stays
includes_terminating terminated h = absurd (ground (arith, h))
includes_terminating reconciling h = absurd (ground (arith, h))
includes_terminating quarantined h = absurd (ground (arith, h))

-- A write of the registry keeps the phase and the id, and is made for no other execution.
abbrev pub Harmless : Text → SandboxRecord → Option MachineJournalState → SandboxRecord → Type 0
Harmless id r m next = (next.phase ≡ r.phase) × (is_foreign id (owner_of m) ≡ false)

bound-Harmless :
    (id : Text) (jail : JailRecordState) (t : Text) (r next : SandboxRecord)
    (m : Option MachineJournalState)
    → bound_machine id jail t r m ≡ ok next
    → Harmless id r m next
unfolding bound_machine is_foreign owner_of
bound-Harmless id jail t r next (some m) h = absurd (ground (arith, h))
bound-Harmless id jail t r next none h =
    (sym (ap (λ (x : SandboxRecord). x.phase) (ok_injective h)), refl)

own_id : (id own : Text) → (own == id) ≡ true → is_foreign id (some own) ≡ false
unfolding is_foreign
own_id id own h = rw h refl

pub if_ok :
    (b : Bool) (made next : SandboxRecord) (f : Fault)
    → (if b then ok made else err f) ≡ ok next
    → (b ≡ true) × (made ≡ next)
if_ok true made next f h = (refl, ok_injective h)
if_ok false made next f h = absurd (ground (arith, h))

patched_jail-Harmless :
    (id : Text) (patch : JailRecordState → JailRecordState) (t : Text) (r next : SandboxRecord)
    (m : MachineJournalState) (jail : Option JailRecordState)
    → patched_jail id patch t r m jail ≡ ok next
    → Harmless id r (some m) next
unfolding patched_jail owner_of
patched_jail-Harmless id patch t r next m none h = absurd (ground (arith, h))
patched_jail-Harmless id patch t r next m (some jail) h =
    let (same, e) = if_ok (m.execution_id == id) _ next stale_execution_id h in
    (sym (ap (λ (x : SandboxRecord). x.phase) e), own_id id m.execution_id same)

patched-Harmless :
    (id : Text) (patch : JailRecordState → JailRecordState) (t : Text) (r next : SandboxRecord)
    (m : Option MachineJournalState)
    → patched_machine id patch t r m ≡ ok next
    → Harmless id r m next
unfolding patched_machine
patched-Harmless id patch t r next none h = absurd (ground (arith, h))
patched-Harmless id patch t r next (some m) h =
    patched_jail-Harmless id patch t r next m m.jail_record h

released-Harmless :
    (id t : Text) (r next : SandboxRecord) (m : Option MachineJournalState)
    → released_machine id t r m ≡ ok next
    → Harmless id r m next
unfolding released_machine owner_of
released-Harmless id t r next none h = absurd (ground (arith, h))
released-Harmless id t r next (some m) h =
    let (same, e) = if_ok (m.execution_id == id) _ next stale_execution_id h in
    (sym (ap (λ (x : SandboxRecord). x.phase) e), own_id id m.execution_id same)

Harmless-Move :
    (id : Text) (r next : SandboxRecord)
    → Harmless id r r.machine next
    → Move r.phase next.phase × (is_foreign id (owner r) ≡ false)
unfolding owner
Harmless-Move id r next h = (subst (λ q. Move r.phase q) (sym h.0) stays, h.1)

transition-Move :
    (id : Text) (from : List SandboxPhase) (to : SandboxPhase) (artifact : Option ArtifactReference)
    (pinned : Option Bool) (resources : Option ResourcesPatch) (r next : SandboxRecord)
    → ((q : SandboxPhase) → includes from q ≡ true → Move q to)
    → owned_transition id from to artifact pinned resources r ≡ ok next
    → Move r.phase next.phase × (is_foreign id (owner r) ≡ false)
transition-Move id from to artifact pinned resources r next move h =
    let (found, own, e) = owned_transition-eq-ok id from to artifact pinned resources r next h in
    (subst (λ q. Move r.phase q) (sym e) (move r.phase found), own)

one_Move :
    (a to : SandboxPhase) → Move a to → (q : SandboxPhase) → includes (a ∷ []) q ≡ true → Move q to
one_Move a to move q h = subst (λ x. Move x to) (sym (includes_one a q h)) move

guarded-Move :
    (id : Text) (r made next : SandboxRecord)
    → ((is_reconciled r.phase ≡ false) → Move r.phase made.phase)
    → (assert_writer_owns r id >>= (λ u. ok made)) ≡ ok next
    → Move r.phase next.phase × (is_foreign id (owner r) ≡ false)
guarded-Move id r made next move h = >>=-returned (assert_writer_owns r id) _ h λ u e last.
    let (own, free) = assert_writer_owns-eq-ok r id u e in
    (subst (λ (x : SandboxRecord). Move r.phase x.phase) (ok_injective last) (move free), own)

-- For every execution, record and write, of the supervisor's own steps and of the registry: where
-- the write is made, the record had no owner or this execution, and its phase moves by one Move:
-- forward from allocating to terminating, or from a phase that no sweep has taken to an end.
pub written-Move :
    (id : Text) (w : Write) (r next : SandboxRecord)
    → written id w r ≡ ok next
    → Move r.phase next.phase × (is_foreign id (owner r) ≡ false)
unfolding written complete park quarantine check_owner unbind expose bind_machine patch_machine
    release_machine
written-Move id to_staging r next h =
    transition-Move id (allocating ∷ []) staging none none none r next
      (one_Move allocating staging stage) h
written-Move id (to_booting artifact pinned resources) r next h =
    transition-Move id (staging ∷ []) booting artifact pinned resources r next
      (one_Move staging booting boot) h
written-Move id to_ready r next h =
    transition-Move id (booting ∷ []) ready none none none r next (one_Move booting ready answer) h
written-Move id to_terminating r next h =
    transition-Move id (booting ∷ ready ∷ terminating ∷ []) terminating none none none r next
      includes_terminating h
written-Move id unbinding r next h = guarded-Move id r _ next (λ free. stays) h
written-Move id (completing mode) r next h = guarded-Move id r _ next finish h
written-Move id (parking detail) r next h = guarded-Move id r _ next finish h
written-Move id (quarantining detail) r next h = guarded-Move id r _ next set_aside h
written-Move id (exposing guest_port host_port) r next h =
    guarded-Move id r _ next (λ free. stays) h
written-Move id (binding jail t) r next h =
    Harmless-Move id r next (bound-Harmless id jail t r next r.machine h)
written-Move id (patching patch t) r next h =
    Harmless-Move id r next (patched-Harmless id patch t r next r.machine h)
written-Move id (releasing t) r next h =
    Harmless-Move id r next (released-Harmless id t r next r.machine h)
