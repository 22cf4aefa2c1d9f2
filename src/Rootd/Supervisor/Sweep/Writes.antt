-- ===== src/Rootd/Supervisor/Sweep/Writes.antt =====
-- What one write of a sweep of src/rootd/supervisor_core.ts leaves of the records of the journal.
use studiobox.Common.{
  ◌≡◌, inl, inr, refl, sym, ap, subst, ◌∙◌, Option, none, some, Bool, true, false, List, [], ◌∷◌,
  arith, Bool-cases, ◌==◌,
}
use studiobox.Common.Codes.{codes_eq, codes_beq_iff}
use studiobox.Common.Results.{err, ok, >>=-returned}
use studiobox.State.Model.{Text, reconciling, SandboxRecord}
use studiobox.State.Grammar.{phase_text}
use studiobox.State.Store.{StateFile, Update, get_record}
use studiobox.State.Store.Read.{ok_injective}
use studiobox.State.Store.Swap.{Swapped}
use studiobox.Rootd.Supervisor.Journal.{
  Fault, is_terminal, quarantine, mark_reconciling, mark_terminated,
}
use studiobox.Rootd.Supervisor.Update.{Outcome, update, Reaches, unchanged, Settled, update-Settled}
use studiobox.Rootd.Supervisor.Sweep.{updated, write_of, write_alone, mark_one, mark_each}

module _ (parses : Text → Bool) (now : Text) where
  Reaches-eq :
      {id : Text} {mutate : Update Fault} {file later : StateFile}
      → Reaches parses id mutate now (λ n f. f) file later
      → later ≡ file
  Reaches-eq unchanged = refl
  Reaches-eq (Reaches.changed n r) = Reaches-eq r

  Settled-Swapped :
      (id : Text) (mutate : Update Fault) (file after : StateFile) (o : Outcome)
      → Settled parses id mutate now (λ n f. f) file o
      → updated o ≡ ok after
      → (r : SandboxRecord) × Swapped parses Fault id mutate now file r after
  unfolding updated
  Settled-Swapped id mutate file after (ok r, left) (before, reaches, swapped) h = (
    r,
    subst (λ f. Swapped parses Fault id mutate now f r after) (Reaches-eq reaches)
        (subst (λ f. Swapped parses Fault id mutate now before r f) (ok_injective h) swapped),
  )
  Settled-Swapped id mutate file after (err e, left) s h = absurd (ground (arith, h))

  write_alone-Swapped :
      (id : Text) (mutate : Update Fault) (file after : StateFile)
      → write_alone parses now id mutate file ≡ ok after
      → (r : SandboxRecord) × Swapped parses Fault id mutate now file r after
  unfolding write_alone
  write_alone-Swapped id mutate file after h =
      Settled-Swapped id mutate file after (update parses id mutate now (λ n f. f) 16 file)
        (update-Settled parses id mutate now (λ n f. f) 16 file) h

  abbrev pub IsHeld : Text → SandboxRecord → StateFile → Type 0
  IsHeld id r file = get_record parses {E = Fault} id file ≡ ok (some r)

  abbrev pub HasEnded : Text → StateFile → Type 0
  HasEnded id file = (r : SandboxRecord) × IsHeld id r file × (is_terminal r.phase ≡ true)

  pub write_alone-IsHeld :
      (i id : Text) (mutate : Update Fault) (r : SandboxRecord) (file after : StateFile)
      → (i == id) ≡ false
      → write_alone parses now i mutate file ≡ ok after
      → IsHeld id r file
      → IsHeld id r after
  write_alone-IsHeld i id mutate r file after apart h held =
      let (x, s) = write_alone-Swapped i mutate file after h in s.others id apart ∙ held

  pub write_of-terminal :
      (detail : Option Text) (r c : SandboxRecord)
      → write_of detail r ≡ ok c
      → is_terminal c.phase ≡ true
  unfolding write_of mark_terminated quarantine is_terminal
  write_of-terminal none r c h =
      ap (λ (x : SandboxRecord). is_terminal x.phase) (sym (ok_injective h))
  write_of-terminal (some detail) r c h =
      ap (λ (x : SandboxRecord). is_terminal x.phase) (sym (ok_injective h))

  pub write_alone-HasEnded :
      (id : Text) (detail : Option Text) (file after : StateFile)
      → write_alone parses now id (write_of detail) file ≡ ok after
      → HasEnded id after
  write_alone-HasEnded id detail file after h =
      let (x, s) = write_alone-Swapped id (write_of detail) file after h in
      (
        x,
        s.stored,
        ap (λ (y : SandboxRecord). is_terminal y.phase) s.result
            ∙ write_of-terminal detail s.current s.candidate s.updated,
      )

  pub HasEnded-kept :
      (i id : Text) (detail : Option Text) (file after : StateFile)
      → write_alone parses now i (write_of detail) file ≡ ok after
      → HasEnded id file
      → HasEnded id after
  HasEnded-kept i id detail file after h (r, held, ended) = elim (Bool-cases (i == id)) [
    | inl same ↦
        subst (λ j. HasEnded j after) ((codes_beq_iff i id).0 same)
          (write_alone-HasEnded i detail file after h)
    | inr other ↦ (r, write_alone-IsHeld i id (write_of detail) r file after other h held, ended)
  ]

  -- None of the records has this id.
  abbrev pub NoneIs : Text → List SandboxRecord → Type 0
  NoneIs id [] = Unit {0}
  NoneIs id (r ∷ rs) = ((r.id == id) ≡ false) × NoneIs id rs

  pub mark_each-IsHeld :
      (rs : List SandboxRecord) (id : Text) (r : SandboxRecord) (file after : StateFile)
      → NoneIs id rs
      → mark_each parses now rs file ≡ ok after
      → IsHeld id r file
      → IsHeld id r after
  unfolding mark_each
  mark_each-IsHeld [] id r file after none_is h held = subst (IsHeld id r) (ok_injective h) held
  mark_each-IsHeld (x ∷ rs) id r file after none_is h held =
      >>=-returned (mark_one parses now x file) _ h λ next e last.
        mark_each-IsHeld rs id r next after none_is.1 last
          (elim (Bool-cases (phase_text x.phase == phase_text reconciling)) [
            | inl marked ↦ subst (IsHeld id r) (ok_injective (rw marked at e)) held
            | inr fresh ↦
                write_alone-IsHeld x.id id mark_reconciling r file next none_is.0 (rw fresh at e)
                  held
          ])
