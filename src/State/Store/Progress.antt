-- ===== src/State/Store/Progress.antt =====
-- Every step of the specification is taken by the file of src/state/store.ts, also along a history.
use studiobox.Common.{ℕ, ◌≡◌, refl, sym, ◌∙◌, none, some, Bool, nat_beq_iff}
use studiobox.Common.Codes.{codes_eq, codes_beq_iff}
use studiobox.Common.Map.{set, delete, has-get}
use studiobox.Common.Results.{ok}
use studiobox.State.Model.{Text, SandboxRecord}
use studiobox.State.Validation.Valid.{IsRecord}
use studiobox.State.Store.{
  StateFile, Update, or_threw, write, create_in, create, swap_in, compare_and_swap, remove_in,
  remove,
}
use studiobox.State.Store.Read.{read-AreKeyed}
use studiobox.State.Store.Spec.{
  Registry, put, stamped, Command, creating, swapping, removing, apply, Step, Shows,
}
use studiobox.State.Store.Refinement.{
  validate_valid, shown_set, shown_delete, Simulates, apply-Step,
}

module _ (parses : Text → Bool) (E : Type 0) where
  abbrev pub Taken : Command E → StateFile → Registry → Type 0
  Taken c file n = (next : StateFile) × (apply parses E c file ≡ ok next) × Shows parses E next n

  pub Step-create :
      (r : SandboxRecord) (file : StateFile) (m n : Registry)
      → Shows parses E file m
      → m r.id ≡ none
      → IsRecord parses r
      → r.revision ≡ 0
      → ((j : Text) → n j ≡ put r.id (some r) m j)
      → Taken (creating r) file n
  unfolding apply create create_in
  Step-create r file m n (records, e, g) absent v zero h = (
    write (set records r.id r),
    rw
        (
          e,
          has-get records r.id (g r.id ∙ absent),
          validate_valid parses E r v,
          (nat_beq_iff r.revision 0).1 zero,
        )
        refl,
    shown_set parses E records m n r.id r (read-AreKeyed parses file records e) g refl v h,
  )

  Step-swap :
      (id : Text) (revision : ℕ) (update : Update E) (now : Text)
      (current candidate : SandboxRecord) (file : StateFile) (m n : Registry)
      → Shows parses E file m
      → m id ≡ some current
      → current.revision ≡ revision
      → update current ≡ ok candidate
      → candidate.id ≡ id
      → IsRecord parses (stamped revision now candidate)
      → ((j : Text) → n j ≡ put id (some (stamped revision now candidate)) m j)
      → Taken (swapping id revision update now) file n
  unfolding apply compare_and_swap swap_in or_threw
  Step-swap id revision update now current candidate file m n (records, e, g) found fresh updated
        own v h =
      (
        write (set records id (stamped revision now candidate)),
        rw
            (
              e,
              g id,
              found,
              (nat_beq_iff current.revision revision).1 fresh,
              updated,
              (codes_beq_iff candidate.id id).1 own,
              validate_valid parses E (stamped revision now candidate) v,
            )
            refl,
        shown_set parses E records m n id (stamped revision now candidate)
            (read-AreKeyed parses file records e) g (sym own) v h,
      )

  Step-remove :
      (id : Text) (revision : ℕ) (current : SandboxRecord) (file : StateFile) (m n : Registry)
      → Shows parses E file m
      → m id ≡ some current
      → current.revision ≡ revision
      → ((j : Text) → n j ≡ put id none m j)
      → Taken (removing id revision) file n
  unfolding apply remove remove_in
  Step-remove id revision current file m n (records, e, g) found fresh h = (
    write (delete records id),
    rw (e, g id, found, (nat_beq_iff current.revision revision).1 fresh) refl,
    shown_delete parses E records m n id (read-AreKeyed parses file records e) g h,
  )

  Step-apply :
      (c : Command E) (file : StateFile) (m n : Registry)
      → Shows parses E file m
      → Step parses E m c n
      → Taken c file n
  Step-apply _ file m n s (Step.created r absent v zero h) =
      Step-create r file m n s absent v zero h
  Step-apply _ file m n s
        (Step.swapped id revision update now current candidate found fresh updated own v h) =
      Step-swap id revision update now current candidate file m n s found fresh updated own v h
  Step-apply _ file m n s (Step.removed id revision current found fresh h) =
      Step-remove id revision current file m n s found fresh h

  -- For every file that shows records m, and every call: the call succeeds with a new file only by a
  -- step of the specification to records that the new file shows; and every step that the
  -- specification has from m is taken by the call, which then succeeds with a file that shows its end.
  pub apply-refines :
      (c : Command E) (file : StateFile) (m : Registry)
      → Shows parses E file m
      → ((next : StateFile) → apply parses E c file ≡ ok next → Simulates parses E c next m)
        × ((n : Registry) → Step parses E m c n → Taken c file n)
  apply-refines c file m s =
      (λ next h. apply-Step parses E c file next m s h, λ n st. Step-apply c file m n s st)
