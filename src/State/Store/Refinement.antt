-- ===== src/State/Store/Refinement.antt =====
-- The file of src/state/store.ts implements its specification.
use studiobox.Common.{
  ℕ, ◌≡◌, refl, sym, ap, subst, ◌∙◌, none, some, Bool, true, false, not, arith, nat_beq,
  nat_beq_iff, ◌==◌,
}
use studiobox.Common.Codes.{codes_eq, codes_beq_iff}
use studiobox.Common.Map.{
  get, has, set, delete, Distinct, get-set, get-delete, get-has, set-Distinct, delete-Distinct,
}
use studiobox.Common.Results.{Result, err, ok, throw_if, or_throw, >>=-returned, or_throw-eq-ok}
use studiobox.State.Model.{Text, SandboxRecord}
use studiobox.State.Validation.{validate_sandbox_record}
use studiobox.State.Validation.Valid.{IsRecord, raw_record}
use studiobox.State.Validation.Record.{validate_sandbox_record_exact}
use studiobox.State.Validation.Injective.{raw_record_injective}
use studiobox.State.Store.{
  state_conflict, StateFile, Records, Update, or_invalid, or_threw, write, read, create_in, create,
  swap_in, compare_and_swap, remove_in, remove,
}
use studiobox.State.Store.Read.{
  ok_injective, or_invalid-eq-ok, guard-eq-ok, AreKeyed, set-AreKeyed, delete-AreKeyed,
  read-AreKeyed, read-write,
}
use studiobox.State.Store.Spec.{
  Registry, put, stamped, Command, creating, swapping, removing, apply, Step, Shows,
}

unused_guard : {T : Type 0} (b : Bool) (t : T) (u : Unit {0}) → throw_if b t ≡ ok u → b ≡ false
unused_guard false t u h = refl
unused_guard true t u h = cc

pub or_threw-eq-ok {ℓ} :
    {E : Type 0} {A : Type ℓ} (x : Result E A) (a : A) → or_threw x ≡ ok a → x ≡ ok a
unfolding or_threw
or_threw-eq-ok (err t) a h = cc
or_threw-eq-ok (ok b) a h = cc

module _ (parses : Text → Bool) (E : Type 0) where
  -- Validation returns a record as it is.
  pub validate_same :
      (r s : SandboxRecord)
      → or_invalid {E = E} (validate_sandbox_record parses (raw_record r)) ≡ ok s
      → (s ≡ r) × IsRecord parses r
  validate_same r s h =
      let found =
        (validate_sandbox_record_exact parses (raw_record r) s).0 (or_invalid-eq-ok _ s h) in
      let same = raw_record_injective r s found.0 in
      (sym same, subst (IsRecord parses) (sym same) found.1)

  pub validate_valid :
      (r : SandboxRecord)
      → IsRecord parses r
      → or_invalid {E = E} (validate_sandbox_record parses (raw_record r)) ≡ ok r
  unfolding or_invalid
  validate_valid r v = rw ((validate_sandbox_record_exact parses (raw_record r) r).1 (refl, v)) refl

  -- Written records are shown by their file.
  shown :
      (records : Records) (m : Registry)
      → AreKeyed parses records
      → Distinct records
      → ((id : Text) → get records id ≡ m id)
      → Shows parses E (write records) m
  shown records m k d g = (records, read-write parses records k d, g)

  pub shown_set :
      (records : Records) (m n : Registry) (id : Text) (r : SandboxRecord)
      → AreKeyed parses records × Distinct records
      → ((j : Text) → get records j ≡ m j)
      → id ≡ r.id
      → IsRecord parses r
      → ((j : Text) → n j ≡ put id (some r) m j)
      → Shows parses E (write (set records id r)) n
  shown_set records m n id r k g e v h =
      shown (set records id r) n (set-AreKeyed parses records id r k.0 e v)
        (set-Distinct records id r k.1) (λ j. ground (arith, get-set records id j r, g j, h j))

  pub shown_delete :
      (records : Records) (m n : Registry) (id : Text)
      → AreKeyed parses records × Distinct records
      → ((j : Text) → get records j ≡ m j)
      → ((j : Text) → n j ≡ put id none m j)
      → Shows parses E (write (delete records id)) n
  shown_delete records m n id k g h =
      shown (delete records id) n (delete-AreKeyed parses records id k.0)
        (delete-Distinct records id k.1) (λ j. ground (arith, get-delete records id j, g j, h j))

  -- What a call does to a file that shows some records.
  abbrev pub Simulates : Command E → StateFile → Registry → Type 0
  Simulates c next m = (n : Registry) × Step parses E m c n × Shows parses E next n

  create-Step :
      (r : SandboxRecord) (file next : StateFile) (m : Registry)
      → Shows parses E file m
      → create parses {E = E} r file ≡ ok next
      → Simulates (creating r) next m
  unfolding create create_in
  create-Step r file next m (records, e, g) h = >>=-returned (read parses file) _ h λ loaded e1 h1.
      >>=-returned (create_in parses r loaded) _ h1 λ changed e2 last.
        >>=-returned (throw_if (has loaded r.id) state_conflict) _ e2 λ u1 e3 h3.
          >>=-returned (or_invalid (validate_sandbox_record parses (raw_record r))) _ h3 λ s e4 h4.
            >>=-returned (throw_if (not (nat_beq s.revision 0)) state_conflict) _ h4 λ u2 e5 done.
              let same_records : loaded ≡ records = ok_injective (sym e1 ∙ e) in
              let absent = get-has loaded r.id (unused_guard _ state_conflict u1 e3) in
              let valid = validate_same r s e4 in
              let zero = (nat_beq_iff s.revision 0).0 (guard-eq-ok _ state_conflict u2 e5) in
              let n : Registry = put r.id (some r) m in
              let file_eq : write (set records r.id r) ≡ next =
                rw (← valid.0, ← same_records) (cc) in
              (
                n,
                Step.created r (sym (g r.id) ∙ rw (← same_records) absent) valid.1
                    (sym (ap (λ (x : SandboxRecord). x.revision) valid.0) ∙ zero) (λ j. refl),
                subst (λ file. Shows parses E file n) file_eq
                    (shown_set records m n r.id r (read-AreKeyed parses file records e) g refl
                      valid.1 (λ j. refl)),
              )

  swap-Step :
      (id : Text) (revision : ℕ) (update : Update E) (now : Text) (file next : StateFile)
      (m : Registry)
      → Shows parses E file m
      → apply parses E (swapping id revision update now) file ≡ ok next
      → Simulates (swapping id revision update now) next m
  unfolding apply compare_and_swap swap_in
  swap-Step id revision update now file next m (records, e, g) h =
      >>=-returned (compare_and_swap parses id revision update now file) _ h λ both whole last.
        >>=-returned (read parses file) _ whole λ loaded e1 h1.
          >>=-returned (swap_in parses id revision update now loaded) _ h1 λ pair e2 packed.
            >>=-returned (or_throw (get loaded id) state_conflict) _ e2 λ current e3 h3.
              >>=-returned (throw_if (not (nat_beq current.revision revision)) state_conflict) _ h3
                λ u1 e4 h4. >>=-returned (or_threw (update current)) _ h4 λ candidate e5 h5.
                  >>=-returned (throw_if (not (candidate.id == id)) state_conflict) _ h5 λ u2 e6 h6.
                    >>=-returned
                      (or_invalid (
                        validate_sandbox_record parses
                          (raw_record (stamped revision now candidate))))
                      _ h6
                      λ s e7 done.
                        let same_records : loaded ≡ records = ok_injective (sym e1 ∙ e) in
                        let found = or_throw-eq-ok (get loaded id) state_conflict e3 in
                        let valid = validate_same (stamped revision now candidate) s e7 in
                        let fresh =
                          (nat_beq_iff current.revision revision).0
                            (guard-eq-ok _ state_conflict u1 e4) in
                        let own =
                          (codes_beq_iff candidate.id id).0 (guard-eq-ok _ state_conflict u2 e6) in
                        let n : Registry = put id (some (stamped revision now candidate)) m in
                        let file_eq : write (set records id (stamped revision now candidate))
                            ≡ next =
                          rw (← valid.0, ← same_records) (cc) in
                        (
                          n,
                          Step.swapped id revision update now current candidate
                              (sym (g id) ∙ rw (← same_records) found) fresh
                              (or_threw-eq-ok _ candidate e5) own valid.1 (λ j. refl),
                          subst (λ file. Shows parses E file n) file_eq
                              (shown_set records m n id (stamped revision now candidate)
                                (read-AreKeyed parses file records e) g (sym own) valid.1
                                (λ j. refl)),
                        )

  remove-Step :
      (id : Text) (revision : ℕ) (file next : StateFile) (m : Registry)
      → Shows parses E file m
      → remove parses {E = E} id revision file ≡ ok next
      → Simulates (removing id revision) next m
  unfolding remove remove_in
  remove-Step id revision file next m (records, e, g) h =
      >>=-returned (read parses file) _ h λ loaded e1 h1.
        >>=-returned (remove_in parses id revision loaded) _ h1 λ changed e2 last.
          >>=-returned (or_throw (get loaded id) state_conflict) _ e2 λ current e3 h3.
            >>=-returned (throw_if (not (nat_beq current.revision revision)) state_conflict) _ h3
              λ u1 e4 done.
                let same_records : loaded ≡ records = ok_injective (sym e1 ∙ e) in
                let found = or_throw-eq-ok (get loaded id) state_conflict e3 in
                let fresh =
                  (nat_beq_iff current.revision revision).0 (guard-eq-ok _ state_conflict u1 e4) in
                let n : Registry = put id none m in
                let file_eq : write (delete records id) ≡ next = rw (← same_records) (cc) in
                (
                  n,
                  Step.removed id revision current (sym (g id) ∙ rw (← same_records) found) fresh
                      (λ j. refl),
                  subst (λ file. Shows parses E file n) file_eq
                      (shown_delete records m n id (read-AreKeyed parses file records e) g
                        (λ j. refl)),
                )

  pub apply-Step :
      (c : Command E) (file next : StateFile) (m : Registry)
      → Shows parses E file m
      → apply parses E c file ≡ ok next
      → Simulates c next m
  unfolding apply
  apply-Step (creating r) file next m s h = create-Step r file next m s h
  apply-Step (swapping id revision update now) file next m s h =
      swap-Step id revision update now file next m s h
  apply-Step (removing id revision) file next m s h = remove-Step id revision file next m s h
