-- ===== src/State/Store/Swap.antt =====
-- What a swap of src/state/store.ts that succeeded has done to the file.
use studiobox.Common.{
  ℕ, ◌≡◌, ◌≢◌, refl, sym, ap, subst, ◌∙◌, some, Bool, false, not, arith, nat_beq, nat_beq_iff, ◌==◌,
}
use studiobox.Common.Codes.{codes_eq, codes_beq_iff}
use studiobox.Common.Map.{get, set, get-set, set-Distinct}
use studiobox.Common.Results.{Result, err, ok, throw_if, or_throw, >>=-returned, or_throw-eq-ok}
use studiobox.State.Model.{Text, SandboxRecord}
use studiobox.State.Values.{Checked}
use studiobox.State.Validation.{validate_sandbox_record}
use studiobox.State.Validation.Valid.{IsRecord, raw_record}
use studiobox.State.Store.{
  StoreError, state_conflict, invalid_record, update_threw, StateFile, Records, Update, or_invalid,
  or_threw, write, read, get_record, swap_in, compare_and_swap,
}
use studiobox.State.Store.Read.{ok_injective, guard-eq-ok, set-AreKeyed, read-AreKeyed, read-write}
use studiobox.State.Store.Spec.{stamped}
use studiobox.State.Store.Refinement.{validate_same, or_threw-eq-ok}

module _ (parses : Text → Bool) (E : Type 0) where
  -- The update was made of the record that the file held, and of no other.
  pub record Swapped (id : Text) (update : Update E) (now : Text) (before : StateFile)
      (r : SandboxRecord) (after : StateFile) : Type 0 where
    pub current : SandboxRecord
    pub candidate : SandboxRecord
    pub held : get_record parses {E = E} id before ≡ ok (some current)
    pub updated : update current ≡ ok candidate
    pub same_id : candidate.id ≡ id
    pub result : r ≡ stamped current.revision now candidate
    pub valid : IsRecord parses r
    pub stored : get_record parses {E = E} id after ≡ ok (some r)
    pub others :
        (j : Text)
        → (id == j) ≡ false
        → get_record parses {E = E} j after ≡ get_record parses {E = E} j before

  pub compare_and_swap-Swapped :
      (id : Text) (revision : ℕ) (update : Update E) (now : Text) (before after : StateFile)
      (r : SandboxRecord)
      → compare_and_swap parses id revision update now before ≡ ok (r, after)
      → Swapped id update now before r after
  unfolding compare_and_swap swap_in get_record
  compare_and_swap-Swapped id revision update now before after r h =
      >>=-returned (read parses before) _ h λ records e1 h1.
        >>=-returned (swap_in parses id revision update now records) _ h1 λ pair e2 packed.
          >>=-returned (or_throw (get records id) state_conflict) _ e2 λ current e3 h3.
            >>=-returned (throw_if (not (nat_beq current.revision revision)) state_conflict) _ h3
              λ u1 e4 h4. >>=-returned (or_threw (update current)) _ h4 λ candidate e5 h5.
                >>=-returned (throw_if (not (candidate.id == id)) state_conflict) _ h5 λ u2 e6 h6.
                  >>=-returned
                    (or_invalid (
                      validate_sandbox_record parses (raw_record (stamped revision now candidate))))
                    _ h6
                    λ s e7 done.
                      let found = or_throw-eq-ok (get records id) state_conflict e3 in
                      let valid = validate_same parses E (stamped revision now candidate) s e7 in
                      let fresh =
                        (nat_beq_iff current.revision revision).0
                          (guard-eq-ok _ state_conflict u1 e4) in
                      let own =
                        (codes_beq_iff candidate.id id).0 (guard-eq-ok _ state_conflict u2 e6) in
                      let keyed = read-AreKeyed parses before records e1 in
                      let pairs = ok_injective done in
                      let results = ok_injective packed in
                      let s_is_r : s ≡ r =
                        ap (λ (p : SandboxRecord × Records). p.0) pairs
                        ∙ ap (λ (p : SandboxRecord × StateFile). p.0) results in
                      let file_is : write (set records id s) ≡ after =
                        ap (λ (p : SandboxRecord × Records). write p.1) pairs
                        ∙ ap (λ (p : SandboxRecord × StateFile). p.1) results in
                      let s_valid : IsRecord parses s =
                        subst (IsRecord parses) (sym valid.0) valid.1 in
                      let s_id : id ≡ s.id =
                        sym own ∙ ap (λ (x : SandboxRecord). x.id) (sym valid.0) in
                      let back =
                        read-write parses {E = E} (set records id s)
                          (set-AreKeyed parses records id s keyed.0 s_id s_valid)
                          (set-Distinct records id s keyed.1) in
                      record {
                        current = current;
                        candidate = candidate;
                        held = rw (e1, found) refl;
                        updated = or_threw-eq-ok _ candidate e5;
                        same_id = own;
                        result =
                            sym s_is_r ∙ valid.0 ∙ ap (λ n. stamped n now candidate) (sym fresh);
                        valid = subst (IsRecord parses) s_is_r s_valid;
                        stored =
                            rw (← file_is, back)
                              (ap ok (
                                ground (arith, get-set records id id s, codes_beq_iff id id)
                                ∙ ap some s_is_r));
                        others = λ j apart.
                            rw (← file_is, back, e1)
                              (ap ok (ground (arith, get-set records id j s, apart)));
                      }

  pub get_record-eq-some :
      (id : Text) (file : StateFile) (r : SandboxRecord)
      → get_record parses {E = E} id file ≡ ok (some r)
      → (records : Records) × (read parses {E = E} file ≡ ok records) × (get records id ≡ some r)
  unfolding get_record
  get_record-eq-some id file r h =
      >>=-returned (read parses file) _ h λ records e last. (records, e, ok_injective last)

  -- A swap that expects the revision which the file holds meets no conflict.
  module _ (id : Text) (update : Update E) (now : Text) (file : StateFile)
      (current : SandboxRecord) where
    abbrev Attempt : Result (StoreError E) (SandboxRecord × StateFile)
    Attempt = compare_and_swap parses id current.revision update now file

    threw_first :
        (e : E)
        → get_record parses {E = E} id file ≡ ok (some current)
        → update current ≡ err e
        → Attempt ≡ err (update_threw e)
    unfolding compare_and_swap swap_in or_threw
    threw_first e held threw =
        let (records, loaded, found) = get_record-eq-some id file current held in
        rw (loaded, found, (nat_beq_iff current.revision current.revision).1 refl, threw) refl

    validated_last :
        (c : SandboxRecord) (v : Checked SandboxRecord)
        → get_record parses {E = E} id file ≡ ok (some current)
        → update current ≡ ok c
        → c.id ≡ id
        → validate_sandbox_record parses (raw_record (stamped current.revision now c)) ≡ v
        → Attempt ≢ err state_conflict
    unfolding compare_and_swap swap_in or_threw or_invalid
    validated_last c (err t) held updated same checked h =
        let (records, loaded, found) = get_record-eq-some id file current held in
        let invalid : Attempt ≡ err invalid_record =
          rw
            (
              loaded,
              found,
              (nat_beq_iff current.revision current.revision).1 refl,
              updated,
              (codes_beq_iff c.id id).1 same,
              checked,
            )
            refl in
        ground (arith, h, invalid)
    validated_last c (ok s) held updated same checked h =
        let (records, loaded, found) = get_record-eq-some id file current held in
        let done : Attempt ≡ ok (s, write (set records id s)) =
          rw
            (
              loaded,
              found,
              (nat_beq_iff current.revision current.revision).1 refl,
              updated,
              (codes_beq_iff c.id id).1 same,
              checked,
            )
            refl in
        ground (arith, h, done)

    fresh_attempt :
        (u : Result E SandboxRecord)
        → get_record parses {E = E} id file ≡ ok (some current)
        → update current ≡ u
        → ((c : SandboxRecord) → update current ≡ ok c → c.id ≡ id)
        → Attempt ≢ err state_conflict
    fresh_attempt (err e) held updated keeps h = ground (arith, h, threw_first e held updated)
    fresh_attempt (ok c) held updated keeps h =
        validated_last c
          (validate_sandbox_record parses (raw_record (stamped current.revision now c))) held
          updated (keeps c updated) refl h

    pub compare_and_swap_fresh :
        get_record parses {E = E} id file ≡ ok (some current)
        → ((c : SandboxRecord) → update current ≡ ok c → c.id ≡ id)
        → compare_and_swap parses id current.revision update now file ≢ err state_conflict
    compare_and_swap_fresh held keeps = fresh_attempt (update current) held refl keeps
