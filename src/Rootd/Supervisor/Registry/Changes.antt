-- ===== src/Rootd/Supervisor/Registry/Changes.antt =====
-- What the calls of the Firecracker package's sweep leave of the records of the journal.
use studiobox.Common.{
  ℕ, zero, suc, ◌≡◌, ◌⊎◌, inl, inr, refl, sym, ap, subst, ◌∙◌, Option, none, some, Bool, false,
  List, [], ◌∷◌, arith, Bool-cases, ◌==◌,
}
use studiobox.Common.Codes.{codes_eq, codes_beq_iff}
use studiobox.Common.Results.{Result, err, ok}
use studiobox.State.Model.{Text, JailRecordState, SandboxRecord}
use studiobox.State.Store.{
  StoreError, state_conflict, state_corrupt, invalid_record, update_threw, StateFile, Update, list,
  get_record, compare_and_swap,
}
use studiobox.State.Store.Read.{ok_injective}
use studiobox.State.Store.Swap.{Swapped, compare_and_swap-Swapped}
use studiobox.Rootd.Supervisor.Journal.{
  Fault, sup_validation, sup_duplicate, sup_not_found, sup_state, sup_stale, sup_unavailable,
  execution_id_conflict, stale_execution_id, wire_validation, owner,
}
use studiobox.Rootd.Supervisor.Bridges.{is_owned_by}
use studiobox.Rootd.Supervisor.Registry.{
  Change, find_bound, jail_of, if_jailed, after_find, after_search, after_change, change,
  update_jail, remove_jail, PackageCall, updating, removing, called, package_sweep,
}
use studiobox.Rootd.Supervisor.Registry.Owning.{
  IsSame, IsSame-trans, Owning, patch_machine-Owning, release_machine-Owning,
}

-- The execution that a call names.
unfoldable pub named : PackageCall → Text
named (updating execution_id patch timestamp) = execution_id
named (removing execution_id timestamp) = execution_id

-- No call names the execution of the record.
abbrev pub IsSpared : SandboxRecord → List PackageCall → Type 0
IsSpared r [] = Unit {0}
IsSpared r (c ∷ cs) = (is_owned_by (named c) (owner r) ≡ false) × IsSpared r cs

module _ (parses : Text → Bool) (now : Text) (sort : List SandboxRecord → List SandboxRecord) where
  -- The file is as it was, or one record was swapped.
  abbrev Changed : Update Fault → StateFile → StateFile → Type 0
  Changed mutate file after =
      (after ≡ file)
      ⊎ ((id : Text) × (r : SandboxRecord) × Swapped parses Fault id mutate now file r after)

  after_change-Changed :
      (mutate : Update Fault) (id : Text) (revision : ℕ) (retry : Change) (file : StateFile)
      (o : Result (StoreError Fault) (SandboxRecord × StateFile))
      → compare_and_swap parses id revision mutate now file ≡ o
      → Changed mutate file retry.1
      → Changed mutate file (after_change retry file o).1
  unfolding after_change
  after_change-Changed mutate id revision retry file (ok (r, next)) e h =
      inr (id, r, compare_and_swap-Swapped parses Fault id revision mutate now file next r e)
  after_change-Changed mutate id revision retry file (err state_conflict) e h = h
  after_change-Changed mutate id revision retry file (err state_corrupt) e h = inl refl
  after_change-Changed mutate id revision retry file (err invalid_record) e h = inl refl
  after_change-Changed mutate id revision retry file (err (update_threw sup_validation)) e h =
      inl refl
  after_change-Changed mutate id revision retry file (err (update_threw sup_duplicate)) e h =
      inl refl
  after_change-Changed mutate id revision retry file (err (update_threw sup_not_found)) e h =
      inl refl
  after_change-Changed mutate id revision retry file (err (update_threw sup_state)) e h = inl refl
  after_change-Changed mutate id revision retry file (err (update_threw sup_stale)) e h = inl refl
  after_change-Changed mutate id revision retry file (err (update_threw sup_unavailable)) e h =
      inl refl
  after_change-Changed mutate id revision retry file (err (update_threw execution_id_conflict)) e
        h =
      inl refl
  after_change-Changed mutate id revision retry file (err (update_threw stale_execution_id)) e h =
      inl refl
  after_change-Changed mutate id revision retry file (err (update_threw wire_validation)) e h =
      inl refl

  if_jailed-Changed :
      (mutate : Update Fault) (file : StateFile) (swapped kept : Change)
      (o : Option JailRecordState)
      → Changed mutate file swapped.1
      → Changed mutate file kept.1
      → Changed mutate file (if_jailed swapped kept o).1
  unfolding if_jailed
  if_jailed-Changed mutate file swapped kept none s k = k
  if_jailed-Changed mutate file swapped kept (some jail) s k = s

  after_find-Changed :
      (mutate : Update Fault) (swap : SandboxRecord → Change) (file : StateFile)
      (o : Option SandboxRecord)
      → ((r : SandboxRecord) → Changed mutate file (swap r).1)
      → Changed mutate file (after_find swap file o).1
  unfolding after_find
  after_find-Changed mutate swap file none h = inl refl
  after_find-Changed mutate swap file (some r) h =
      if_jailed-Changed mutate file (swap r) (ok false, file) (jail_of r.machine) (h r) (inl refl)

  after_search-Changed :
      (mutate : Update Fault) (swap : SandboxRecord → Change) (execution_id : Text)
      (file : StateFile) (o : Result (StoreError Fault) (List SandboxRecord))
      → ((r : SandboxRecord) → Changed mutate file (swap r).1)
      → Changed mutate file (after_search swap execution_id file o).1
  unfolding after_search
  after_search-Changed mutate swap execution_id file (err e) h = inl refl
  after_search-Changed mutate swap execution_id file (ok records) h =
      after_find-Changed mutate swap file (find_bound execution_id records) h

  change-Changed :
      (mutate : Update Fault) (execution_id : Text) (attempts : ℕ) (file : StateFile)
      → Changed mutate file (change parses now sort (λ n f. f) execution_id mutate attempts file).1
  unfolding change
  change-Changed mutate execution_id zero file = inl refl
  change-Changed mutate execution_id (suc n) file =
      after_search-Changed mutate _ execution_id file (list parses sort file) λ r.
        after_change-Changed mutate r.id r.revision
          (change parses now sort (λ n f. f) execution_id mutate n file) file _ refl
          (change-Changed mutate execution_id n file)

  abbrev Held : Text → SandboxRecord → StateFile → Type 0
  Held id r file = get_record parses {E = Fault} id file ≡ ok (some r)

  -- A record under an id is there with the same content, and unchanged if it is of another execution.
  abbrev Keeps : Text → StateFile → StateFile → Type 0
  Keeps execution_id file after =
      (id : Text) (r : SandboxRecord)
      → Held id r file
      → (r' : SandboxRecord) × Held id r' after
        × IsSame r r'
        × (is_owned_by execution_id (owner r) ≡ false → r' ≡ r)

  Changed-Keeps :
      (execution_id : Text) (mutate : Update Fault) (file after : StateFile)
      → Owning execution_id mutate
      → Changed mutate file after
      → Keeps execution_id file after
  unfolding owner
  Changed-Keeps execution_id mutate file after owning (inl same) id r held =
      (r, subst (Held id r) (sym same) held, (refl, refl, refl, refl, refl), λ other. refl)
  Changed-Keeps execution_id mutate file after owning (inr (at, new, s)) id r held =
      elim (Bool-cases (at == id)) [
        | inr other ↦ (r, s.others id other ∙ held, (refl, refl, refl, refl, refl), λ o. refl)
        | inl same ↦
            let e = (codes_beq_iff at id).0 same in
            let both : some s.current ≡ some r =
              ok_injective (sym s.held ∙ subst (λ i. Held i r file) (sym e) held) in
            let current : s.current ≡ r = cc in
            let (kept, owned) = owning s.current s.candidate s.updated in
            let kept' : IsSame s.current new =
              subst (IsSame s.current) (sym s.result) (kept.0, kept.1, kept.2, kept.3, kept.4) in
            (
              new,
              subst (λ i. Held i new after) e s.stored,
              subst (λ x. IsSame x new) current kept',
              λ foreign. absurd (
                  ground (
                    arith,
                    foreign,
                    owned,
                    ap (λ (x : SandboxRecord). is_owned_by execution_id (owner x)) current,
                  )),
            )
      ]

  called-Keeps :
      (c : PackageCall) (file : StateFile) → Keeps (named c) file (called parses now sort c file)
  unfolding called update_jail remove_jail named
  called-Keeps (updating execution_id patch timestamp) file =
      Changed-Keeps execution_id _ file _ (patch_machine-Owning execution_id patch timestamp)
        (change-Changed _ execution_id 16 file)
  called-Keeps (removing execution_id timestamp) file =
      Changed-Keeps execution_id _ file _ (release_machine-Owning execution_id timestamp)
        (change-Changed _ execution_id 16 file)

  pub package_sweep-kept :
      (cs : List PackageCall) (file : StateFile) (id : Text) (r : SandboxRecord)
      → Held id r file
      → (r' : SandboxRecord) × Held id r' (package_sweep parses now sort cs file)
        × IsSame r r'
        × (IsSpared r cs → r' ≡ r)
  unfolding package_sweep
  package_sweep-kept [] file id r held = (r, held, (refl, refl, refl, refl, refl), λ s. refl)
  package_sweep-kept (c ∷ cs) file id r held =
      let (s, held1, same1, spared1) = called-Keeps c file id r held in
      let (t, held2, same2, spared2) =
        package_sweep-kept cs (called parses now sort c file) id s held1 in
      (
        t,
        held2,
        IsSame-trans r s t same1 same2,
        λ spared.
            let e = spared1 spared.0 in spared2 (subst (λ x. IsSpared x cs) (sym e) spared.1) ∙ e,
      )
