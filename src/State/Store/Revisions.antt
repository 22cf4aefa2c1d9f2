-- ===== src/State/Store/Revisions.antt =====
-- Revisions of src/state/store.ts along a history of calls: of two swaps that expect the same
-- revision, one is refused.
use studiobox.Common.{
  ℕ, ◌+◌, ◌≤◌, ◌≡◌, ◌≢◌, refl, sym, ap, ◌∙◌, Option, some, Bool, false, List, [], ◌∷◌, arith,
  nat_beq, ◌==◌, inl, inr, Bool-cases,
}
use studiobox.Common.Codes.{codes_eq, codes_beq_iff}
use studiobox.Common.Results.{Result, err, ok}
use studiobox.State.Model.{Text, SandboxRecord}
use studiobox.State.Store.{StoreError, state_conflict, StateFile, Update, swap_in, compare_and_swap}
use studiobox.State.Store.Spec.{
  Registry, put, stamped, Command, creating, swapping, removing, apply, Step, Shows,
}
use studiobox.State.Store.Refinement.{apply-Step}

module _ (parses : Text → Bool) (E : Type 0) where
  -- The file that is left: a call that throws leaves it as it was.
  unfoldable pub left : StateFile → Result (StoreError E) StateFile → StateFile
  left file (err e) = file
  left file (ok next) = next

  unfoldable pub run : List (Command E) → StateFile → StateFile
  unfolding left
  run [] file = file
  run (c ∷ cs) file = run cs (left file (apply parses E c file))

  -- The call removes no record under this id.
  abbrev pub Keeps : Text → Command E → Type 0
  Keeps id (creating r) = Unit {0}
  Keeps id (swapping j n update now) = Unit {0}
  Keeps id (removing j n) = j ≢ id

  abbrev pub AllKeep : Text → List (Command E) → Type 0
  AllKeep id [] = Unit {0}
  AllKeep id (c ∷ cs) = Keeps id c × AllKeep id cs

  -- The file shows a record under this id, of this revision or a later one.
  abbrev pub HasReached : Text → ℕ → StateFile → Type 0
  HasReached id k file =
      (m : Registry) × (r : SandboxRecord) × Shows parses E file m
      × (m id ≡ some r)
      × (k ≤ r.revision)

  put_kept :
      (id j : Text) (o : Option SandboxRecord) (m n : Registry) (r s : SandboxRecord)
      → m id ≡ some r
      → (o ≡ some s) × ((j ≡ id) → r.revision ≤ s.revision)
      → n id ≡ put j o m id
      → (t : SandboxRecord) × (n id ≡ some t) × (r.revision ≤ t.revision)
  put_kept id j o m n r s found more h = elim (Bool-cases (j == id)) [
    | inl same ↦ (s, ground (arith, h, same, more.0), more.1 ((codes_beq_iff j id).0 same))
    | inr other ↦ (r, ground (arith, h, other, found), omega arith)
  ]

  Step-revision :
      (id : Text) (c : Command E) (m n : Registry) (r : SandboxRecord)
      → Keeps id c
      → Step parses E m c n
      → m id ≡ some r
      → (s : SandboxRecord) × (n id ≡ some s) × (r.revision ≤ s.revision)
  Step-revision id _ m n r keeps (Step.created t absent v zero h) found =
      put_kept id t.id (some t) m n r t found
        (refl, λ same. ground (arith, ap m same, absent, found)) (h id)
  Step-revision id _ m n r keeps
        (Step.swapped j revision update now current candidate old fresh updated own v h) found =
      put_kept id j (some (stamped revision now candidate)) m n r (stamped revision now candidate)
        found
        (
          refl,
          λ same.
              let both : some current ≡ some r = sym old ∙ ap m same ∙ found in
              let one : current ≡ r = cc in
              omega (arith, ap (λ (x : SandboxRecord). x.revision) one, fresh),
        )
        (h id)
  Step-revision id _ m n r keeps (Step.removed j revision current old fresh h) found =
      (r, ground (arith, h id, codes_beq_iff j id, keeps, found), omega arith)

  left-HasReached :
      (id : Text) (k : ℕ) (c : Command E) (file : StateFile) (o : Result (StoreError E) StateFile)
      → apply parses E c file ≡ o
      → Keeps id c
      → HasReached id k file
      → HasReached id k (left file o)
  unfolding left
  left-HasReached id k c file (err e) h keeps reached = reached
  left-HasReached id k c file (ok next) h keeps (m, r, shows, found, bound) =
      let (n, step, shown) = apply-Step parses E c file next m shows h in
      let (s, here, more) = Step-revision id c m n r keeps step found in
      (n, s, shown, here, omega (arith, more, bound))

  run-HasReached :
      (id : Text) (k : ℕ) (cs : List (Command E)) (file : StateFile)
      → AllKeep id cs
      → HasReached id k file
      → HasReached id k (run cs file)
  unfolding run
  run-HasReached id k [] file keep reached = reached
  run-HasReached id k (c ∷ cs) file keep reached =
      run-HasReached id k cs (left file (apply parses E c file)) keep.1
        (left-HasReached id k c file (apply parses E c file) refl keep.0 reached)

  Step-swapping :
      {m n : Registry} {id : Text} {k : ℕ} {update : Update E} {now : Text}
      → Step parses E m (swapping id k update now) n
      → (s : SandboxRecord) × (n id ≡ some s) × (s.revision ≡ k + 1)
  Step-swapping {m} {n} {id}
        (Step.swapped j revision update now current candidate old fresh updated own v h) =
      (stamped revision now candidate, ground (arith, h j, codes_beq_iff j j), refl)

  swapped-HasReached :
      (id : Text) (k : ℕ) (update : Update E) (now : Text) (file next : StateFile) (m : Registry)
      → Shows parses E file m
      → apply parses E (swapping id k update now) file ≡ ok next
      → HasReached id (k + 1) next
  swapped-HasReached id k update now file next m shows h =
      let (n, step, shown) = apply-Step parses E (swapping id k update now) file next m shows h in
      let (s, here, e) = Step-swapping step in (n, s, shown, here, omega (arith, e))

  HasReached-refused :
      (id : Text) (k : ℕ) (update : Update E) (now : Text) (file : StateFile)
      → HasReached id (k + 1) file
      → apply parses E (swapping id k update now) file ≡ err state_conflict
  unfolding apply compare_and_swap swap_in
  HasReached-refused id k update now file (m, r, (records, e, g), found, bound) =
      let stale : nat_beq r.revision k ≡ false = ground (arith, bound) in
      rw (e, g id, found, stale) refl

  -- For every file that can be read, two swaps of one record that expect the same revision k, and a
  -- history between them that does not remove the record: if the first succeeds, the second is
  -- refused as a conflict.
  pub second_swap_refused :
      (id : Text) (k : ℕ) (first second : Update E) (now later : Text) (cs : List (Command E))
      (file next : StateFile) (m : Registry)
      → Shows parses E file m
      → apply parses E (swapping id k first now) file ≡ ok next
      → AllKeep id cs
      → apply parses E (swapping id k second later) (run cs next) ≡ err state_conflict
  second_swap_refused id k first second now later cs file next m shows h keep =
      HasReached-refused id k second later (run cs next) (
        run-HasReached id (k + 1) cs next keep
          (swapped-HasReached id k first now file next m shows h))
