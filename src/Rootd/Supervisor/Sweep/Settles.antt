-- ===== src/Rootd/Supervisor/Sweep/Settles.antt =====
-- A sweep of src/rootd/supervisor_core.ts that returns has brought every open record to an end, and has
-- left the others alone.
use studiobox.Common.{
  ℕ, ◌+◌, ◌≡◌, ◌≢◌, inl, inr, refl, sym, ap, subst, ◌∙◌, Option, none, some, Bool, true, List, [],
  ◌∷◌, arith, Bool-cases, ◌==◌, length,
}
use studiobox.Common.Codes.{codes_eq, codes_beq_iff}
use studiobox.Common.Map.{Map, get}
use studiobox.Common.Results.{ok, >>=-returned}
use studiobox.State.Model.{Text, SandboxRecord}
use studiobox.State.Store.{StateFile, list, read}
use studiobox.State.Store.Read.{ok_injective, get-AreKeyed, read-AreKeyed}
use studiobox.State.Store.Swap.{get_record-eq-some}
use studiobox.Rootd.Supervisor.Journal.{Fault, is_terminal}
use studiobox.Rootd.Supervisor.Bridges.{SupervisorCore}
use studiobox.Rootd.Supervisor.Sweep.{
  ReconcileSummary, filter_open, write_of, count_in, write_alone, mark_each, detail_of, settle_each,
  sweep_open, reconcile_sweep,
}
use studiobox.Rootd.Supervisor.Registry.{PackageCall, package_sweep}
use studiobox.Rootd.Supervisor.Registry.Owning.{IsSame}
use studiobox.Rootd.Supervisor.Registry.Changes.{IsSpared, package_sweep-kept}
use studiobox.Rootd.Supervisor.Sweep.Members.{
  Member, filter_open-Member, Member-filter_open, values, get-Member, Member-get,
}
use studiobox.Rootd.Supervisor.Sweep.Writes.{
  IsHeld, HasEnded, write_alone-IsHeld, write_alone-HasEnded, HasEnded-kept, NoneIs,
  mark_each-IsHeld,
}

module _ (parses : Text → Bool) (now : Text) where
  module _ (failures : Map Text Text) (hooks : Text → Option Text) where
    settle_each-IsHeld :
        (rs : List SandboxRecord) (s : ReconcileSummary) (id : Text) (r : SandboxRecord)
        (file after : StateFile) (total : ReconcileSummary)
        → NoneIs parses now id rs
        → settle_each parses now failures hooks rs s file ≡ ok (total, after)
        → IsHeld parses now id r file
        → IsHeld parses now id r after
    unfolding settle_each
    settle_each-IsHeld [] s id r file after total none_is h held =
        subst (IsHeld parses now id r)
          (ap (λ (p : ReconcileSummary × StateFile). p.1) (ok_injective h)) held
    settle_each-IsHeld (x ∷ rs) s id r file after total none_is h held =
        >>=-returned
          (write_alone parses now x.id (write_of (detail_of parses now failures hooks x)) file) _ h
          λ next e last.
            settle_each-IsHeld rs _ id r next after total none_is.1 last
              (write_alone-IsHeld parses now x.id id _ r file next none_is.0 e held)

    settle_each-kept :
        (rs : List SandboxRecord) (s : ReconcileSummary) (id : Text) (file after : StateFile)
        (total : ReconcileSummary)
        → settle_each parses now failures hooks rs s file ≡ ok (total, after)
        → HasEnded parses now id file
        → HasEnded parses now id after
    unfolding settle_each
    settle_each-kept [] s id file after total h ended =
        subst (HasEnded parses now id)
          (ap (λ (p : ReconcileSummary × StateFile). p.1) (ok_injective h)) ended
    settle_each-kept (x ∷ rs) s id file after total h ended =
        >>=-returned
          (write_alone parses now x.id (write_of (detail_of parses now failures hooks x)) file) _ h
          λ next e last.
            settle_each-kept rs _ id next after total last
              (HasEnded-kept parses now x.id id _ file next e ended)

    settle_each-HasEnded :
        (rs : List SandboxRecord) (s : ReconcileSummary) (r : SandboxRecord)
        (file after : StateFile) (total : ReconcileSummary)
        → Member r rs
        → settle_each parses now failures hooks rs s file ≡ ok (total, after)
        → HasEnded parses now r.id after
    unfolding settle_each
    settle_each-HasEnded [] s r file after total m h = absurd m
    settle_each-HasEnded (x ∷ rs) s r file after total m h =
        >>=-returned
          (write_alone parses now x.id (write_of (detail_of parses now failures hooks x)) file) _ h
          λ next e last. elim m [
            | inl same ↦
                subst (λ (y : SandboxRecord). HasEnded parses now y.id after) same
                  (settle_each-kept rs _ x.id next after total last
                    (write_alone-HasEnded parses now x.id _ file next e))
            | inr later ↦ settle_each-HasEnded rs _ r next after total later last
          ]

    count_in-total :
        (r : SandboxRecord) (detail : Option Text) (s : ReconcileSummary)
        → ((count_in r detail s).reclaimed + (count_in r detail s).quarantined
            ≡ s.reclaimed + s.quarantined + 1)
          × ((count_in r detail s).examined ≡ s.examined)
    unfolding count_in
    count_in-total r none s = omega arith
    count_in-total r (some d) s = omega arith

    settle_each-total :
        (rs : List SandboxRecord) (s : ReconcileSummary) (file after : StateFile)
        (total : ReconcileSummary)
        → settle_each parses now failures hooks rs s file ≡ ok (total, after)
        → (total.reclaimed + total.quarantined ≡ s.reclaimed + s.quarantined + length rs)
          × (total.examined ≡ s.examined)
    unfolding settle_each
    settle_each-total [] s file after total h =
        subst
          (λ (t : ReconcileSummary).
            (t.reclaimed + t.quarantined ≡ s.reclaimed + s.quarantined + 0)
            × (t.examined ≡ s.examined))
          (ap (λ (p : ReconcileSummary × StateFile). p.0) (ok_injective h)) (omega arith, refl)
    settle_each-total (x ∷ rs) s file after total h =
        >>=-returned
          (write_alone parses now x.id (write_of (detail_of parses now failures hooks x)) file) _ h
          λ next e last.
            let here = count_in-total x (detail_of parses now failures hooks x) s in
            let rest =
              settle_each-total rs (count_in x (detail_of parses now failures hooks x) s) next after
                total last in
            (omega (arith, here.0, rest.0), rest.1 ∙ here.1)

    NoneIs-open :
        (id : Text) (rs : List SandboxRecord)
        → ((x : SandboxRecord) → Member x rs → x.id ≢ id)
        → NoneIs parses now id rs
    NoneIs-open id [] h = tt
    NoneIs-open id (x ∷ rs) h = (
      elim (Bool-cases (x.id == id)) [
        | inl same ↦ absurd (h x (inl refl) ((codes_beq_iff x.id id).0 same))
        | inr other ↦ other
      ],
      NoneIs-open id rs (λ y m. h y (inr m)),
    )

    -- The record is kept by the package's sweep, with the calls that it makes.
    abbrev pub IsKept : List PackageCall → Text → SandboxRecord → StateFile → Type 0
    IsKept calls id r after =
        (r' : SandboxRecord) × IsHeld parses now id r' after
        × IsSame r r'
        × (IsSpared r calls → r' ≡ r)

    -- What a sweep that returns has done to a record, and what it counts.
    abbrev pub IsSwept :
        List PackageCall → List SandboxRecord → StateFile → ReconcileSummary → StateFile → Type 0
    IsSwept calls rs file total after =
        ((r : SandboxRecord) → Member r rs → HasEnded parses now r.id after)
        × ((id : Text) (r : SandboxRecord)
            → NoneIs parses now id rs
            → IsHeld parses now id r file
            → IsKept calls id r after)
        × (total.reclaimed + total.quarantined ≡ total.examined)

    sweep_open-IsSwept :
        (sort : List SandboxRecord → List SandboxRecord) (calls : List PackageCall) (killed : ℕ)
        (rs : List SandboxRecord) (file after : StateFile) (core left : SupervisorCore)
        (total : ReconcileSummary)
        → sweep_open parses now failures hooks
            (package_sweep parses now sort calls)
            killed
            rs
            file
            core
          ≡ ok (total, after, left)
        → IsSwept calls rs file total after
    unfolding sweep_open
    sweep_open-IsSwept sort calls killed [] file after core left total h =
        let e = ok_injective h in
        let same = ap (λ (p : ReconcileSummary × StateFile × SupervisorCore). p.1) e in
        (
          λ r m. absurd m,
          λ id r none_is held. (
            r,
            subst (IsHeld parses now id r) same held,
            (refl, refl, refl, refl, refl),
            λ spared. refl,
          ),
          subst (λ (t : ReconcileSummary). t.reclaimed + t.quarantined ≡ t.examined)
              (ap (λ (p : ReconcileSummary × StateFile × SupervisorCore). p.0) e) refl,
        )
    sweep_open-IsSwept sort calls killed (x ∷ xs) file after core left total h =
        >>=-returned (mark_each parses now (x ∷ xs) file) _ h λ marked e1 h1.
          let worked = package_sweep parses now sort calls marked in
          >>=-returned (settle_each parses now failures hooks (x ∷ xs) _ worked) _ h1
            λ settled e2 last.
              let e = ok_injective last in
              let total_is = ap (λ (p : ReconcileSummary × StateFile × SupervisorCore). p.0) e in
              let after_is = ap (λ (p : ReconcileSummary × StateFile × SupervisorCore). p.1) e in
              let counts = settle_each-total (x ∷ xs) _ worked settled.1 settled.0 e2 in
              (
                λ r m.
                    subst (HasEnded parses now r.id) after_is
                      (settle_each-HasEnded (x ∷ xs) _ r worked settled.1 settled.0 m e2),
                λ id r none_is held.
                    let (r', held', same, spared) =
                      package_sweep-kept parses now sort calls marked id r
                        (mark_each-IsHeld parses now (x ∷ xs) id r file marked none_is e1 held) in
                    (
                      r',
                      subst (IsHeld parses now id r') after_is (
                          settle_each-IsHeld (x ∷ xs) _ id r' worked settled.1 settled.0 none_is e2
                            held'),
                      same,
                      spared,
                    ),
                subst (λ (t : ReconcileSummary). t.reclaimed + t.quarantined ≡ t.examined) total_is
                    (omega (arith, counts.0, counts.1)),
              )

    -- For every journal and every calls of the package's sweep on the journal of its machines, where a
    -- sweep returns, with a sort that neither drops nor adds a record: every record of the journal is
    -- still there and is terminated or quarantined. One that was so before has the phase, reason,
    -- resources, artifact and owner that it had, and is unchanged if no call names its execution. The
    -- reclaimed and the quarantined together are those examined.
    pub sweep_settles :
        (sort : List SandboxRecord → List SandboxRecord) (calls : List PackageCall) (killed : ℕ)
        (file after : StateFile) (core left : SupervisorCore) (total : ReconcileSummary)
        → ((xs : List SandboxRecord) (r : SandboxRecord) → Member r xs → Member r (sort xs))
        → ((xs : List SandboxRecord) (r : SandboxRecord) → Member r (sort xs) → Member r xs)
        → reconcile_sweep parses now failures hooks sort calls killed file core
          ≡ ok (total, after, left)
        → ((id : Text) (r : SandboxRecord)
            → IsHeld parses now id r file
            → HasEnded parses now id after × (is_terminal r.phase ≡ true → IsKept calls id r after))
          × (total.reclaimed + total.quarantined ≡ total.examined)
    unfolding reconcile_sweep list
    sweep_settles sort calls killed file after core left total keeps adds_none h =
        >>=-returned (list parses sort file) _ h λ sorted e1 h1.
          >>=-returned (read parses file) _ e1 λ records e2 last.
            let sorted_is = ok_injective last in
            let keyed = read-AreKeyed parses file records e2 in
            let (ended, kept, counts) =
              sweep_open-IsSwept sort calls killed (filter_open sorted) file after core left total
                h1 in
            (
              λ id r held.
                  let (records', loaded, found') = get_record-eq-some parses Fault id file r held in
                  let same : records' ≡ records = ok_injective (sym loaded ∙ e2) in
                  let found : get records id ≡ some r =
                    subst (λ m. get m id ≡ some r) same found' in
                  let own = (get-AreKeyed parses records id r keyed.0 found).0 in
                  elim (Bool-cases (is_terminal r.phase)) [
                    | inl terminal ↦
                        let apart = NoneIs-open id (filter_open sorted) (λ x m e.
                          let (listed, still_open) = Member-filter_open x sorted m in
                          let x_found = Member-get parses records x keyed.0 keyed.1 (
                            adds_none (values records) x
                              (subst (Member x) (sym sorted_is) listed)) in
                          let both : some x ≡ some r = sym x_found ∙ ap (get records) e ∙ found in
                          let one : x ≡ r = cc in
                          ground (
                            arith,
                            ap (λ (y : SandboxRecord). is_terminal y.phase) one,
                            still_open,
                            terminal,
                          )) in
                        let (r', stays, same_r, spared) = kept id r apart held in
                        (
                          (r', stays, ap (λ p. is_terminal p) same_r.0 ∙ terminal),
                          λ t. (r', stays, same_r, spared),
                        )
                    | inr opened ↦ (
                      subst (λ j. HasEnded parses now j after) (sym own)
                          (ended r (
                            filter_open-Member r sorted
                              (subst (Member r) sorted_is
                                (keeps (values records) r (get-Member records id r found)))
                              opened)),
                      λ t. absurd (ground (arith, t, opened)),
                    )
                  ],
              counts,
            )
