-- ===== src/Rootd/Supervisor/Sweep/Members.antt =====
-- Which records the sweep of src/rootd/supervisor_core.ts goes through.
use studiobox.Common.{
  ◌≡◌, ◌⊎◌, inl, inr, sym, ap, ◌∙◌, some, Bool, false, List, [], ◌∷◌, map, arith, Bool-cases, ◌==◌,
}
use studiobox.Common.Codes.{codes_eq, codes_beq_iff}
use studiobox.Common.Map.{get, Distinct}
use studiobox.State.Model.{Text, SandboxRecord}
use studiobox.State.Store.{Records}
use studiobox.State.Store.Read.{AreKeyed}
use studiobox.Rootd.Supervisor.Journal.{is_terminal}
use studiobox.Rootd.Supervisor.Sweep.{filter_open}

abbrev pub Member : SandboxRecord → List SandboxRecord → Type 0
Member r [] = ⊥
Member r (x ∷ xs) = (x ≡ r) ⊎ Member r xs

pub filter_open-Member :
    (r : SandboxRecord) (xs : List SandboxRecord)
    → Member r xs
    → is_terminal r.phase ≡ false
    → Member r (filter_open xs)
unfolding filter_open
filter_open-Member r [] m h = absurd m
filter_open-Member r (x ∷ xs) (inl e) h =
    let stays : is_terminal x.phase ≡ false =
      ap (λ (y : SandboxRecord). is_terminal y.phase) e ∙ h in
    rw stays (inl e)
filter_open-Member r (x ∷ xs) (inr m) h = elim (Bool-cases (is_terminal x.phase)) [
  | inl gone ↦ rw gone (filter_open-Member r xs m h)
  | inr kept ↦ rw kept (inr (filter_open-Member r xs m h))
]

pub Member-filter_open :
    (r : SandboxRecord) (xs : List SandboxRecord)
    → Member r (filter_open xs)
    → Member r xs × (is_terminal r.phase ≡ false)
unfolding filter_open
Member-filter_open r [] m = absurd m
Member-filter_open r (x ∷ xs) m = elim (Bool-cases (is_terminal x.phase)) [
  | inl gone ↦ let rest = Member-filter_open r xs (rw gone at m) in (inr rest.0, rest.1)
  | inr kept ↦ elim (rw kept at m) [
    | inl e ↦ (inl e, ap (λ (y : SandboxRecord). is_terminal y.phase) (sym e) ∙ kept)
    | inr later ↦ let rest = Member-filter_open r xs later in (inr rest.0, rest.1)
  ]
]

abbrev pub values : Records → List SandboxRecord
values records = map (λ (e : Text × SandboxRecord). e.1) records

pub get-Member :
    (records : Records) (id : Text) (r : SandboxRecord)
    → get records id ≡ some r
    → Member r (values records)
unfolding get
get-Member [] id r h = cc
get-Member ((j, s) ∷ records) id r h = elim (Bool-cases (j == id)) [
  | inl same ↦ inl (ground (arith, h, same))
  | inr other ↦ inr (get-Member records id r (ground (arith, h, other)))
]

module _ (parses : Text → Bool) where
  pub Member-get :
      (records : Records) (r : SandboxRecord)
      → AreKeyed parses records
      → Distinct records
      → Member r (values records)
      → get records r.id ≡ some r
  unfolding get
  Member-get [] r k d m = absurd m
  Member-get ((j, s) ∷ records) r k d (inl e) =
      let own : j ≡ r.id = k.0.0 ∙ ap (λ (x : SandboxRecord). x.id) e in
      rw ((codes_beq_iff j r.id).1 own) (ap some e)
  Member-get ((j, s) ∷ records) r k d (inr m) = elim (Bool-cases (j == r.id)) [
    | inl same ↦
        let e = (codes_beq_iff j r.id).0 same in
        let found = Member-get records r k.1 d.1 m in
        absurd (ground (arith, d.0, ap (λ (i : Text). get records i) e, found))
    | inr other ↦ rw other (Member-get records r k.1 d.1 m)
  ]
