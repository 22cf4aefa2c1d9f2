-- ===== src/State/Store/Read.antt =====
-- Reading and writing the file of src/state/store.ts: what is read is valid, and what is written is
-- read back.
use studiobox.Common.{
  ◌≡◌, refl, sym, ap, ◌∙◌, subst, none, some, Bool, true, false, not, List, [], ◌∷◌, ◌++◌, map,
  arith, ◌==◌, Bool-cases, inl, inr,
}
use studiobox.Common.Codes.{codes_eq, codes_beq_iff}
use studiobox.Common.Map.{Map, get, set, delete, Distinct, set-Distinct, get-set}
use studiobox.Common.Results.{Result, err, ok, throw_if, >>=-returned}
use studiobox.State.Model.{Text, SandboxRecord}
use studiobox.State.Values.{Slot}
use studiobox.State.Raw.{RawRecord}
use studiobox.State.Validation.{validate_sandbox_record}
use studiobox.State.Validation.Valid.{IsRecord, raw_record}
use studiobox.State.Validation.Record.{validate_sandbox_record_exact}
use studiobox.State.Store.{
  state_corrupt, StateFile, missing, malformed, entries, Records, or_corrupt, or_invalid, write,
  write_entry, read_entries, read,
}
use mathlib.Core.List.{append-nil, append_assoc}

pub ok_injective {ℓ} :
    {T : Type 0} {A : Type ℓ} {a b : A} → ◌≡◌ {A = Result T A} (ok a) (ok b) → a ≡ b
ok_injective h = cc

pub or_corrupt-eq-ok {ℓ} :
    {E T : Type 0} {A : Type ℓ} (x : Result T A) (a : A) → or_corrupt {E = E} x ≡ ok a → x ≡ ok a
unfolding or_corrupt
or_corrupt-eq-ok (err t) a h = cc
or_corrupt-eq-ok (ok b) a h = cc

pub or_invalid-eq-ok {ℓ} :
    {E T : Type 0} {A : Type ℓ} (x : Result T A) (a : A) → or_invalid {E = E} x ≡ ok a → x ≡ ok a
unfolding or_invalid
or_invalid-eq-ok (err t) a h = cc
or_invalid-eq-ok (ok b) a h = cc

pub guard-eq-ok :
    {T : Type 0} (b : Bool) (t : T) (u : Unit {0}) → throw_if (not b) t ≡ ok u → b ≡ true
guard-eq-ok true t u h = refl
guard-eq-ok false t u h = cc

-- A new key is appended.
set_new :
    {V : Type 0} (records : Map Text V) (id : Text) (v : V)
    → get records id ≡ none
    → set records id v ≡ records ++ (id, v) ∷ []
unfolding get set
set_new [] id v h = refl
set_new ((j, w) ∷ rest) id v h = ground (arith, set_new rest id v)

-- The keys of a list stand neither in it twice nor in the records.
abbrev AreNew : Records → Records → Type 0
AreNew [] records = Unit {0}
AreNew ((id, r) ∷ rest) records = (get records id ≡ none) × AreNew rest (set records id r)

-- The same, of the records as they are.
abbrev AllNew : Records → Records → Type 0
AllNew [] records = Unit {0}
AllNew ((id, r) ∷ rest) records = (get records id ≡ none) × AllNew rest records

set-AllNew :
    (more before : Records) (id : Text) (r : SandboxRecord)
    → AllNew more before
    → get more id ≡ none
    → AllNew more (set before id r)
unfolding get
set-AllNew [] before id r a h = tt
set-AllNew ((j, s) ∷ more) before id r a h = (
  ground (arith, get-set before id j r, h, a.0, codes_beq_iff id j, codes_beq_iff j id),
  set-AllNew more before id r a.1 (ground (arith, h)),
)

AllNew-AreNew : (more before : Records) → Distinct more → AllNew more before → AreNew more before
AllNew-AreNew [] before d a = tt
AllNew-AreNew ((id, r) ∷ more) before d a =
    (a.0, AllNew-AreNew more (set before id r) d.1 (set-AllNew more before id r a.1 d.0))

AllNew-empty : (more : Records) → AllNew more []
unfolding get
AllNew-empty [] = tt
AllNew-empty ((id, r) ∷ more) = (refl, AllNew-empty more)

module _ (parses : Text → Bool) where
  -- Every record is valid and stands under its own id.
  abbrev pub AreKeyed : Records → Type 0
  AreKeyed [] = Unit {0}
  AreKeyed ((id, r) ∷ rest) = ((id ≡ r.id) × IsRecord parses r) × AreKeyed rest

  pub set-AreKeyed :
      (records : Records) (id : Text) (r : SandboxRecord)
      → AreKeyed records
      → id ≡ r.id
      → IsRecord parses r
      → AreKeyed (set records id r)
  unfolding set
  set-AreKeyed [] id r h e v = ((e, v), tt)
  set-AreKeyed ((j, s) ∷ rest) id r h e v = elim (Bool-cases (j == id)) [
    | inl same ↦ rw same ((((codes_beq_iff j id).0 same ∙ e, v), h.1))
    | inr other ↦ rw other (h.0, set-AreKeyed rest id r h.1 e v)
  ]

  pub delete-AreKeyed :
      (records : Records) (id : Text) → AreKeyed records → AreKeyed (delete records id)
  unfolding delete
  delete-AreKeyed [] id h = tt
  delete-AreKeyed ((j, s) ∷ rest) id h = elim (Bool-cases (j == id)) [
    | inl same ↦ rw same (delete-AreKeyed rest id h.1)
    | inr other ↦ rw other (h.0, delete-AreKeyed rest id h.1)
  ]

  pub get-AreKeyed :
      (records : Records) (id : Text) (r : SandboxRecord)
      → AreKeyed records
      → get records id ≡ some r
      → (id ≡ r.id) × IsRecord parses r
  unfolding get
  get-AreKeyed [] id r h e = absurd (ground (arith, e))
  get-AreKeyed ((j, s) ∷ rest) id r h e = elim (Bool-cases (j == id)) [
    | inl same ↦
        subst (λ r. (id ≡ r.id) × IsRecord parses r) (ground (arith, e, same))
          (sym ((codes_beq_iff j id).0 same) ∙ h.0.0, h.0.1)
    | inr other ↦ get-AreKeyed rest id r h.1 (ground (arith, e, other))
  ]

  read_entries-AreKeyed :
      {E : Type 0} (es : List (Text × Slot RawRecord)) (records result : Records)
      → AreKeyed records
      → Distinct records
      → read_entries parses {E = E} es records ≡ ok result
      → AreKeyed result × Distinct result
  unfolding read_entries
  read_entries-AreKeyed [] records result k d h =
      subst (λ m. AreKeyed m × Distinct m) (ok_injective h) (k, d)
  read_entries-AreKeyed ((id, v) ∷ es) records result k d h =
      >>=-returned (or_corrupt (validate_sandbox_record parses v)) _ h λ r e h1.
        >>=-returned (throw_if (not (id == r.id)) state_corrupt) _ h1 λ u e1 h2.
          let valid = (validate_sandbox_record_exact parses v r).0 (or_corrupt-eq-ok _ r e) in
          let same = (codes_beq_iff id r.id).0 (guard-eq-ok _ state_corrupt u e1) in
          read_entries-AreKeyed es (set records id r) result
            (set-AreKeyed records id r k same valid.1) (set-Distinct records id r d) h2

  -- What is read from a file is valid, and stands once under its own id.
  pub read-AreKeyed :
      {E : Type 0} (file : StateFile) (records : Records)
      → read parses {E = E} file ≡ ok records
      → AreKeyed records × Distinct records
  unfolding read
  read-AreKeyed missing records h = subst (λ m. AreKeyed m × Distinct m) (ok_injective h) (tt, tt)
  read-AreKeyed malformed records h = absurd (ground (arith, h))
  read-AreKeyed (entries es) records h = read_entries-AreKeyed es [] records tt tt h

  read_entries-write :
      {E : Type 0} (more before : Records)
      → AreKeyed more
      → AreNew more before
      → read_entries parses {E = E} (map write_entry more) before ≡ ok (before ++ more)
  unfolding read_entries write
  read_entries-write [] before k n = ap ok (sym (append-nil before))
  read_entries-write {E} ((id, r) ∷ more) before k n =
      rw
        (
          (validate_sandbox_record_exact parses (raw_record r) r).1 (refl, k.0.1),
          (codes_beq_iff id r.id).1 k.0.0,
          read_entries-write {E = E} more (set before id r) k.1 n.1,
          set_new before id r n.0,
          append_assoc before ((id, r) ∷ []) more,
        )
        refl

  -- Valid records under their own ids are read back as they were written.
  pub read-write :
      {E : Type 0} (records : Records)
      → AreKeyed records
      → Distinct records
      → read parses {E = E} (write records) ≡ ok records
  unfolding read write
  read-write records k d =
      read_entries-write records [] k (AllNew-AreNew records [] d (AllNew-empty records))
