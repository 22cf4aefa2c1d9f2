-- ===== src/State/Validation/Exact.antt =====
-- `validateSandboxRecord` of src/state/model.ts accepts nothing but valid records, and returns them
-- as they are: the assertions on scalars, and on the parts that need no clock.
use studiobox.Common.{
  ℕ, ◌≡◌, refl, ap, subst, Option, some, Bool, true, false, List, [], ◌∷◌, map, arith, Bool-cases,
  inl, inr, nat_beq,
}
use studiobox.Common.Codes.{codes_eq, codes_beq_iff}
use studiobox.Common.Results.{ok, ◌>>=◌, >>=-eq-ok}
use studiobox.Common.JsNumber.{
  JsNumber, nat, frac, negative, infinite, nan, max_safe_integer, safe_nat,
}
use studiobox.State.Model.{
  Text, SandboxPhase, MachineJournalPhase, Arch, aarch64, x86_64, SchemaVersion,
}
use studiobox.State.Values.{
  Value, undefined, null, compound, boolean, number, text, Slot, absent, wrong, object, Array,
  not_array, array, Checked, assert_record, assert_keys, assert_array, assert_unsigned_integer,
  assert_non_negative_integer, assert_text, optional, optional_record, check_each, assert_boolean,
}
use studiobox.State.Grammar.{
  assert_matches, phase_text, find_phase, assert_phase, machine_phase_text, find_machine_phase,
  assert_machine_phase, arch_text, assert_arch, assert_version, sandbox_phases, machine_phases,
}
use studiobox.State.Validation.Valid.{
  IfPresent, AllOf, IsText, IsBounded, Within, or_undefined, if_object, version_number,
}

-- What a check accepts is what `write` gives for a value that satisfies `P`, and it returns that.
abbrev pub Exactly {ℓ κ} :
    {A : Type ℓ} {B : Type κ} → (B → Checked A) → (A → B) → (A → Type 0) → Type (ℓ ⊔ κ)
Exactly {A = A} {B = B} check write P = (b : B) (a : A) → check b ≡ ok a → (b ≡ write a) × P a

pub ok_injective {ℓ} : {A : Type ℓ} {a b : A} → ◌≡◌ {A = Checked A} (ok a) (ok b) → a ≡ b
ok_injective h = cc

pub assert_record_exact {ℓ} :
    {A : Type ℓ} (s : Slot A) (a : A) → assert_record s ≡ ok a → s ≡ object a
unfolding assert_record
assert_record_exact absent a h = cc
assert_record_exact wrong a h = cc
assert_record_exact (object b) a h = cc

pub assert_array_exact {ℓ} :
    {A : Type ℓ} (s : Array A) (a : List A) → assert_array s ≡ ok a → s ≡ array a
unfolding assert_array
assert_array_exact not_array a h = cc
assert_array_exact (array b) a h = cc

pub assert_keys_exact : (keys : List Text) (u : Unit {0}) → assert_keys keys ≡ ok u → keys ≡ []
unfolding assert_keys
assert_keys_exact [] u h = refl
assert_keys_exact (key ∷ keys) u h = cc

safe_nat_exact : (x : JsNumber) (n : ℕ) → safe_nat x ≡ some n → x ≡ nat n
unfolding safe_nat
safe_nat_exact (nat m) n h = ground arith
safe_nat_exact (frac m) n h = cc
safe_nat_exact negative n h = cc
safe_nat_exact infinite n h = cc
safe_nat_exact nan n h = cc

number_exact :
    (high low : ℕ) (x : JsNumber) (n : ℕ)
    → assert_unsigned_integer high low (number x) ≡ ok n
    → (x ≡ nat n) × Within low high n
unfolding assert_unsigned_integer
number_exact high low x n h = ground (arith, safe_nat_exact x n)

pub assert_unsigned_integer_exact :
    (high low : ℕ)
    → Exactly (assert_unsigned_integer high low) (λ n. number (nat n)) (Within low high)
unfolding assert_unsigned_integer
assert_unsigned_integer_exact high low undefined n h = cc
assert_unsigned_integer_exact high low null n h = cc
assert_unsigned_integer_exact high low compound n h = cc
assert_unsigned_integer_exact high low (boolean b) n h = cc
assert_unsigned_integer_exact high low (number x) n h =
    let found = number_exact high low x n h in (ap number found.0, found.1)
assert_unsigned_integer_exact high low (text cs) n h = cc

pub assert_non_negative_integer_exact :
    Exactly assert_non_negative_integer (λ n. number (nat n)) (Within 0 max_safe_integer)
unfolding assert_non_negative_integer
assert_non_negative_integer_exact v n h = assert_unsigned_integer_exact max_safe_integer 0 v n h

pub assert_text_exact : (n : ℕ) → Exactly (assert_text n false) text (IsText n)
unfolding assert_text
assert_text_exact n undefined cs h = cc
assert_text_exact n null cs h = cc
assert_text_exact n compound cs h = cc
assert_text_exact n (boolean b) cs h = cc
assert_text_exact n (number x) cs h = cc
assert_text_exact n (text ds) cs h = ground arith

pub assert_text-IsBounded : (n : ℕ) → Exactly (assert_text n true) text (IsBounded n)
unfolding assert_text
assert_text-IsBounded n undefined cs h = cc
assert_text-IsBounded n null cs h = cc
assert_text-IsBounded n compound cs h = cc
assert_text-IsBounded n (boolean b) cs h = cc
assert_text-IsBounded n (number x) cs h = cc
assert_text-IsBounded n (text ds) cs h = ground arith

pub assert_boolean_exact : Exactly assert_boolean boolean (λ b. Unit {0})
unfolding assert_boolean
assert_boolean_exact undefined b h = cc
assert_boolean_exact null b h = cc
assert_boolean_exact compound b h = cc
assert_boolean_exact (boolean c) b h = (cc, tt)
assert_boolean_exact (number x) b h = cc
assert_boolean_exact (text ds) b h = cc

some_exact {ℓ} :
    {A : Type ℓ} (check : Value → Checked A) (write : A → Value) (P : A → Type 0)
    → Exactly check write P
    → (v : Value) (o : Option A) → check v >>= (λ a. ok (some a)) ≡ ok o
    → (v ≡ or_undefined write o) × IfPresent P o
some_exact check write P exact v o h =
    let (a, e, last) = >>=-eq-ok (check v) _ h in
    subst (λ o. (v ≡ or_undefined write o) × IfPresent P o) (ok_injective last) (exact v a e)

pub optional_exact {ℓ} :
    {A : Type ℓ} (check : Value → Checked A) (write : A → Value) (P : A → Type 0)
    → Exactly check write P
    → Exactly (optional check) (or_undefined write) (IfPresent P)
unfolding optional
optional_exact check write P exact undefined o h =
    subst (λ o. (undefined ≡ or_undefined write o) × IfPresent P o) (ok_injective h) (refl, tt)
optional_exact check write P exact null o h = some_exact check write P exact null o h
optional_exact check write P exact compound o h = some_exact check write P exact compound o h
optional_exact check write P exact (boolean b) o h = some_exact check write P exact (boolean b) o h
optional_exact check write P exact (number x) o h = some_exact check write P exact (number x) o h
optional_exact check write P exact (text cs) o h = some_exact check write P exact (text cs) o h

pub optional_record_exact {ℓ κ} :
    {A : Type ℓ} {B : Type κ} (check : B → Checked A) (write : A → B) (P : A → Type 0)
    → Exactly check write P
    → Exactly (optional_record check) (if_object write) (IfPresent P)
unfolding optional_record
optional_record_exact check write P exact absent o h =
    subst (λ o. (absent ≡ if_object write o) × IfPresent P o) (ok_injective h) (refl, tt)
optional_record_exact check write P exact wrong o h = cc
optional_record_exact check write P exact (object b) o h =
    let (a, e, last) = >>=-eq-ok (check b) _ h in
    let found = exact b a e in
    subst (λ o. (object b ≡ if_object write o) × IfPresent P o) (ok_injective last)
      (ap object found.0, found.1)

pub check_each_exact {ℓ κ} :
    {A : Type ℓ} {B : Type κ} (check : B → Checked A) (write : A → B) (P : A → Type 0)
    → Exactly check write P
    → Exactly (check_each check) (map write) (AllOf P)
unfolding check_each
check_each_exact check write P exact [] os h =
    subst (λ os. ([] ≡ map write os) × AllOf P os) (ok_injective h) (refl, tt)
check_each_exact check write P exact (b ∷ bs) os h =
    let (a, e, h1) = >>=-eq-ok (check b) _ h in
    let (as', es, last) = >>=-eq-ok (check_each check bs) _ h1 in
    let first = exact b a e in
    let rest = check_each_exact check write P exact bs as' es in
    subst (λ os. (b ∷ bs ≡ map write os) × AllOf P os) (ok_injective last)
      (λ i. first.0 i ∷ rest.0 i, (first.1, rest.1))

pub assert_matches_exact :
    (test : Text → Bool) → Exactly (assert_matches test) text (λ cs. test cs ≡ true)
unfolding assert_matches
assert_matches_exact test undefined cs h = cc
assert_matches_exact test null cs h = cc
assert_matches_exact test compound cs h = cc
assert_matches_exact test (boolean b) cs h = cc
assert_matches_exact test (number x) cs h = cc
assert_matches_exact test (text ds) cs h = ground arith

find_phase_exact :
    (cs : Text) (ps : List SandboxPhase) (p : SandboxPhase)
    → find_phase cs ps ≡ ok p
    → cs ≡ phase_text p
unfolding find_phase
find_phase_exact cs [] p h = cc
find_phase_exact cs (q ∷ ps) p h =
    ground (arith, codes_beq_iff cs (phase_text q), find_phase_exact cs ps p)

pub assert_phase_exact :
    (v : Value) (p : SandboxPhase) → assert_phase v ≡ ok p → v ≡ text (phase_text p)
unfolding assert_phase
assert_phase_exact undefined p h = cc
assert_phase_exact null p h = cc
assert_phase_exact compound p h = cc
assert_phase_exact (boolean b) p h = cc
assert_phase_exact (number x) p h = cc
assert_phase_exact (text cs) p h = ap text (find_phase_exact cs sandbox_phases p h)

find_machine_phase_exact :
    (cs : Text) (ps : List MachineJournalPhase) (p : MachineJournalPhase)
    → find_machine_phase cs ps ≡ ok p
    → cs ≡ machine_phase_text p
unfolding find_machine_phase
find_machine_phase_exact cs [] p h = cc
find_machine_phase_exact cs (q ∷ ps) p h =
    ground (arith, codes_beq_iff cs (machine_phase_text q), find_machine_phase_exact cs ps p)

pub assert_machine_phase_exact :
    (v : Value) (p : MachineJournalPhase)
    → assert_machine_phase v ≡ ok p
    → v ≡ text (machine_phase_text p)
unfolding assert_machine_phase
assert_machine_phase_exact undefined p h = cc
assert_machine_phase_exact null p h = cc
assert_machine_phase_exact compound p h = cc
assert_machine_phase_exact (boolean b) p h = cc
assert_machine_phase_exact (number x) p h = cc
assert_machine_phase_exact (text cs) p h = ap text (find_machine_phase_exact cs machine_phases p h)

pub assert_arch_exact : (v : Value) (a : Arch) → assert_arch v ≡ ok a → v ≡ text (arch_text a)
unfolding assert_arch
assert_arch_exact undefined a h = cc
assert_arch_exact null a h = cc
assert_arch_exact compound a h = cc
assert_arch_exact (boolean b) a h = cc
assert_arch_exact (number x) a h = cc
assert_arch_exact (text cs) a h =
    ground (arith, codes_beq_iff cs (arch_text aarch64), codes_beq_iff cs (arch_text x86_64))

pub assert_version_exact :
    (v : Value) (s : SchemaVersion) → assert_version v ≡ ok s → v ≡ version_number s
unfolding assert_version
assert_version_exact undefined s h = cc
assert_version_exact null s h = cc
assert_version_exact compound s h = cc
assert_version_exact (boolean b) s h = cc
assert_version_exact (number (nat n)) s h = elim (Bool-cases (nat_beq n 2)) [
  | inl two ↦ ground (arith, h, two)
  | inr other ↦ ground (arith, h, other)
]
assert_version_exact (number (frac n)) s h = cc
assert_version_exact (number negative) s h = cc
assert_version_exact (number infinite) s h = cc
assert_version_exact (number nan) s h = cc
assert_version_exact (text cs) s h = cc
