-- ===== src/Common/Results.antt =====
-- A call that returns or throws: the value, or what was thrown.
use mathlib.Core.Path.{◌≡◌, refl}
use mathlib.Core.Bool.{Bool, true, false}
use native.Mathlib.Omega.{arith}
use mathlib.Core.Option.{Option, none, some}

pub data Result {ℓ} (Thrown : Type 0) (A : Type ℓ) : Type ℓ where
  err : Thrown → Result Thrown A
  ok : A → Result Thrown A

infixl 5 ◌>>=◌ ◌>>◌
abbrev pub ◌>>=◌ {ℓ κ} :
    {Thrown : Type 0} {A : Type ℓ} {B : Type κ}
    → Result Thrown A
    → (A → Result Thrown B)
    → Result Thrown B
err thrown >>= next = err thrown
ok value >>= next = next value

abbrev pub ◌>>◌ {ℓ} :
    {Thrown : Type 0} {B : Type ℓ} → Result Thrown (Unit {0}) → Result Thrown B → Result Thrown B
first >> second = first >>= λ _. second

abbrev pub or_throw {ℓ} : {Thrown : Type 0} {A : Type ℓ} → Option A → Thrown → Result Thrown A
or_throw none thrown = err thrown
or_throw (some value) thrown = ok value

abbrev pub throw_if : {Thrown : Type 0} → Bool → Thrown → Result Thrown (Unit {0})
throw_if false thrown = ok tt
throw_if true thrown = err thrown

-- A chain that returned has a first part that returned.
pub >>=-eq-ok {ℓ κ} :
    {Thrown : Type 0} {A : Type ℓ} {B : Type κ} (first : Result Thrown A)
    (next : A → Result Thrown B) {last : B}
    → first >>= next ≡ ok last
    → (value : A) × (first ≡ ok value) × (next value ≡ ok last)
>>=-eq-ok (err thrown) next h = cc
>>=-eq-ok (ok value) next h = (value, refl, h)

-- To go on with the first part of a chain that returned.
pub >>=-returned {ℓ κ μ} :
    {Thrown : Type 0} {A : Type ℓ} {B : Type κ} {C : Type μ} (first : Result Thrown A)
    (next : A → Result Thrown B) {last : B}
    → first >>= next ≡ ok last
    → ((value : A) → first ≡ ok value → next value ≡ ok last → C)
    → C
>>=-returned (err thrown) next h k = absurd (ground (arith, h))
>>=-returned (ok value) next h k = k value refl h

pub or_throw-eq-ok {ℓ} :
    {Thrown : Type 0} {A : Type ℓ} (o : Option A) (thrown : Thrown) {value : A}
    → or_throw o thrown ≡ ok value
    → o ≡ some value
or_throw-eq-ok none thrown h = cc
or_throw-eq-ok (some a) thrown h = cc
