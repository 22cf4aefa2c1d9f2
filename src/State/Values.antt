-- ===== src/State/Values.antt =====
-- Untyped values, and the assertions of src/state/model.ts on them. `type_error` is a TypeError.
use studiobox.Common.{
  ℕ, ◌+◌, Option, none, some, Bool, false, ◌&&◌, ◌||◌, not, List, [], ◌∷◌, leb, ltb, nat_beq,
  length, if◌then◌else◌,
}
use studiobox.Common.Results.{Result, err, ok, ◌>>=◌}
use studiobox.Common.JsNumber.{JsNumber, safe_nat, max_safe_integer}
use studiobox.State.Model.{Text}

pub data TypeError : Type 0 where
  type_error : TypeError

-- `compound` is an object or an array where neither is expected.
pub data Value : Type 0 where
  undefined null compound : Value
  boolean : Bool → Value
  number : JsNumber → Value
  text : Text → Value

-- A place where an object is expected: its known fields stand in `A`.
pub data Slot {ℓ} (A : Type ℓ) : Type ℓ where
  absent wrong : Slot A
  object : A → Slot A

-- A place where an array is expected.
pub data Array {ℓ} (A : Type ℓ) : Type ℓ where
  not_array : Array A
  array : List A → Array A

abbrev pub Checked {ℓ} : Type ℓ → Type ℓ
Checked A = Result TypeError A

unfoldable pub assert_record {ℓ} : {A : Type ℓ} → Slot A → Checked A
assert_record absent = err type_error
assert_record wrong = err type_error
assert_record (object a) = ok a

-- `unknown` lists the keys of an object that are not among its allowed ones.
unfoldable pub assert_keys : List Text → Checked (Unit {0})
assert_keys [] = ok tt
assert_keys (key ∷ keys) = err type_error

between : ℕ → ℕ → Option ℕ → Checked ℕ
between maximum minimum none = err type_error
between maximum minimum (some n) = if leb minimum n && leb n maximum then ok n else err type_error

unfoldable pub assert_unsigned_integer : ℕ → ℕ → Value → Checked ℕ
unfolding between
assert_unsigned_integer maximum minimum (number n) = between maximum minimum (safe_nat n)
assert_unsigned_integer maximum minimum _ = err type_error

unfoldable pub assert_non_negative_integer : Value → Checked ℕ
unfolding assert_unsigned_integer
assert_non_negative_integer value = assert_unsigned_integer max_safe_integer 0 value

unfoldable pub is_surrogate : ℕ → ℕ → ℕ → Bool
is_surrogate low high c = leb low c && leb c high

-- new TextEncoder().encode(text).byteLength: a pair of surrogates takes four bytes, and a lone one
-- becomes U+FFFD, which takes three.
unfoldable pub unit_length : ℕ → ℕ
unit_length c = if ltb c 0x80 then 1 else if ltb c 0x800 then 2 else 3

unfoldable pub utf8_after : Bool → Text → ℕ
unfolding is_surrogate unit_length
utf8_after paired [] = 0
utf8_after paired (c ∷ cs) =
    (if paired && is_surrogate 0xdc00 0xdfff c then 1 else unit_length c)
    + utf8_after (is_surrogate 0xd800 0xdbff c) cs

unfoldable pub utf8_length : Text → ℕ
unfolding utf8_after
utf8_length cs = utf8_after false cs

bounded : ℕ → Bool → Text → Checked Text
unfolding utf8_length
bounded maximum_bytes allow_empty cs =
    if (not allow_empty && nat_beq (length cs) 0) || ltb maximum_bytes (utf8_length cs)
    then err type_error
    else ok cs

unfoldable pub assert_text : ℕ → Bool → Value → Checked Text
unfolding bounded
assert_text maximum_bytes allow_empty (text cs) = bounded maximum_bytes allow_empty cs
assert_text maximum_bytes allow_empty _ = err type_error

-- `if (value !== undefined) check(value)`
unfoldable pub optional {ℓ} : {A : Type ℓ} → (Value → Checked A) → Value → Checked (Option A)
optional check undefined = ok none
optional check null = check null >>= λ a. ok (some a)
optional check compound = check compound >>= λ a. ok (some a)
optional check (boolean b) = check (boolean b) >>= λ a. ok (some a)
optional check (number n) = check (number n) >>= λ a. ok (some a)
optional check (text cs) = check (text cs) >>= λ a. ok (some a)

unfoldable pub optional_record {ℓ κ} :
    {A : Type ℓ} {B : Type κ} → (A → Checked B) → Slot A → Checked (Option B)
optional_record check absent = ok none
optional_record check wrong = err type_error
optional_record check (object a) = check a >>= λ b. ok (some b)

unfoldable pub assert_array {ℓ} : {A : Type ℓ} → Array A → Checked (List A)
assert_array not_array = err type_error
assert_array (array xs) = ok xs

-- forEach with a check that may throw
unfoldable pub check_each {ℓ κ} :
    {A : Type ℓ} {B : Type κ} → (A → Checked B) → List A → Checked (List B)
check_each check [] = ok []
check_each check (x ∷ xs) = do b ← check x; bs ← check_each check xs; ok (b ∷ bs)

unfoldable pub assert_boolean : Value → Checked Bool
assert_boolean (boolean b) = ok b
assert_boolean _ = err type_error

-- A runtime's `Number.isFinite(Date.parse(text))` is the parameter `parses`.
module _ (parses : Text → Bool) where
  bounded_timestamp : Text → Checked Text
  bounded_timestamp cs = if ltb 64 (length cs) || not (parses cs) then err type_error else ok cs

  unfoldable pub assert_timestamp : Value → Checked Text
  unfolding bounded_timestamp
  assert_timestamp (text cs) = bounded_timestamp cs
  assert_timestamp _ = err type_error
