-- ===== src/Common/Map.antt =====
-- `Map` and plain objects used as maps, in insertion order: `set` overwrites in place or appends.
use Prim.Native.Nat.{ℕ, suc, ◌+◌, ◌≤◌}
use mathlib.Core.Path.{◌≡◌, refl, ap}
use mathlib.Core.Logic.{inl, inr}
use mathlib.Core.Bool.{Bool, true, false}
use mathlib.Core.Option.{Option, none, some}
use mathlib.Core.List.{List, [], ◌∷◌}
use native.Mathlib.Omega.{arith}
use studiobox.Common.Tests.{Eq, ◌==◌, if◌then◌else◌, Bool-cases}
use studiobox.Common.Lists.{length}

abbrev pub Map {ℓ κ} : Type ℓ → Type κ → Type (ℓ ⊔ κ)
Map K V = List (K × V)

-- An optional value that a predicate may drop.
abbrev pub unless {κ} : {V : Type κ} → (V → Bool) → Option V → Option V
unless p none = none
unless p (some v) = if p v then none else some v

module _ {ℓ κ} {K : Type ℓ} {V : Type κ} ⦃e : Eq K⦄ where
  unfoldable pub get : Map K V → K → Option V
  get [] k = none
  get ((j, v) ∷ m) k = if j == k then some v else get m k

  unfoldable pub has : Map K V → K → Bool
  has [] k = false
  has ((j, v) ∷ m) k = if j == k then true else has m k

  unfoldable pub set : Map K V → K → V → Map K V
  set [] k v = (k, v) ∷ []
  set ((j, w) ∷ m) k v = let rest = set m k v in if j == k then (j, v) ∷ m else (j, w) ∷ rest

  unfoldable pub delete : Map K V → K → Map K V
  delete [] k = []
  delete ((j, v) ∷ m) k = let rest = delete m k in if j == k then rest else (j, v) ∷ rest

  -- No key stands twice.
  abbrev pub Distinct : Map K V → Type κ
  Distinct [] = Unit {κ}
  Distinct ((k, v) ∷ m) = (get m k ≡ none) × Distinct m

  pub has-get : (m : Map K V) (k : K) → get m k ≡ none → has m k ≡ false
  unfolding get has
  has-get [] k h = refl
  has-get ((j, v) ∷ m) k h = ground (arith, has-get m k)

  pub get-has : (m : Map K V) (k : K) → has m k ≡ false → get m k ≡ none
  unfolding get has
  get-has [] k h = refl
  get-has ((j, v) ∷ m) k h = ground (arith, get-has m k)

  pub get-set :
      (m : Map K V) (k j : K) (v : V) → get (set m k v) j ≡ (if k == j then some v else get m j)
  unfolding get set
  get-set [] k j v = refl
  get-set ((i, w) ∷ m) k j v =
      ground (arith, e.same_iff i k, e.same_iff i j, e.same_iff k j, get-set m k j v)

  pub get-delete : (m : Map K V) (k j : K) → get (delete m k) j ≡ (if k == j then none else get m j)
  unfolding get delete
  get-delete [] k j = ground arith
  get-delete ((i, w) ∷ m) k j =
      ground (arith, e.same_iff i k, e.same_iff i j, e.same_iff k j, get-delete m k j)

  pub get-set_self : (m : Map K V) (k : K) (v : V) → get (set m k v) k ≡ some v
  get-set_self m k v = ground (arith, get-set m k k v, e.same_iff k k)

  pub get-delete_self : (m : Map K V) (k : K) → get (delete m k) k ≡ none
  get-delete_self m k = ground (arith, get-delete m k k, e.same_iff k k)

  pub delete_missing : (m : Map K V) (k : K) → get m k ≡ none → delete m k ≡ m
  unfolding get delete
  delete_missing [] k h = refl
  delete_missing ((j, v) ∷ m) k h = ground (arith, delete_missing m k)

  pub set-Distinct : (m : Map K V) (k : K) (v : V) → Distinct m → Distinct (set m k v)
  unfolding get set
  set-Distinct [] k v d = (refl, tt)
  set-Distinct ((j, w) ∷ m) k v d = elim (Bool-cases (j == k)) [
    | inl same ↦ rw same d
    | inr other ↦ rw other (
      ground (arith, get-set m k j v, e.same_iff j k, e.same_iff k j, d.0),
      set-Distinct m k v d.1,
    )
  ]

  pub delete-Distinct : (m : Map K V) (k : K) → Distinct m → Distinct (delete m k)
  unfolding get delete
  delete-Distinct [] k d = tt
  delete-Distinct ((j, w) ∷ m) k d = elim (Bool-cases (j == k)) [
    | inl same ↦ rw same (delete-Distinct m k d.1)
    | inr other ↦ rw other (ground (arith, get-delete m k j, d.0), delete-Distinct m k d.1)
  ]

  -- The total of a measure over the values.
  unfoldable pub sum_by : (V → ℕ) → Map K V → ℕ
  sum_by f [] = 0
  sum_by f ((k, v) ∷ m) = f v + sum_by f m

  pub sum_by-set :
      (f : V → ℕ) (m : Map K V) (k : K) (v : V)
      → get m k ≡ none
      → sum_by f (set m k v) ≡ sum_by f m + f v
  unfolding get set sum_by
  sum_by-set f [] k v h = omega arith
  sum_by-set f ((j, w) ∷ m) k v h = ground (arith, sum_by-set f m k v)

  pub sum_by-delete :
      (f : V → ℕ) (m : Map K V) (k : K) (v : V)
      → Distinct m
      → get m k ≡ some v
      → sum_by f m ≡ f v + sum_by f (delete m k)
  unfolding get delete sum_by
  sum_by-delete f [] k v d h = cc
  sum_by-delete f ((j, w) ∷ m) k v d h = elim (Bool-cases (j == k)) [
    | inl same ↦ ground (arith, same, e.same_iff j k, delete_missing m k, d.0)
    | inr other ↦ ground (arith, other, sum_by-delete f m k v d.1)
  ]

  pub length-set_new :
      (m : Map K V) (k : K) (v : V) → get m k ≡ none → length (set m k v) ≡ suc (length m)
  unfolding get set
  length-set_new [] k v h = refl
  length-set_new ((j, w) ∷ m) k v h = ground (arith, length-set_new m k v)

  pub length-delete_held :
      (m : Map K V) (k : K) (v : V)
      → Distinct m
      → get m k ≡ some v
      → length m ≡ suc (length (delete m k))
  unfolding get delete
  length-delete_held [] k v d h = cc
  length-delete_held ((j, w) ∷ m) k v d h = elim (Bool-cases (j == k)) [
    | inl same ↦ ground (arith, same, e.same_iff j k, delete_missing m k, d.0)
    | inr other ↦ ground (arith, other, length-delete_held m k v d.1)
  ]

  pub delete-set_new : (m : Map K V) (k : K) (v : V) → get m k ≡ none → delete (set m k v) k ≡ m
  unfolding get set delete
  delete-set_new [] k v h = ground (arith, e.same_iff k k)
  delete-set_new ((j, w) ∷ m) k v h = elim (Bool-cases (j == k)) [
    | inl same ↦ absurd (ground (arith, same))
    | inr other ↦
        rw (other, other) (ap (λ r. (j, w) ∷ r) (delete-set_new m k v (ground (arith, other))))
  ]

  -- What is left when the entries that fit a predicate are deleted.
  unfoldable pub reject : (V → Bool) → Map K V → Map K V
  reject p [] = []
  reject p ((k, v) ∷ m) = let rest = reject p m in if p v then rest else (k, v) ∷ rest

  pub get-reject_missing :
      (p : V → Bool) (m : Map K V) (k : K) → get m k ≡ none → get (reject p m) k ≡ none
  unfolding get reject
  get-reject_missing p [] k h = refl
  get-reject_missing p ((j, w) ∷ m) k h = ground (arith, get-reject_missing p m k)

  pub get-reject :
      (p : V → Bool) (m : Map K V) (k : K) → Distinct m → get (reject p m) k ≡ unless p (get m k)
  unfolding get reject
  get-reject p [] k d = refl
  get-reject p ((j, w) ∷ m) k d = elim (Bool-cases (j == k)) [
    | inl same ↦
        ground (arith, same, e.same_iff j k, d.0, get-reject p m k d.1, get-reject_missing p m k)
    | inr other ↦ ground (arith, other, get-reject p m k d.1)
  ]

  pub reject-Distinct : (p : V → Bool) (m : Map K V) → Distinct m → Distinct (reject p m)
  unfolding get reject
  reject-Distinct p [] d = tt
  reject-Distinct p ((j, w) ∷ m) d = elim (Bool-cases (p w)) [
    | inl gone ↦ rw gone (reject-Distinct p m d.1)
    | inr kept ↦ rw kept (get-reject_missing p m j d.0, reject-Distinct p m d.1)
  ]

  pub length-reject-le : (p : V → Bool) (m : Map K V) → length (reject p m) ≤ length m
  unfolding reject
  length-reject-le p [] = omega arith
  length-reject-le p ((k, v) ∷ m) = ground (arith, length-reject-le p m)

  pub length-delete-le : (m : Map K V) (k : K) → length (delete m k) ≤ length m
  unfolding delete
  length-delete-le [] k = omega arith
  length-delete-le ((j, v) ∷ m) k = ground (arith, length-delete-le m k)

  pub length-set-le : (m : Map K V) (k : K) (v : V) → length (set m k v) ≤ suc (length m)
  unfolding set
  length-set-le [] k v = omega arith
  length-set-le ((j, w) ∷ m) k v = ground (arith, length-set-le m k v)

  pub reject_twice : (p : V → Bool) (m : Map K V) → reject p (reject p m) ≡ reject p m
  unfolding reject
  reject_twice p [] = refl
  reject_twice p ((k, v) ∷ m) = elim (Bool-cases (p v)) [
    | inl gone ↦ rw gone (reject_twice p m)
    | inr kept ↦ rw (kept, kept) (ap (λ r. (k, v) ∷ r) (reject_twice p m))
  ]
