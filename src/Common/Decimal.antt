-- ===== src/Common/Decimal.antt =====
-- Numbers in template literals, `Number(text)` on digits, and texts with separators.
use Prim.Native.Nat.{ℕ, zero, suc, ◌+◌, ◌-◌, ◌*◌, ◌/◌, ◌%◌, ◌≤◌}
use mathlib.Core.Path.{◌≡◌, refl, ap, ◌∙◌, sym}
use mathlib.Core.Logic.{◌≢◌}
use mathlib.Core.Bool.{Bool, true, false, ◌&&◌}
use mathlib.Core.List.{List, [], ◌∷◌, ◌++◌}
use native.Mathlib.Omega.{arith}
use studiobox.Common.Tests.{ltb, leb, if◌then◌else◌}

print_fuel : ℕ → ℕ → List ℕ
print_fuel zero n = (b'0' + n) ∷ []
print_fuel (suc f) n =
    let more = print_fuel f (n / 10) ++ (b'0' + n % 10) ∷ [] in
    if ltb n 10 then (b'0' + n) ∷ [] else more

-- `${n}`
unfoldable pub decimal : ℕ → List ℕ
unfolding print_fuel
decimal n = print_fuel n n

unfoldable pub read_from : ℕ → List ℕ → ℕ
read_from v [] = v
read_from v (c ∷ cs) = read_from (v * 10 + (c - b'0')) cs

-- Number(text), for a text of digits.
unfoldable pub read : List ℕ → ℕ
unfolding read_from
read cs = read_from 0 cs

unfoldable pub is_digit : ℕ → Bool
is_digit c = leb b'0' c && leb c b'9'

-- /^[0-9]*$/
unfoldable pub all_digits : List ℕ → Bool
all_digits [] = true
all_digits (c ∷ cs) = if leb b'0' c && leb c b'9' then all_digits cs else false

read_from-append :
    (v : ℕ) (cs : List ℕ) (c : ℕ) → read_from v (cs ++ c ∷ []) ≡ read_from v cs * 10 + (c - b'0')
unfolding read_from
read_from-append v [] c = refl
read_from-append v (d ∷ cs) c = read_from-append (v * 10 + (d - b'0')) cs c

read-print_fuel : (f n : ℕ) → n ≤ f → read_from 0 (print_fuel f n) ≡ n
unfolding print_fuel read_from
read-print_fuel zero n h = omega arith
read-print_fuel (suc f) n h =
    ground (
      arith,
      read-print_fuel f (n / 10),
      read_from-append 0 (print_fuel f (n / 10)) (b'0' + n % 10),
    )

append-ne-nil : (cs : List ℕ) (c : ℕ) → cs ++ c ∷ [] ≢ []
append-ne-nil [] c e = absurd (ground (arith, e))
append-ne-nil (d ∷ cs) c e = absurd (ground (arith, e))

print_fuel-ne-nil : (f n : ℕ) → print_fuel f n ≢ []
unfolding print_fuel
print_fuel-ne-nil zero n e = absurd (ground (arith, e))
print_fuel-ne-nil (suc f) n e =
    ground (arith, e, append-ne-nil (print_fuel f (n / 10)) (b'0' + n % 10))

pub decimal-ne-nil : (n : ℕ) → decimal n ≢ []
unfolding decimal
decimal-ne-nil n = print_fuel-ne-nil n n

-- Reading a printed number gives it back.
pub read-decimal : (n : ℕ) → read (decimal n) ≡ n
unfolding read decimal
read-decimal n = read-print_fuel n n (omega arith)

all_digits-append :
    (cs : List ℕ) (c : ℕ)
    → all_digits cs ≡ true
    → all_digits (c ∷ []) ≡ true
    → all_digits (cs ++ c ∷ []) ≡ true
unfolding all_digits
all_digits-append [] c h k = k
all_digits-append (d ∷ cs) c h k = ground (arith, all_digits-append cs c)

all_digits-print_fuel : (f n : ℕ) → n ≤ f → all_digits (print_fuel f n) ≡ true
unfolding print_fuel all_digits
all_digits-print_fuel zero n h = ground arith
all_digits-print_fuel (suc f) n h = ground (
  arith,
  all_digits-print_fuel f (n / 10),
  all_digits-append (print_fuel f (n / 10)) (b'0' + n % 10),
)

pub all_digits-decimal : (n : ℕ) → all_digits (decimal n) ≡ true
unfolding decimal
all_digits-decimal n = all_digits-print_fuel n n (omega arith)

pub decimal_injective : (m n : ℕ) → decimal m ≡ decimal n → m ≡ n
decimal_injective m n e = sym (read-decimal m) ∙ ap read e ∙ read-decimal n

-- Digits before a separator that is no digit are determined by the whole text.
pub split_injective :
    (sep : ℕ) (cs ds rest rest' : List ℕ)
    → is_digit sep ≡ false
    → all_digits cs ≡ true
    → all_digits ds ≡ true
    → cs ++ sep ∷ rest ≡ ds ++ sep ∷ rest'
    → (cs ≡ ds) × (rest ≡ rest')
unfolding is_digit all_digits
split_injective sep [] [] rest rest' s h k e = (refl, ground (arith, e))
split_injective sep [] (d ∷ ds) rest rest' s h k e = absurd (ground (arith, e))
split_injective sep (c ∷ cs) [] rest rest' s h k e = absurd (ground (arith, e))
split_injective sep (c ∷ cs) (d ∷ ds) rest rest' s h k e =
    ground (arith, split_injective sep cs ds rest rest' s)
