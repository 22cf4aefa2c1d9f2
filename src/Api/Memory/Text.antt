-- ===== src/Api/Memory/Text.antt =====
-- MEMORY_PATTERN and UNITS of src/api/memory.ts, over the characters' codes.
use studiobox.Common.{
  ℕ, zero, suc, ◌+◌, ◌-◌, ◌*◌, ◌^◌, Option, none, some, Bool, ◌&&◌, List, [], ◌∷◌, leb, nat_beq,
  if◌then◌else◌,
}
use studiobox.Common.Codes.{codes_beq}
use studiobox.Common.JsNumber.{JsNumber}

-- A `number`, or a text as its character codes.
pub data Memory : Type 0 where
  number : JsNumber → Memory
  text : List ℕ → Memory

-- A match: the digits read as one number, how many of them are decimals, and the unit's factor.
pub data Scaled : Type 0 where
  scaled : ℕ → ℕ → ℕ → Scaled

is_digit : ℕ → Bool
is_digit c = leb b'0' c && leb c b'9'

-- \d+ continued: the value, the number of digits, and the rest.
span_digits : ℕ → ℕ → List ℕ → ℕ × ℕ × List ℕ
span_digits value n [] = (value, n, [])
span_digits value n (c ∷ cs) =
    let more = span_digits (value * 10 + (c - b'0')) (n + 1) cs in
    if is_digit c then more else (value, n, c ∷ cs)

-- UNITS; the whole rest must be the unit.
unit_factor : List ℕ → Option ℕ
unfolding codes_beq
unit_factor cs =
    if codes_beq cs (b'G' ∷ b'i' ∷ b'B' ∷ [])
    then some (1024 ^ 3)
    else if codes_beq cs (b'M' ∷ b'i' ∷ b'B' ∷ [])
    then some (1024 ^ 2)
    else if codes_beq cs (b'K' ∷ b'i' ∷ b'B' ∷ [])
    then some 1024
    else if codes_beq cs (b'G' ∷ b'B' ∷ [])
    then some (1000 ^ 3)
    else if codes_beq cs (b'M' ∷ b'B' ∷ [])
    then some (1000 ^ 2)
    else if codes_beq cs (b'k' ∷ b'B' ∷ [])
    then some 1000
    else none

with_unit : ℕ → ℕ → Option ℕ → Option Scaled
with_unit value decimals none = none
with_unit value decimals (some factor) = some (scaled value decimals factor)

-- After the point there is at least one digit.
match_decimals : ℕ → ℕ × ℕ × List ℕ → Option Scaled
unfolding unit_factor with_unit
match_decimals before (value, zero, rest) = none
match_decimals before (value, suc n, rest) = with_unit value (suc n) (unit_factor rest)

match_point : ℕ → List ℕ → Option Scaled
unfolding match_decimals span_digits is_digit unit_factor with_unit
match_point value [] = none
match_point value (c ∷ cs) =
    if nat_beq c b'.'
    then match_decimals value (span_digits value 0 cs)
    else with_unit value 0 (unit_factor (c ∷ cs))

match_integer : ℕ × ℕ × List ℕ → Option Scaled
unfolding match_point
match_integer (value, zero, rest) = none
match_integer (value, suc n, rest) = match_point value rest

unfoldable pub match_memory : List ℕ → Option Scaled
unfolding match_integer
match_memory cs = match_integer (span_digits 0 0 cs)
