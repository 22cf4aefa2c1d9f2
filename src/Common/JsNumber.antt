-- ===== src/Common/JsNumber.antt =====
-- A JavaScript number, as far as the guards of the program tell numbers apart.
use Prim.Native.Nat.{ℕ, ◌-◌, ◌^◌}
use mathlib.Core.Option.{Option, none, some}
use studiobox.Common.Tests.{leb, ltb, if◌then◌else◌}

-- `frac n` lies strictly between n and n + 1; `negative` is any number below zero.
pub data JsNumber : Type 0 where
  nat : ℕ → JsNumber
  frac : ℕ → JsNumber
  negative : JsNumber
  infinite : JsNumber
  nan : JsNumber

-- Number.MAX_SAFE_INTEGER
abbrev pub max_safe_integer : ℕ
max_safe_integer = 2 ^ 53 - 1

-- The value, if `Number.isSafeInteger(v) && v >= 0`.
unfoldable pub safe_nat : JsNumber → Option ℕ
safe_nat (nat n) = if leb n max_safe_integer then some n else none
safe_nat _ = none

-- The value, if `Number.isSafeInteger(v) && v > 0`.
unfoldable pub safe_positive : JsNumber → Option ℕ
safe_positive (nat n) = if leb n max_safe_integer then (if ltb 0 n then some n else none) else none
safe_positive _ = none
