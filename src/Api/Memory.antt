-- ===== src/Api/Memory.antt =====
-- src/api/memory.ts: the memory grammar. A decimal is scaled exactly, where JavaScript rounds the
-- product `Number(match[1]) * UNITS[match[2]]` to a double.
pub mod Text
pub mod Range
use Text.{Memory, number, text, Scaled, scaled, match_memory}
use studiobox.Common.{ℕ, ◌*◌, ◌/◌, ◌^◌, Option, none, some, Bool, ◌||◌, ltb, if◌then◌else◌}
use studiobox.Common.JsNumber.{JsNumber, nat, frac, negative, infinite, nan}

abbrev pub mebibyte : ℕ
mebibyte = 1024 * 1024

abbrev pub min_memory_mib : ℕ
min_memory_mib = 768

abbrev pub max_memory_mib : ℕ
max_memory_mib = 4096

-- What `parseMemory` may return: a count of mebibytes, or NaN.
pub data Mib : Type 0 where
  mib : ℕ → Mib
  nan_mib : Mib

-- Math.floor(value / MEBIBYTE)
unfoldable pub floor_mib : JsNumber → JsNumber
floor_mib (nat n) = nat (n / mebibyte)
floor_mib (frac n) = nat (n / mebibyte)
floor_mib negative = negative
floor_mib infinite = infinite
floor_mib nan = nan

-- `mib < MIN || mib > MAX` throws; both comparisons are false of NaN.
unfoldable pub check_range : JsNumber → Option Mib
check_range (nat m) = if ltb m min_memory_mib || ltb max_memory_mib m then none else some (mib m)
check_range (frac m) = if ltb m min_memory_mib || ltb max_memory_mib m then none else some (mib m)
check_range negative = none
check_range infinite = none
check_range nan = some nan_mib

unfoldable pub parse_scaled : Option Scaled → Option Mib
unfolding check_range
parse_scaled none = none
parse_scaled (some (scaled digits decimals unit)) =
    check_range (nat (digits * unit / (10 ^ decimals * mebibyte)))

-- `none` is InvalidMemoryError.
unfoldable pub parse_memory : Memory → Option Mib
unfolding floor_mib check_range parse_scaled
parse_memory (number v) = check_range (floor_mib v)
parse_memory (text s) = parse_scaled (match_memory s)
