-- ===== src/Api/Memory/Range.antt =====
-- What `parseMemory` of src/api/memory.ts accepts.
use studiobox.Common.{◌≤◌, ◌≡◌, ◌≢◌, Option, none, some, arith}
use studiobox.Common.JsNumber.{nat, frac, negative, infinite, nan}
use studiobox.Api.Memory.Text.{Memory, number, text, Scaled, scaled, match_memory}
use studiobox.Api.Memory.{
  Mib, mib, nan_mib, parse_memory, parse_scaled, min_memory_mib, max_memory_mib,
}

-- A count within the contract of 768 MiB to 4 GiB.
abbrev pub InContract : Mib → Type 0
InContract (mib k) = (min_memory_mib ≤ k) × (k ≤ max_memory_mib)
InContract nan_mib = ⊥

parse_scaled-InContract : (o : Option Scaled) (v : Mib) → parse_scaled o ≡ some v → InContract v
unfolding parse_scaled
parse_scaled-InContract none v h = cc
parse_scaled-InContract (some (scaled digits decimals unit)) (mib k) h = ground arith
parse_scaled-InContract (some (scaled digits decimals unit)) nan_mib h = ground arith

-- Whatever memory is accepted lies between 768 and 4096 MiB, unless the input is the number NaN.
pub parse_memory-InContract :
    (m : Memory) (v : Mib) → m ≢ number nan → parse_memory m ≡ some v → InContract v
unfolding parse_memory
parse_memory-InContract (text s) v ne h = parse_scaled-InContract (match_memory s) v h
parse_memory-InContract (number (nat n)) (mib k) ne h = ground arith
parse_memory-InContract (number (nat n)) nan_mib ne h = ground arith
parse_memory-InContract (number (frac n)) (mib k) ne h = ground arith
parse_memory-InContract (number (frac n)) nan_mib ne h = ground arith
parse_memory-InContract (number negative) v ne h = cc
parse_memory-InContract (number infinite) v ne h = cc
parse_memory-InContract (number nan) v ne h = absurd (ne (cc))
