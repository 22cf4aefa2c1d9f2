-- ===== src/Rootd/Network/TapName.antt =====
-- `slotOfTapName` of src/rootd/network/reclaim_hook.ts, and the way back from a journaled TAP name
-- to the allocation. `Number(suffix)` of a text of digits is read exactly.
pub mod Rebuild
mod Tests
use studiobox.Common.{
  ℕ, suc, ◌<◌, ◌≤◌, ◌≡◌, ◌↔◌, ◌≢◌, refl, ap, sym, ◌∙◌, Option, none, some, Bool, true, false, List,
  [], ◌∷◌, ◌++◌, arith, nat_beq, if◌then◌else◌,
}
use studiobox.Common.JsNumber.{JsNumber, nat, max_safe_integer}
use studiobox.Common.Decimal.{
  decimal, read, all_digits, read-decimal, all_digits-decimal, decimal-ne-nil,
}
use studiobox.Rootd.Network.Allocator.{
  SubnetAllocation, Result, ok, err, range_error, compute_allocation, tap_name_prefix,
  subnet_for_slot, dotted, pool_prefix, parse_pool_prefix, valid_slot, slot_count,
}
use studiobox.Rootd.Network.Allocator.Addresses.{dotted_injective}

-- text.startsWith(prefix) and the rest of the text.
strip_prefix : List ℕ → List ℕ → Option (List ℕ)
strip_prefix [] cs = some cs
strip_prefix (p ∷ ps) [] = none
strip_prefix (p ∷ ps) (c ∷ cs) = if nat_beq p c then strip_prefix ps cs else none

strip_own : (ps cs : List ℕ) → strip_prefix ps (ps ++ cs) ≡ some cs
unfolding strip_prefix
strip_own [] cs = refl
strip_own (p ∷ ps) cs = ground (arith, strip_own ps cs)

integer_of : JsNumber → Option ℕ
integer_of (nat n) = some n
integer_of _ = none

-- `DEFAULT_POOL_CIDR` of src/rootd/network/allocator.ts.
unfoldable pub default_pool_cidr : List ℕ
default_pool_cidr = dotted 10 201 0 0 ++ (b'/' ∷ decimal pool_prefix)

module _ (to_number : List ℕ → JsNumber) where
  slot_of_suffix : Option (List ℕ) → Option ℕ
  unfolding integer_of
  slot_of_suffix none = none
  slot_of_suffix (some []) = none
  slot_of_suffix (some (c ∷ cs)) =
      if all_digits (c ∷ cs) then integer_of (to_number (c ∷ cs)) else none

  -- `none` is a RangeError.
  unfoldable pub slot_of_tap_name : List ℕ → Option ℕ
  unfolding strip_prefix slot_of_suffix
  slot_of_tap_name tap_name = slot_of_suffix (strip_prefix tap_name_prefix tap_name)

  subnet_of : Option ℕ → Result SubnetAllocation
  subnet_of none = err range_error
  subnet_of (some slot) = subnet_for_slot to_number (nat slot) default_pool_cidr

  -- `subnetForSlot(slotOfTapName(tapName))`, as `exposeHttp` and the network reclaim hook call it.
  unfoldable pub rebuild_allocation : List ℕ → Result SubnetAllocation
  unfolding subnet_of
  rebuild_allocation tap_name = subnet_of (slot_of_tap_name tap_name)
