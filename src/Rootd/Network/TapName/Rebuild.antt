-- ===== src/Rootd/Network/TapName/Rebuild.antt =====
-- The way back from a journaled TAP name of src/rootd/network/reclaim_hook.ts to its allocation.
use studiobox.Common.{ℕ, ◌<◌, ◌≤◌, ◌≡◌, ◌↔◌, refl, ap, sym, ◌∙◌, some, List, [], ◌∷◌, arith}
use studiobox.Common.JsNumber.{JsNumber, nat, max_safe_integer}
use studiobox.Common.Decimal.{decimal, all_digits-decimal, decimal-ne-nil}
use studiobox.Rootd.Network.Allocator.{
  ok, compute_allocation, tap_name_prefix, subnet_for_slot, parse_pool_prefix, valid_slot,
  slot_count, subnet_in,
}
use studiobox.Rootd.Network.Allocator.Addresses.{dotted_injective}
use studiobox.Rootd.Network.Allocator.Pool.{ReadsDecimals, parse_pool_prefix-written}
use studiobox.Rootd.Network.TapName.{
  strip_own, slot_of_suffix, integer_of, slot_of_tap_name, rebuild_allocation, default_pool_cidr,
  subnet_of,
}

module _ (to_number : List ℕ → JsNumber) (reads : ReadsDecimals to_number) where
  slot_of_decimal :
      (cs : List ℕ) (n : ℕ)
      → n ≤ max_safe_integer
      → cs ≡ decimal n
      → slot_of_suffix to_number (some cs) ≡ some n
  unfolding slot_of_suffix integer_of
  slot_of_decimal [] n h e = absurd (decimal-ne-nil n (sym e))
  slot_of_decimal (c ∷ cs) n h e = rw (e, all_digits-decimal n, reads n h, integer_of) refl

  -- The slot is read back from the device name of an allocation.
  pub slot_of_tap_name-compute :
      (slot a b : ℕ)
      → slot < slot_count
      → slot_of_tap_name to_number (compute_allocation slot a b).tap_name ≡ some slot
  unfolding slot_of_tap_name compute_allocation
  slot_of_tap_name-compute slot a b h =
      ap (slot_of_suffix to_number) (strip_own tap_name_prefix (decimal slot))
      ∙ slot_of_decimal (decimal slot) slot (omega (arith, h)) refl

  parse_default : parse_pool_prefix to_number default_pool_cidr ≡ some (10, 201)
  unfolding default_pool_cidr
  parse_default =
      parse_pool_prefix-written to_number 10 201 0 0 reads (omega arith) (omega arith) (omega arith)
        (omega arith)

  subnet_default :
      (slot : ℕ)
      → slot < slot_count
      → subnet_for_slot to_number (nat slot) default_pool_cidr ≡ ok (compute_allocation slot 10 201)
  unfolding subnet_for_slot valid_slot subnet_in
  subnet_default slot h = rw parse_default (ground (arith, h))

  -- From the journaled device name of a slot in range, `exposeHttp` and the reclaim hook get the
  -- addresses of that slot in the default pool, whatever pool the slot was allocated from.
  pub rebuild_allocation-compute :
      (slot a b : ℕ)
      → slot < slot_count
      → rebuild_allocation to_number (compute_allocation slot a b).tap_name
        ≡ ok (compute_allocation slot 10 201)
  unfolding rebuild_allocation subnet_of
  rebuild_allocation-compute slot a b h =
      rw (slot_of_tap_name-compute slot a b h) (subnet_default slot h)

  same_pool :
      (slot a b : ℕ)
      → compute_allocation slot 10 201 ≡ compute_allocation slot a b
      → (a ≡ 10) × (b ≡ 201)
  unfolding compute_allocation
  same_pool slot a b e =
      let (p, q, _, _) = dotted_injective 10 201 _ _ a b _ _ (ap (λ x. x.host_ip) e) in
      (sym p, sym q)

  -- For a slot in range, the addresses got from the journaled device name are the allocated ones
  -- exactly when the allocator's pool is the default 10.201.0.0/16, provided that `Number` reads
  -- printed numbers back: for every other pool they are wrong.
  pub rebuild_allocation_exact :
      (slot a b : ℕ)
      → slot < slot_count
      → (rebuild_allocation to_number (compute_allocation slot a b).tap_name
          ≡ ok (compute_allocation slot a b))
        ↔ ((a ≡ 10) × (b ≡ 201))
  rebuild_allocation_exact slot a b h = (
    λ e. same_pool slot a b (ground (arith, sym (rebuild_allocation-compute slot a b h) ∙ e)),
    λ (p, q). rebuild_allocation-compute slot a b h ∙ rw (p, q) refl,
  )
