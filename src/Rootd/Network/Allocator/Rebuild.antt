-- ===== src/Rootd/Network/Allocator/Rebuild.antt =====
-- The rebuild of the bitmap of src/rootd/network/allocator.ts from journaled slots.
use studiobox.Common.{
  ℕ, ◌<◌, ◌≡◌, refl, true, false, List, [], ◌∷◌, arith, nat_beq, if◌then◌else◌, sym, ◌∙◌, member,
}
use studiobox.Common.JsNumber.{nat}
use studiobox.Rootd.Network.Allocator.{
  SubnetAllocator, SubnetAllocation, ok, mark, allocate, reserve, create_allocator, valid_slot,
  slot_count,
}
use studiobox.Rootd.Network.Allocator.History.{after, reserve_slot-Inv, valid_bound, create-Inv}
use studiobox.Rootd.Network.Allocator.Slots.{Inv, allocate-Allocated}

-- `reserve` for every journaled slot.
unfoldable pub rebuild : SubnetAllocator → List ℕ → SubnetAllocator
rebuild a [] = a
rebuild a (slot ∷ slots) = rebuild (after a (reserve a (nat slot))) slots

abbrev pub InPool : List ℕ → Type 0
InPool [] = Unit {0}
InPool (slot ∷ slots) = (slot < slot_count) × InPool slots

reserve_used :
    (a : SubnetAllocator) (slot i : ℕ)
    → slot < slot_count
    → (after a (reserve a (nat slot))).used i ≡ (if nat_beq slot i then true else a.used i)
unfolding reserve valid_slot mark
reserve_used a slot i h = ground arith

rebuild_used :
    (a : SubnetAllocator) (slots : List ℕ) (i : ℕ)
    → InPool slots
    → (rebuild a slots).used i ≡ (if member i slots then true else a.used i)
unfolding rebuild member
rebuild_used a [] i h = refl
rebuild_used a (slot ∷ slots) i (h, hs) =
    ground
      (arith, rebuild_used (after a (reserve a (nat slot))) slots i hs, reserve_used a slot i h)

rebuild-Inv : (a : SubnetAllocator) (slots : List ℕ) → Inv a → Inv (rebuild a slots)
unfolding rebuild reserve
rebuild-Inv a [] v = v
rebuild-Inv a (slot ∷ slots) v =
    rebuild-Inv (after a (reserve a (nat slot))) slots
      (reserve_slot-Inv a (valid_slot (nat slot)) (valid_bound (nat slot)) v)

-- Rebuilding a fresh allocator from journaled slots in range marks exactly those slots, and
-- `inUse` is their number.
pub rebuild_exact :
    (pool : ℕ × ℕ) (slots : List ℕ)
    → InPool slots
    → Inv (rebuild (create_allocator pool) slots)
      × ((i : ℕ) → (rebuild (create_allocator pool) slots).used i ≡ member i slots)
unfolding create_allocator
rebuild_exact pool slots h =
    (rebuild-Inv (create_allocator pool) slots (create-Inv pool), λ i. marked i)
  where
    marked : (i : ℕ) → (rebuild (create_allocator pool) slots).used i ≡ member i slots
    marked i = ground (arith, rebuild_used (create_allocator pool) slots i h)

-- After a rebuild from journaled slots in range, the next allocated slot is none of them.
pub rebuild_avoids :
    (pool : ℕ × ℕ) (slots : List ℕ) (a' : SubnetAllocator) (x : SubnetAllocation)
    → InPool slots
    → allocate (rebuild (create_allocator pool) slots) ≡ ok (a', x)
    → member x.slot slots ≡ false
rebuild_avoids pool slots a' x h e =
    sym ((rebuild_exact pool slots h).1 x.slot)
    ∙ (allocate-Allocated (rebuild (create_allocator pool) slots) a' x e).lowest.free
