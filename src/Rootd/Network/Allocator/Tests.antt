-- ===== src/Rootd/Network/Allocator/Tests.antt =====
-- Runs of the allocator, and each theorem at an input that meets its hypotheses.
use studiobox.Common.{ℕ, ◌≡◌, refl, [], ◌∷◌, arith, true, member}
use studiobox.Rootd.Network.Allocator.{
  SubnetAllocator, create_allocator, compute_allocation, allocate, scan, ok, mark, take_slot,
  reserve, reserve_slot, valid_slot,
}
use studiobox.Rootd.Network.Allocator.Addresses.{Disjoint}
use studiobox.Rootd.Network.Allocator.Slots.{Inv}
use studiobox.Rootd.Network.Allocator.History.{run, live-Disjoint}
use studiobox.Rootd.Network.Allocator.Rebuild.{rebuild_exact, rebuild}

abbrev fresh : SubnetAllocator
fresh = create_allocator (10, 201)

abbrev one_used : SubnetAllocator
one_used = record fresh { used = mark 0 true fresh.used; in_use = 1 }

abbrev two_used : SubnetAllocator
two_used = record fresh { used = mark 1 true one_used.used; in_use = 2 }

first_allocate : allocate fresh ≡ ok (one_used, compute_allocation 0 10 201)
unfolding allocate take_slot create_allocator scan mark
first_allocate = refl

second_allocate : allocate one_used ≡ ok (two_used, compute_allocation 1 10 201)
unfolding allocate take_slot create_allocator scan mark
second_allocate = refl

live-Disjoint_example : Disjoint (compute_allocation 0 10 201) (compute_allocation 1 10 201)
unfolding run
live-Disjoint_example =
    live-Disjoint fresh one_used two_used (compute_allocation 0 10 201)
      (compute_allocation 1 10 201) [] first_allocate tt second_allocate

rebuild_exact_example :
    Inv (rebuild (create_allocator (10, 201)) (3 ∷ 0 ∷ []))
    × ((i : ℕ) → (rebuild (create_allocator (10, 201)) (3 ∷ 0 ∷ [])).used i ≡ member i (3 ∷ 0 ∷ []))
rebuild_exact_example = rebuild_exact (10, 201) (3 ∷ 0 ∷ []) (omega arith, (omega arith, tt))

abbrev rebuilt : SubnetAllocator
rebuilt = record fresh { used = mark 0 true (mark 3 true fresh.used); in_use = 2 }

rebuild_lem : rebuild fresh (3 ∷ 0 ∷ []) ≡ rebuilt
unfolding rebuild create_allocator mark reserve reserve_slot valid_slot
rebuild_lem = refl

rebuilt-allocate :
    allocate (rebuild fresh (3 ∷ 0 ∷ []))
    ≡ ok (
      record rebuilt { used = mark 1 true rebuilt.used; in_use = 3 },
      compute_allocation 1 10 201,
    )
unfolding allocate take_slot create_allocator scan mark
rebuilt-allocate = rw rebuild_lem refl
