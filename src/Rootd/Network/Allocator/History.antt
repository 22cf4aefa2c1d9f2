-- ===== src/Rootd/Network/Allocator/History.antt =====
-- Histories of calls on one allocator of src/rootd/network/allocator.ts. A call that
-- throws changes nothing.
use mathlib.Core.Bool.{false≢true}
use mathlib.Core.Path.{subst₂}
use studiobox.Common.{
  ap, ℕ, ◌<◌, ◌≡◌, ◌≢◌, refl, inl, inr, Option, none, some, true, List, [], ◌∷◌, arith, nat_beq,
  Bool-cases, sym, ◌∙◌,
}
use studiobox.Common.JsNumber.{JsNumber, nat}
use studiobox.Rootd.Network.Allocator.{
  SubnetAllocator, SubnetAllocation, Result, ok, err, mark, allocate, release, reserve,
  create_allocator, compute_allocation, valid_slot, slot_count, free_slot, reserve_slot,
}
use studiobox.Rootd.Network.Allocator.Addresses.{Disjoint, allocation-Disjoint}
use studiobox.Rootd.Network.Allocator.Slots.{
  Inv, allocate-Allocated, count_used-none, count_used-take, count_used-free, allocate-Inv,
}

pub data Call : Type 0 where
  allocates : Call
  releases : JsNumber → Call
  reserves : JsNumber → Call

abbrev pub after_allocate :
    SubnetAllocator → Result (SubnetAllocator × SubnetAllocation) → SubnetAllocator
after_allocate a (ok (a', x)) = a'
after_allocate a (err e) = a

abbrev pub after : SubnetAllocator → Result SubnetAllocator → SubnetAllocator
after a (ok a') = a'
after a (err e) = a

unfoldable pub step : SubnetAllocator → Call → SubnetAllocator
step a allocates = after_allocate a (allocate a)
step a (releases slot) = after a (release a slot)
step a (reserves slot) = after a (reserve a slot)

unfoldable pub run : SubnetAllocator → List Call → SubnetAllocator
run a [] = a
run a (c ∷ cs) = run (step a c) cs

pub create-Inv : (pool : ℕ × ℕ) → Inv (create_allocator pool)
unfolding create_allocator
create-Inv (a, b) = record { counted = sym (count_used-none slot_count) }

after_allocate-Inv :
    (a : SubnetAllocator) (r : Result (SubnetAllocator × SubnetAllocation))
    → allocate a ≡ r
    → Inv a
    → Inv (after_allocate a r)
after_allocate-Inv a (ok (a', x)) e v = allocate-Inv a a' x e v
after_allocate-Inv a (err k) e v = v

free_slot-Inv :
    (a : SubnetAllocator) (o : Option ℕ)
    → ((i : ℕ) → o ≡ some i → i < slot_count)
    → Inv a
    → Inv (after a (free_slot a o))
unfolding free_slot
free_slot-Inv a none h v = v
free_slot-Inv a (some i) h v = elim (Bool-cases (a.used i)) [
  | inl taken ↦ rw taken (record {
    counted = omega (arith, v.counted, count_used-free slot_count i a.used (h i refl) taken);
  })
  | inr free ↦ rw free v
]

pub reserve_slot-Inv :
    (a : SubnetAllocator) (o : Option ℕ)
    → ((i : ℕ) → o ≡ some i → i < slot_count)
    → Inv a
    → Inv (after a (reserve_slot a o))
unfolding reserve_slot
reserve_slot-Inv a none h v = v
reserve_slot-Inv a (some i) h v = elim (Bool-cases (a.used i)) [
  | inl taken ↦ rw taken v
  | inr free ↦ rw free (record {
    counted = omega (arith, v.counted, count_used-take slot_count i a.used (h i refl) free);
  })
]

pub valid_bound : (s : JsNumber) (i : ℕ) → valid_slot s ≡ some i → i < slot_count
unfolding valid_slot
valid_bound (nat n) i e = ground arith
valid_bound _ i e = absurd (ground arith)

step-Inv : (a : SubnetAllocator) (c : Call) → Inv a → Inv (step a c)
unfolding step release reserve
step-Inv a allocates v = after_allocate-Inv a (allocate a) refl v
step-Inv a (releases s) v = free_slot-Inv a (valid_slot s) (valid_bound s) v
step-Inv a (reserves s) v = reserve_slot-Inv a (valid_slot s) (valid_bound s) v

-- After any calls `inUse` is the number of slots in use.
pub run-Inv : (a : SubnetAllocator) (cs : List Call) → Inv a → Inv (run a cs)
unfolding run
run-Inv a [] v = v
run-Inv a (c ∷ cs) v = run-Inv (step a c) cs (step-Inv a c v)

-- After any calls on a new allocator `inUse` is the number of slots in use.
pub run-create-counted : (pool : ℕ × ℕ) (cs : List Call) → Inv (run (create_allocator pool) cs)
run-create-counted pool cs = run-Inv (create_allocator pool) cs (create-Inv pool)

-- The call does not release the slot.
abbrev pub Keeps : ℕ → Call → Type 0
Keeps slot (releases s) = s ≢ nat slot
Keeps slot _ = Unit {0}

abbrev pub AllKeep : ℕ → List Call → Type 0
AllKeep slot [] = Unit {0}
AllKeep slot (c ∷ cs) = Keeps slot c × AllKeep slot cs

-- The slot is in use, in an allocator over the same pool.
record Held (a b : SubnetAllocator) (slot : ℕ) : Type 0 where
  taken : b.used slot ≡ true
  first : b.octet1 ≡ a.octet1
  second : b.octet2 ≡ a.octet2

after_allocate-Held :
    (a b : SubnetAllocator) (slot : ℕ) (r : Result (SubnetAllocator × SubnetAllocation))
    → allocate b ≡ r
    → Held a b slot
    → Held a (after_allocate b r) slot
after_allocate-Held a b slot (ok (b', y)) e h =
    let g = allocate-Allocated b b' y e in
    record {
      taken = elim (Bool-cases (nat_beq slot y.slot)) [
        | inl same ↦ ground (arith, same, g.taken)
        | inr other ↦ g.others slot (ground (arith, other)) ∙ h.taken
      ];
      first = g.octets.0 ∙ h.first;
      second = g.octets.1 ∙ h.second;
    }
after_allocate-Held a b slot (err k) e h = h

release-Held :
    (a b : SubnetAllocator) (slot : ℕ) (s : JsNumber)
    → s ≢ nat slot
    → Held a b slot
    → Held a (after b (release b s)) slot
unfolding release valid_slot mark
release-Held a b slot (nat n) ne h = record {
  taken = ground (arith, h.taken, ne);
  first = ground (arith, h.first);
  second = ground (arith, h.second);
}
release-Held a b slot _ ne h = h

reserve-Held :
    (a b : SubnetAllocator) (slot : ℕ) (o : Option ℕ)
    → Held a b slot
    → Held a (after b (reserve_slot b o)) slot
unfolding reserve_slot mark
reserve-Held a b slot none h = h
reserve-Held a b slot (some n) h = record {
  taken = ground (arith, h.taken);
  first = ground (arith, h.first);
  second = ground (arith, h.second);
}

step-Held :
    (a b : SubnetAllocator) (slot : ℕ) (c : Call)
    → Keeps slot c
    → Held a b slot
    → Held a (step b c) slot
unfolding step reserve
step-Held a b slot allocates k h = after_allocate-Held a b slot (allocate b) refl h
step-Held a b slot (releases s) k h = release-Held a b slot s k h
step-Held a b slot (reserves s) k h = reserve-Held a b slot (valid_slot s) h

run-Held :
    (a b : SubnetAllocator) (slot : ℕ) (cs : List Call)
    → AllKeep slot cs
    → Held a b slot
    → Held a (run b cs) slot
unfolding run
run-Held a b slot [] k h = h
run-Held a b slot (c ∷ cs) (k, ks) h = run-Held a (step b c) slot cs ks (step-Held a b slot c k h)

-- Two allocations that are live at once share no device, address, subnet or MAC: while the first
-- slot is not released, a later allocation has other ones, whatever other calls come between.
pub live-Disjoint :
    (a a' b' : SubnetAllocator) (x y : SubnetAllocation) (cs : List Call)
    → allocate a ≡ ok (a', x)
    → AllKeep x.slot cs
    → allocate (run a' cs) ≡ ok (b', y)
    → Disjoint x y
live-Disjoint a a' b' x y cs first kept second =
    let g = allocate-Allocated a a' x first in
    let b = run a' cs in
    let g' = allocate-Allocated b b' y second in
    let held =
      run-Held a a' x.slot cs kept
        (record { taken = g.taken; first = g.octets.0; second = g.octets.1 }) in
    let ne : x.slot ≢ y.slot =
      λ e. false≢true (sym g'.lowest.free ∙ ap b.used (sym e) ∙ held.taken) in
    let same : compute_allocation y.slot b.octet1 b.octet2
        ≡ compute_allocation y.slot a.octet1 a.octet2 =
      cc (held.first, held.second) in
    subst₂ Disjoint (sym g.addresses) (sym (g'.addresses ∙ same)) (
      allocation-Disjoint a.octet1 a.octet2 x.slot y.slot ne (omega (arith, g.lowest.below))
        (omega (arith, g'.lowest.below)))
