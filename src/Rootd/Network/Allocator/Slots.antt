-- ===== src/Rootd/Network/Allocator/Slots.antt =====
-- The bitmap of src/rootd/network/allocator.ts: the scan finds the lowest free slot, and `inUse`
-- counts the slots in use.
use mathlib.Core.Bool.{false≢true}
use studiobox.Common.{
  ℕ, zero, suc, ◌+◌, ◌≤◌, ◌<◌, ◌≡◌, ◌≢◌, refl, inl, inr, ◌↔◌, none, some, Bool, true, false, arith,
  nat_beq, if◌then◌else◌, Bool-cases, Option-cases, sym, subst, ◌∙◌,
}
use studiobox.Rootd.Network.Allocator.{
  SubnetAllocator, SubnetAllocation, ok, err, pool_exhausted, mark, scan, allocate,
  compute_allocation, slot_count,
}

-- How many of the first `n` slots are in use.
pub count_used : ℕ → (ℕ → Bool) → ℕ
count_used zero used = 0
count_used (suc n) used = (if used n then 1 else 0) + count_used n used

pub count_used-le : (n : ℕ) (used : ℕ → Bool) → count_used n used ≤ n
unfolding count_used
count_used-le zero used = omega arith
count_used-le (suc n) used = ground (arith, count_used-le n used)

count_used-mark_out :
    (n i : ℕ) (v : Bool) (used : ℕ → Bool)
    → n ≤ i
    → count_used n (mark i v used) ≡ count_used n used
unfolding count_used mark
count_used-mark_out zero i v used h = refl
count_used-mark_out (suc n) i v used h = ground (arith, count_used-mark_out n i v used)

-- Marking a free slot adds one, and freeing a used one takes one away.
pub count_used-take :
    (n i : ℕ) (used : ℕ → Bool)
    → i < n
    → used i ≡ false
    → count_used n (mark i true used) ≡ suc (count_used n used)
unfolding count_used mark
count_used-take zero i used h f = absurd (omega arith)
count_used-take (suc n) i used h f = elim (Bool-cases (nat_beq i n)) [
  | inl same ↦ ground (arith, same, f, count_used-mark_out n i true used)
  | inr other ↦ ground (arith, other, count_used-take n i used)
]

pub count_used-free :
    (n i : ℕ) (used : ℕ → Bool)
    → i < n
    → used i ≡ true
    → suc (count_used n (mark i false used)) ≡ count_used n used
unfolding count_used mark
count_used-free zero i used h f = absurd (omega arith)
count_used-free (suc n) i used h f = elim (Bool-cases (nat_beq i n)) [
  | inl same ↦ ground (arith, same, f, count_used-mark_out n i false used)
  | inr other ↦ ground (arith, other, count_used-free n i used)
]

-- A full count means that every slot is in use, and the other way round.
count_used_full : (n i : ℕ) (used : ℕ → Bool) → count_used n used ≡ n → i < n → used i ≡ true
unfolding count_used
count_used_full zero i used e h = absurd (omega arith)
count_used_full (suc n) i used e h = elim (Bool-cases (nat_beq i n)) [
  | inl same ↦ ground (arith, same, e, count_used-le n used)
  | inr other ↦ ground (arith, other, e, count_used-le n used, count_used_full n i used)
]

full_count_used :
    (n : ℕ) (used : ℕ → Bool) → ((i : ℕ) → i < n → used i ≡ true) → count_used n used ≡ n
unfolding count_used
full_count_used zero used h = refl
full_count_used (suc n) used h =
    ground (arith, h n (omega arith), full_count_used n used (λ i k. h i (omega arith)))

pub record Lowest (rounds slot : ℕ) (used : ℕ → Bool) (found : ℕ) : Type 0 where
  pub from : slot ≤ found
  pub below : found < slot + rounds
  pub free : used found ≡ false
  pub lower : (i : ℕ) → slot ≤ i → i < found → used i ≡ true

scan-Lowest :
    (rounds slot : ℕ) (used : ℕ → Bool) {found : ℕ}
    → scan rounds slot used ≡ some found
    → Lowest rounds slot used found
unfolding scan
scan-Lowest zero slot used e = absurd (ground (arith, e))
scan-Lowest (suc rounds) slot used {found} e = elim (Bool-cases (used slot)) [
  | inl taken ↦
      let low = scan-Lowest rounds (slot + 1) used {found = found} (ground (arith, e, taken)) in
      record {
        from = omega (arith, low.from);
        below = omega (arith, low.below);
        free = low.free;
        lower = λ i h k. elim (Bool-cases (nat_beq slot i)) [
          | inl same ↦ ground (arith, same, taken)
          | inr other ↦ low.lower i (ground (arith, other)) k
        ];
      }
  | inr free ↦
      let here : slot ≡ found = ground (arith, e, free) in
      record {
        from = omega arith;
        below = omega arith;
        free = ground (arith, here, free);
        lower = λ i h k. absurd (omega arith);
      }
]

scan_full :
    (rounds slot : ℕ) (used : ℕ → Bool)
    → scan rounds slot used ≡ none
    → (i : ℕ) → slot ≤ i
    → i < slot + rounds
    → used i ≡ true
unfolding scan
scan_full zero slot used e i h k = absurd (omega arith)
scan_full (suc rounds) slot used e i h k = elim (Bool-cases (nat_beq slot i)) [
  | inl same ↦ ground (arith, same, e)
  | inr other ↦
      scan_full rounds (slot + 1) used (ground (arith, e)) i (ground (arith, other)) (omega arith)
]

pub record Inv (a : SubnetAllocator) : Type 0 where
  pub counted : a.in_use ≡ count_used slot_count a.used

-- What a successful call of `allocate` hands out.
pub record Allocated (a a' : SubnetAllocator) (x : SubnetAllocation) : Type 0 where
  pub lowest : Lowest slot_count 0 a.used x.slot
  pub addresses : x ≡ compute_allocation x.slot a.octet1 a.octet2
  pub taken : a'.used x.slot ≡ true
  pub others : (i : ℕ) → i ≢ x.slot → a'.used i ≡ a.used i
  pub count : a'.in_use ≡ suc a.in_use
  pub octets : (a'.octet1 ≡ a.octet1) × (a'.octet2 ≡ a.octet2)

abbrev given : SubnetAllocator → ℕ → SubnetAllocator × SubnetAllocation
given a i = (
  record a { used = mark i true a.used; in_use = a.in_use + 1 },
  compute_allocation i a.octet1 a.octet2,
)

allocate-some :
    (a : SubnetAllocator) (i : ℕ) → scan slot_count 0 a.used ≡ some i → allocate a ≡ ok (given a i)
unfolding allocate
allocate-some a i e = rw (e, allocate)

allocate-none :
    (a : SubnetAllocator) → scan slot_count 0 a.used ≡ none → allocate a ≡ err pool_exhausted
unfolding allocate
allocate-none a e = rw (e, allocate)

given-Allocated :
    (a : SubnetAllocator) (i : ℕ)
    → scan slot_count 0 a.used ≡ some i
    → Allocated a (given a i).0 (given a i).1
unfolding compute_allocation mark
given-Allocated a i e = record {
  lowest = scan-Lowest slot_count 0 a.used e;
  addresses = refl;
  taken = ground arith;
  others = λ j ne. ground (arith, ne);
  count = omega arith;
  octets = (refl, refl);
}

-- `allocate` hands out the lowest free slot, with the addresses of that slot, and marks it alone.
pub allocate-Allocated :
    (a a' : SubnetAllocator) (x : SubnetAllocation) → allocate a ≡ ok (a', x) → Allocated a a' x
allocate-Allocated a a' x h = elim (Option-cases (scan slot_count 0 a.used)) [
  | inl e ↦ absurd (cc (allocate-none a e))
  | inr (i, e) ↦
      let same : given a i ≡ (a', x) = cc (allocate-some a i e) in
      subst (λ (r : SubnetAllocator × SubnetAllocation). Allocated a r.0 r.1) same
        (given-Allocated a i e)
]

exhausted_count :
    (a : SubnetAllocator) → Inv a → allocate a ≡ err pool_exhausted → a.in_use ≡ slot_count
exhausted_count a v h = elim (Option-cases (scan slot_count 0 a.used)) [
  | inl e ↦
      v.counted
      ∙ full_count_used slot_count a.used
          (λ i k. scan_full slot_count 0 a.used e i (omega arith) (omega arith))
  | inr (i, e) ↦ absurd (cc (allocate-some a i e))
]

count_exhausted :
    (a : SubnetAllocator) → Inv a → a.in_use ≡ slot_count → allocate a ≡ err pool_exhausted
count_exhausted a v h = elim (Option-cases (scan slot_count 0 a.used)) [
  | inl e ↦ allocate-none a e
  | inr (i, e) ↦
      let low = scan-Lowest slot_count 0 a.used e in
      let full =
        count_used_full slot_count i a.used (sym v.counted ∙ h) (omega (arith, low.below)) in
      absurd (false≢true (sym low.free ∙ full))
]

-- `allocate` fails exactly when `inUse` is the number of slots, if `inUse` counts the used slots.
pub allocate_exhausted :
    (a : SubnetAllocator) → Inv a → (allocate a ≡ err pool_exhausted) ↔ (a.in_use ≡ slot_count)
allocate_exhausted a v = (exhausted_count a v, count_exhausted a v)

pub count_used-none : (n : ℕ) → count_used n (λ i. false) ≡ 0
unfolding count_used
count_used-none zero = refl
count_used-none (suc n) = omega (arith, count_used-none n)

pub allocate-Inv :
    (a a' : SubnetAllocator) (x : SubnetAllocation) → allocate a ≡ ok (a', x) → Inv a → Inv a'
allocate-Inv a a' x h v = elim (Option-cases (scan slot_count 0 a.used)) [
  | inl e ↦ absurd (cc (allocate-none a e))
  | inr (i, e) ↦
      let low = scan-Lowest slot_count 0 a.used e in
      let same : given a i ≡ (a', x) = cc (allocate-some a i e) in
      subst (λ (r : SubnetAllocator × SubnetAllocation). Inv r.0) same
        (record {
          counted = omega (
            arith,
            v.counted,
            count_used-take slot_count i a.used (omega (arith, low.below)) low.free,
          );
        })
]
