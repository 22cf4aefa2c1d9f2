-- ===== src/Hostd/Capacity/Ports/Allocation.antt =====
-- What the port loop of src/hostd/capacity.ts claims: free ports of the range, lowest first.
use studiobox.Common.{
  ℕ, zero, suc, ◌+◌, ◌-◌, ◌≤◌, ◌<◌, ◌≡◌, refl, inl, inr, true, false, List, [], ◌∷◌, ◌++◌, arith,
  member, count, remove, member-count, count-remove, length-remove, nat_beq, count-append, length,
  length-append, Bool-cases, if◌then◌else◌,
}
use studiobox.Hostd.Capacity.Ports.{PortRange, allocate_loop, allocate_ports, remove_all}

-- What the loop does to the counts, from `port` on for `rounds` ports.
record Allocates (rounds port n : ℕ) (found allocated found' allocated' : List ℕ) : Type 0 where
  moved : (p : ℕ) → count p allocated' + count p found ≡ count p allocated + count p found'
  grows : (p : ℕ) → count p found ≤ count p found'
  fresh :
      (p : ℕ)
      → count p found < count p found'
      → (count p allocated ≡ 0)
        × (count p found' ≡ suc (count p found))
        × (port ≤ p)
        × (p < port + rounds)
  lengths : length allocated' + length found ≡ length allocated + length found'
  bounded : length found ≤ n → length found' ≤ n
  lowest : (p q : ℕ) → count p found < count p found' → port ≤ q → q < p → 0 < count q allocated'

stop-Allocates :
    (rounds port n : ℕ) (found allocated : List ℕ)
    → Allocates rounds port n found allocated found allocated
stop-Allocates rounds port n found allocated = record {
  moved = λ p. refl;
  grows = λ p. omega arith;
  fresh = λ p h. absurd (omega arith);
  lengths = refl;
  bounded = λ h. h;
  lowest = λ p q h. absurd (omega arith);
}

module _ (rounds port n : ℕ) (found allocated found' allocated' : List ℕ) where
  skip-Allocates :
      member port allocated ≡ true
      → Allocates rounds (port + 1) n found allocated found' allocated'
      → Allocates (suc rounds) port n found allocated found' allocated'
  skip-Allocates taken a = record {
    moved = a.moved;
    grows = a.grows;
    fresh = λ p h. omega (arith, a.fresh p h);
    lengths = a.lengths;
    bounded = a.bounded;
    lowest = λ p q h from below. elim (Bool-cases (nat_beq port q)) [
      | inl same ↦ ground (arith, same, member-count port allocated, a.moved port, a.grows port)
      | inr other ↦ a.lowest p q h (ground (arith, other)) below
    ];
  }

  claim-Allocates :
      member port allocated ≡ false
      → nat_beq (length found) n ≡ false
      → Allocates rounds (port + 1) n (found ++ port ∷ []) (port ∷ allocated) found' allocated'
      → Allocates (suc rounds) port n found allocated found' allocated'
  unfolding count
  claim-Allocates free more a = record {
    moved = λ p. omega (arith, a.moved p, count-append p found (port ∷ []));
    grows = λ p. omega (arith, a.grows p, count-append p found (port ∷ []));
    fresh = λ p h. ground (
      arith,
      a.fresh p,
      a.grows p,
      count-append p found (port ∷ []),
      member-count port allocated,
    );
    lengths = omega (arith, a.lengths, length-append found (port ∷ []));
    bounded = λ h. ground (arith, a.bounded, length-append found (port ∷ []));
    lowest = λ p q h from below. elim (Bool-cases (nat_beq port q)) [
      | inl same ↦ ground (arith, same, a.moved q, a.grows q, count-append q found (port ∷ []))
      | inr other ↦
          a.lowest p q (ground (arith, a.grows p, count-append p found (port ∷ []))) (ground arith)
            below
    ];
  }

loop-Allocates :
    (rounds port n : ℕ) (found allocated : List ℕ)
    → let r = allocate_loop rounds port n found allocated in
      Allocates rounds port n found allocated r.0 r.1
unfolding allocate_loop
loop-Allocates zero port n found allocated = stop-Allocates zero port n found allocated
loop-Allocates (suc rounds) port n found allocated = elim (Bool-cases (nat_beq (length found) n)) [
  | inl done ↦ rw done (stop-Allocates (suc rounds) port n found allocated)
  | inr more ↦ rw more (elim (Bool-cases (member port allocated)) [
    | inl taken ↦ rw taken (
        skip-Allocates rounds port n found allocated _ _ taken
          (loop-Allocates rounds (port + 1) n found allocated))
    | inr free ↦ rw free (
        claim-Allocates rounds port n found allocated _ _ free more
          (loop-Allocates rounds (port + 1) n (found ++ port ∷ []) (port ∷ allocated)))
  ])
]

-- How many of the ports from `port` on are held.
held_in : ℕ → ℕ → List ℕ → ℕ
held_in zero port xs = 0
held_in (suc rounds) port xs = (if member port xs then 1 else 0) + held_in rounds (port + 1) xs

held_in-remove :
    (rounds port a : ℕ) (xs : List ℕ)
    → a < port
    → held_in rounds port (remove a xs) ≡ held_in rounds port xs
unfolding held_in
held_in-remove zero port a xs h = refl
held_in-remove (suc rounds) port a xs h = ground (
  arith,
  held_in-remove rounds (port + 1) a xs,
  member-count port xs,
  member-count port (remove a xs),
  count-remove a port xs,
)

held_in-le : (rounds port : ℕ) (xs : List ℕ) → held_in rounds port xs ≤ length xs
unfolding held_in
held_in-le zero port xs = omega arith
held_in-le (suc rounds) port xs = ground (
  arith,
  held_in-le rounds (port + 1) (remove port xs),
  held_in-remove rounds (port + 1) port xs,
  member-count port xs,
  length-remove port xs,
)

-- A port that is put in front of the range is not seen by it.
held_in-cons :
    (rounds port a : ℕ) (xs : List ℕ)
    → a < port
    → held_in rounds port (a ∷ xs) ≡ held_in rounds port xs
unfolding held_in member
held_in-cons zero port a xs h = refl
held_in-cons (suc rounds) port a xs h = ground (arith, held_in-cons rounds (port + 1) a xs)

-- The loop finds as many as it is asked for where the range has so many that are free.
loop-length :
    (rounds port n : ℕ) (found allocated : List ℕ)
    → length found ≤ n
    → n + held_in rounds port allocated ≤ length found + rounds
    → length (allocate_loop rounds port n found allocated).0 ≡ n
unfolding allocate_loop held_in
loop-length zero port n found allocated h k = omega arith
loop-length (suc rounds) port n found allocated h k = elim (Bool-cases (nat_beq (length found) n)) [
  | inl done ↦ rw done (ground arith)
  | inr more ↦ rw more (elim (Bool-cases (member port allocated)) [
    | inl taken ↦
        rw taken (loop-length rounds (port + 1) n found allocated h (ground (arith, taken, k)))
    | inr free ↦ rw free (
        loop-length rounds (port + 1) n (found ++ port ∷ []) (port ∷ allocated)
          (ground (arith, length-append found (port ∷ [])))
          (ground (
            arith,
            free,
            k,
            length-append found (port ∷ []),
            held_in-cons rounds (port + 1) port allocated,
          )))
  ])
]

-- What a claim of `n` ports does to the set of allocated ports.
pub record Claims (range : PortRange) (n : ℕ) (allocated claimed allocated' : List ℕ) : Type 0 where
  pub moved : (p : ℕ) → count p allocated' ≡ count p allocated + count p claimed
  pub fresh :
      (p : ℕ)
      → 0 < count p claimed
      → (count p allocated ≡ 0) × (count p claimed ≡ 1) × (range.start ≤ p) × (p < range.end)
  pub lengths : length allocated' ≡ length allocated + length claimed
  pub bounded : length claimed ≤ n
  pub enough : n + length allocated + range.start ≤ range.end → length claimed ≡ n
  pub lowest : (p q : ℕ) → 0 < count p claimed → range.start ≤ q → q < p → 0 < count q allocated'

pub allocate_ports-Claims :
    (range : PortRange) (n : ℕ) (allocated : List ℕ)
    → let r = allocate_ports range n allocated in Claims range n allocated r.0 r.1
unfolding allocate_ports count
allocate_ports-Claims range n allocated =
    let rounds : ℕ = range.end - range.start in
    let a = loop-Allocates rounds range.start n [] allocated in
    record {
      moved = λ p. omega (arith, a.moved p);
      fresh = λ p h. omega (arith, a.fresh p h);
      lengths = omega (arith, a.lengths);
      bounded = a.bounded (omega arith);
      enough = λ h.
          loop-length rounds range.start n [] allocated (omega arith)
            (omega (arith, held_in-le rounds range.start allocated));
      lowest = λ p q h. a.lowest p q h;
    }

pub count-remove_all :
    (p : ℕ) (ports xs : List ℕ)
    → count p (remove_all ports xs) ≡ (if member p ports then 0 else count p xs)
unfolding remove_all member
count-remove_all p [] xs = ground arith
count-remove_all p (port ∷ ports) xs =
    ground (arith, count-remove_all p ports (remove port xs), count-remove port p xs)

-- The ports of a reservation all stand in the set, so deleting them shrinks it by their number.
pub length-remove_all :
    (ports xs : List ℕ)
    → ((p : ℕ) → count p xs ≤ 1)
    → ((p : ℕ) → count p ports ≤ count p xs)
    → length (remove_all ports xs) + length ports ≡ length xs
unfolding remove_all count
length-remove_all [] xs once held = omega arith
length-remove_all (port ∷ ports) xs once held = ground (
  arith,
  length-remove_all ports (remove port xs) (λ p. ground (arith, once p, count-remove port p xs))
      (λ p. ground (arith, once p, held p, count-remove port p xs)),
  length-remove port xs,
  once port,
  held port,
)
