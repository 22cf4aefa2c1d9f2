-- ===== src/Hostd/Leases/Invariant.antt =====
-- What every operation of src/hostd/leases.ts keeps: the table holds the unsettled entries only,
-- and `onExpire` has not been called for an unsettled entry.
use text.Mathlib.TextEquality.{eq_iff}
use studiobox.Common.{
  ℕ, ◌+◌, ◌≤◌, ◌<◌, ◌≡◌, refl, inl, inr, String, none, some, true, false, List, [], ◌∷◌, ◌++◌,
  arith, nat_beq, ◌==◌, if◌then◌else◌, string_eq, nat_eq, Bool-cases, Option-cases,
}
use studiobox.Common.Map.{Map, get, get-set, get-delete}
use studiobox.Hostd.Leases.{
  LeaseManager, LeaseEntry, Expiry, discard_entry, settle_entry, settle, discard,
}

unfoldable pub expiries_of : ℕ → List Expiry → ℕ
expiries_of at [] = 0
expiries_of at (x ∷ xs) = (if nat_beq x.entry at then 1 else 0) + expiries_of at xs

pub expiries_of-append :
    (at : ℕ) (xs ys : List Expiry)
    → expiries_of at (xs ++ ys) ≡ expiries_of at xs + expiries_of at ys
unfolding expiries_of
expiries_of-append at [] ys = omega arith
expiries_of-append at (x ∷ xs) ys = omega (arith, expiries_of-append at xs ys)

-- The entry at `at` is in the heap, unsettled, and has the id.
pub record Live (heap : Map ℕ LeaseEntry) (id : String) (at : ℕ) : Type 0 where
  pub entry : LeaseEntry
  pub held : get heap at ≡ some entry
  pub own : entry.id ≡ id
  pub pending : entry.settled ≡ false

pub record Consistent (next : ℕ) (heap : Map ℕ LeaseEntry) (leases : Map String ℕ)
    (expired : List Expiry) : Type 0 where
  pub live : (id : String) (at : ℕ) → get leases id ≡ some at → Live heap id at
  pub fresh : (at : ℕ) (entry : LeaseEntry) → get heap at ≡ some entry → at < next
  pub quiet :
      (at : ℕ) (entry : LeaseEntry)
      → get heap at ≡ some entry
      → entry.settled ≡ false
      → expiries_of at expired ≡ 0
  pub unborn : (at : ℕ) → next ≤ at → expiries_of at expired ≡ 0

abbrev pub Inv : LeaseManager → Type 0
Inv m = Consistent m.next m.heap m.leases m.expired

module _ (m : LeaseManager) (at : ℕ) (entry : LeaseEntry) (v : Inv m)
    (held : get m.heap at ≡ some entry) (pending : entry.settled ≡ false) where
  closed_heap :
      (i : ℕ)
      → get (discard_entry at (some entry) m).heap i
        ≡ (if nat_beq at i then some (record entry { settled = true }) else get m.heap i)
  unfolding discard_entry
  closed_heap i = rw pending (get-set m.heap at i (record entry { settled = true }))

  closed_leases :
      (id : String)
      → get (discard_entry at (some entry) m).leases id
        ≡ (if entry.id == id then none else get m.leases id)
  unfolding discard_entry
  closed_leases id = rw pending (get-delete m.leases entry.id id)

  closed_rest :
      ((discard_entry at (some entry) m).next ≡ m.next)
      × ((discard_entry at (some entry) m).expired ≡ m.expired)
  unfolding discard_entry
  closed_rest = rw pending (refl, refl)

  closed-Live :
      (id : String) (i : ℕ)
      → get (discard_entry at (some entry) m).leases id ≡ some i
      → Live (discard_entry at (some entry) m).heap id i
  closed-Live id i h =
      let other : (entry.id == id) ≡ false = ground (arith, h, closed_leases id) in
      let old = v.live id i (ground (arith, h, closed_leases id)) in
      record {
        entry = old.entry;
        held = elim (Bool-cases (nat_beq at i)) [
          | inl same ↦
              absurd (ground (arith, same, held, old.held, old.own, other, eq_iff entry.id id))
          | inr apart ↦ ground (arith, closed_heap i, apart, old.held)
        ];
        own = old.own;
        pending = old.pending;
      }

  closed_fresh :
      (i : ℕ) (e : LeaseEntry)
      → get (discard_entry at (some entry) m).heap i ≡ some e
      → i < (discard_entry at (some entry) m).next
  closed_fresh i e h = elim (Bool-cases (nat_beq at i)) [
    | inl same ↦ ground (arith, same, v.fresh at entry held, closed_rest.0)
    | inr apart ↦
        let old = v.fresh i e (ground (arith, closed_heap i, apart, h)) in
        omega (arith, old, closed_rest.0)
  ]

  closed_quiet :
      (i : ℕ) (e : LeaseEntry)
      → get (discard_entry at (some entry) m).heap i ≡ some e
      → e.settled ≡ false
      → expiries_of i (discard_entry at (some entry) m).expired ≡ 0
  closed_quiet i e h o = elim (Bool-cases (nat_beq at i)) [
    | inl same ↦ absurd (ground (arith, closed_heap i, same, h, o))
    | inr apart ↦ rw closed_rest.1 (v.quiet i e (ground (arith, closed_heap i, apart, h)) o)
  ]

  pub discard-Inv : Inv (discard_entry at (some entry) m)
  discard-Inv = record {
    live = closed-Live;
    fresh = λ i e h. closed_fresh i e h;
    quiet = λ i e h o. closed_quiet i e h o;
    unborn = λ i h. rw closed_rest.1 (v.unborn i (omega (arith, h, closed_rest.0)));
  }

  -- Settling is discarding and one call of the hook.
  settled_lem : settle_entry at (some entry) m ≡ record (discard_entry at (some entry) m) {
    expired = m.expired ++ record { entry = at; sandbox_id = entry.sandbox_id } ∷ [];
  }
  unfolding settle_entry
  settled_lem = rw pending refl

  settled_count :
      (i : ℕ)
      → expiries_of i (m.expired ++ record { entry = at; sandbox_id = entry.sandbox_id } ∷ [])
        ≡ expiries_of i m.expired + (if nat_beq at i then 1 else 0)
  unfolding expiries_of
  settled_count i = omega (
    arith,
    expiries_of-append i m.expired (record { entry = at; sandbox_id = entry.sandbox_id } ∷ []),
  )

  pub settle-Inv : Inv (settle_entry at (some entry) m)
  settle-Inv = rw settled_lem (record {
    live = closed-Live;
    fresh = closed_fresh;
    quiet = λ i e h o. elim (Bool-cases (nat_beq at i)) [
      | inl same ↦ absurd (ground (arith, closed_heap i, same, h, o))
      | inr apart ↦
          rw (settled_count i, apart)
            (omega (arith, v.quiet i e (ground (arith, closed_heap i, apart, h)) o))
    ];
    unborn = λ i h. elim (Bool-cases (nat_beq at i)) [
      | inl same ↦ absurd (ground (arith, same, v.fresh at entry held, closed_rest.0, h))
      | inr apart ↦
          rw (settled_count i, apart) (omega (arith, v.unborn i (omega (arith, h, closed_rest.0))))
    ];
  })

pub discard_any-Inv : (at : ℕ) (m : LeaseManager) → Inv m → Inv (discard at m)
unfolding discard discard_entry
discard_any-Inv at m v = elim (Option-cases (get m.heap at)) [
  | inl e ↦ rw e v
  | inr (entry, e) ↦ elim (Bool-cases entry.settled) [
    | inl done ↦ rw (e, done) v
    | inr pending ↦ rw e (discard-Inv m at entry v e pending)
  ]
]

pub settle_any-Inv : (at : ℕ) (m : LeaseManager) → Inv m → Inv (settle at m)
unfolding settle settle_entry
settle_any-Inv at m v = elim (Option-cases (get m.heap at)) [
  | inl e ↦ rw e v
  | inr (entry, e) ↦ elim (Bool-cases entry.settled) [
    | inl done ↦ rw (e, done) v
    | inr pending ↦ rw e (settle-Inv m at entry v e pending)
  ]
]
