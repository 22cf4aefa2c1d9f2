-- ===== src/Hostd/Leases/Once.antt =====
-- An entry of src/hostd/leases.ts settles once: after that, no step calls `onExpire` for it again.
use studiobox.Common.{
  ℕ, ◌≤◌, ◌<◌, ◌≡◌, refl, ◌∙◌, inl, inr, String, some, true, false, List, [], ◌∷◌, arith, nat_beq,
  leb, string_eq, nat_eq, Bool-cases, Option-cases,
}
use studiobox.Common.Map.{Map, get, get-set, get-set_self}
use studiobox.Hostd.Leases.{
  Expiry, settle_entry, discard_entry, LeaseManager, LeaseEntry, Trigger, timer, register,
  register_late, settle, discard, release, settle_found, revoke, discard_found,
}
use studiobox.Hostd.Leases.Events.{Call, run, fire, fire_trigger, drop_trigger}
use studiobox.Hostd.Leases.Extension.{Updated, updated_heap}
use studiobox.Hostd.Leases.Steps.{Kept, run_kept, any_call}
use studiobox.Hostd.Leases.Invariant.{Inv, expiries_of, expiries_of-append}

-- The entry at `at` is settled, and `onExpire` has been called `n` times for it.
pub record Done (at n : ℕ) (next : ℕ) (heap : Map ℕ LeaseEntry) (expired : List Expiry)
    : Type 0 where
  pub entry : LeaseEntry
  pub born : at < next
  pub held : get heap at ≡ some entry
  pub settled : entry.settled ≡ true
  pub count : expiries_of at expired ≡ n

abbrev pub IsDone : ℕ → ℕ → LeaseManager → Type 0
IsDone at n m = Done at n m.next m.heap m.expired

module _ (at n : ℕ) where
  count_other :
      (i : ℕ) (sandbox : String)
      → nat_beq i at ≡ false
      → expiries_of at (record { entry = i; sandbox_id = sandbox } ∷ []) ≡ 0
  unfolding expiries_of
  count_other i sandbox h = ground (arith, h)

  discard_entry-IsDone : (i : ℕ) (m : LeaseManager) → IsDone at n m → IsDone at n (discard i m)
  unfolding discard discard_entry
  discard_entry-IsDone i m d = elim (Option-cases (get m.heap i)) [
    | inl e ↦ rw e d
    | inr (entry, e) ↦ elim (Bool-cases entry.settled) [
      | inl done ↦ rw (e, done) d
      | inr pending ↦
          let apart : nat_beq i at ≡ false = ground (arith, e, d.held, d.settled, pending) in
          rw (e, pending)
            (record {
              entry = d.entry;
              born = d.born;
              held = rw (get-set m.heap i at (record entry { settled = true }), apart) d.held;
              settled = d.settled;
              count = d.count;
            })
    ]
  ]

  settle_entry-IsDone : (i : ℕ) (m : LeaseManager) → IsDone at n m → IsDone at n (settle i m)
  unfolding settle settle_entry discard_entry
  settle_entry-IsDone i m d = elim (Option-cases (get m.heap i)) [
    | inl e ↦ rw e d
    | inr (entry, e) ↦ elim (Bool-cases entry.settled) [
      | inl done ↦ rw (e, done) d
      | inr pending ↦
          let apart : nat_beq i at ≡ false = ground (arith, e, d.held, d.settled, pending) in
          rw (e, pending)
            (record {
              entry = d.entry;
              born = d.born;
              held = rw (get-set m.heap i at (record entry { settled = true }), apart) d.held;
              settled = d.settled;
              count = omega (
                arith,
                d.count,
                count_other i entry.sandbox_id apart,
                expiries_of-append at m.expired
                    (record { entry = i; sandbox_id = entry.sandbox_id } ∷ []),
              );
            })
    ]
  ]

  register-IsDone :
      (m : LeaseManager) (entry : LeaseEntry) (trigger : Trigger)
      → IsDone at n m
      → IsDone at n (register m entry trigger)
  unfolding register
  register-IsDone m entry trigger d = record {
    entry = d.entry;
    born = omega (arith, d.born);
    held = ground (arith, get-set m.heap m.next at entry, d.born, d.held);
    settled = d.settled;
    count = d.count;
  }

  Updated-IsDone :
      (m m' : LeaseManager) (i : ℕ) (entry entry' : LeaseEntry)
      → Updated m m' i entry entry'
      → IsDone at n m
      → IsDone at n m'
  Updated-IsDone m m' i entry entry' u d = elim (Bool-cases (nat_beq i at)) [
    | inl same ↦ record {
      entry = entry';
      born = omega (arith, d.born, u.next);
      held = rw (updated_heap m m' i entry entry' u at, same) refl;
      settled = u.settled ∙ ground (arith, same, u.held, d.held, d.settled);
      count = rw u.expired d.count;
    }
    | inr apart ↦ record {
      entry = d.entry;
      born = omega (arith, d.born, u.next);
      held = rw (updated_heap m m' i entry entry' u at, apart) d.held;
      settled = d.settled;
      count = rw u.expired d.count;
    }
  ]

  register_late-IsDone :
      (m : LeaseManager) (entry : LeaseEntry) → IsDone at n m → IsDone at n (register_late m entry)
  unfolding register_late
  register_late-IsDone m entry d = record {
    entry = d.entry;
    born = omega (arith, d.born);
    held =
        ground (arith, get-set m.heap m.next at (record entry { settled = true }), d.born, d.held);
    settled = d.settled;
    count =
        let apart : nat_beq m.next at ≡ false = ground (arith, d.born) in
        omega (
          arith,
          d.count,
          count_other m.next entry.sandbox_id apart,
          expiries_of-append at m.expired
              (record { entry = m.next; sandbox_id = entry.sandbox_id } ∷ []),
        );
  }

  pub IsDone-Kept : Kept (IsDone at n) (Unit {0})
  IsDone-Kept = record {
    registers_late = λ l m entry d. register_late-IsDone m entry d;
    settles = settle_entry-IsDone;
    discards = discard_entry-IsDone;
    drops = λ handle m d. d;
    registers = λ m entry trigger pending d. register-IsDone m entry trigger d;
    updates = Updated-IsDone;
  }

-- Settling an unsettled entry makes the one call.
settle-IsDone :
    (at : ℕ) (m : LeaseManager) (entry : LeaseEntry)
    → Inv m
    → get m.heap at ≡ some entry
    → entry.settled ≡ false
    → IsDone at 1 (settle at m)
unfolding settle settle_entry discard_entry expiries_of
settle-IsDone at m entry v held pending =
    rw (held, pending)
      (record {
        entry = record entry { settled = true };
        born = v.fresh at entry held;
        held = get-set_self m.heap at (record entry { settled = true });
        settled = refl;
        count = omega (
          arith,
          v.quiet at entry held pending,
          expiries_of-append at m.expired
              (record { entry = at; sandbox_id = entry.sandbox_id } ∷ []),
          own_count at entry.sandbox_id,
        );
      })
  where
    own_count :
        (i : ℕ) (sandbox : String)
        → expiries_of i (record { entry = i; sandbox_id = sandbox } ∷ []) ≡ 1
    own_count i sandbox = ground arith

discard-IsDone :
    (at : ℕ) (m : LeaseManager) (entry : LeaseEntry)
    → Inv m
    → get m.heap at ≡ some entry
    → entry.settled ≡ false
    → IsDone at 0 (discard at m)
unfolding discard discard_entry
discard-IsDone at m entry v held pending =
    rw (held, pending)
      (record {
        entry = record entry { settled = true };
        born = v.fresh at entry held;
        held = get-set_self m.heap at (record entry { settled = true });
        settled = refl;
        count = v.quiet at entry held pending;
      })

-- A lease of a consistent manager that is released has its sandbox killed exactly once: `onExpire`
-- has been called once for it after any later calls, timers and closed connections.
pub release_once :
    (m : LeaseManager) (id : String) (at : ℕ) (cs : List Call)
    → Inv m
    → get m.leases id ≡ some at
    → expiries_of at (run (release id m) cs).expired ≡ 1
unfolding release settle_found
release_once m id at cs v listed =
    let lease = v.live id at listed in
    (run_kept (IsDone at 1) _ (IsDone-Kept at 1) (release id m) cs (any_call cs)
      (rw listed (settle-IsDone at m lease.entry v lease.held lease.pending))).count

-- A lease of a consistent manager that is revoked never has its sandbox killed: `onExpire` is not
-- called for it by any later call, timer or closed connection.
pub revoke_silent :
    (m : LeaseManager) (id : String) (at : ℕ) (cs : List Call)
    → Inv m
    → get m.leases id ≡ some at
    → expiries_of at (run (revoke id m) cs).expired ≡ 0
unfolding revoke discard_found
revoke_silent m id at cs v listed =
    let lease = v.live id at listed in
    (run_kept (IsDone at 0) _ (IsDone-Kept at 0) (revoke id m) cs (any_call cs)
      (rw listed (discard-IsDone at m lease.entry v lease.held lease.pending))).count

-- When the timer of an unsettled entry of a consistent manager is called at its time or later,
-- `onExpire` is called for the entry, and only once whatever follows.
pub deadline_once :
    (m : LeaseManager) (handle fire_at now at : ℕ) (entry : LeaseEntry) (cs : List Call)
    → Inv m
    → get m.armed handle ≡ some (timer fire_at at)
    → get m.heap at ≡ some entry
    → entry.settled ≡ false
    → fire_at ≤ now
    → expiries_of at (run (fire now handle m) cs).expired ≡ 1
unfolding fire fire_trigger
deadline_once m handle fire_at now at entry cs v armed held pending due =
    let is_due : leb fire_at now ≡ true = ground (arith, due) in
    (run_kept (IsDone at 1) _ (IsDone-Kept at 1) (fire now handle m) cs (any_call cs)
      (rw (armed, is_due) (settle-IsDone at (drop_trigger handle m) entry v held pending))).count
