-- ===== src/Hostd/Leases/Late.antt =====
-- `create` of src/hostd/leases.ts with a clock that calls back within `setTimer`.
use studiobox.Common.{
  ℕ, ◌+◌, ◌≤◌, ◌≡◌, inl, inr, refl, ap, subst, ◌∙◌, String, some, true, List, [], ◌∷◌, arith,
  Bool-cases, ◌==◌, string_eq, nat_eq,
}
use studiobox.Common.Results.{err, ok}
use studiobox.Common.JsNumber.{JsNumber, safe_positive}
use studiobox.Common.Map.{get, has, get-has, get-set_self}
use studiobox.Hostd.Leases.{
  LeaseManager, LeaseEntry, invalid, CreateLeaseSpec, for_duration, register_late, create,
  chosen_id, release, revoke, settle, settle_found, settle_entry, discard, discard_found,
  discard_entry,
}
use studiobox.Hostd.Leases.Events.{Call, run}
use studiobox.Hostd.Leases.Creation.{create_late}
use studiobox.Hostd.Leases.Invariant.{Inv, expiries_of, expiries_of-append}
use studiobox.Hostd.Leases.Once.{IsDone, IsDone-Kept}
use studiobox.Hostd.Leases.Steps.{run_kept, any_call}

register_late-IsDone :
    (m : LeaseManager) (entry : LeaseEntry) → Inv m → IsDone m.next 1 (register_late m entry)
unfolding register_late expiries_of
register_late-IsDone m entry v = record {
  entry = record entry { settled = true };
  born = omega arith;
  held = get-set_self m.heap m.next (record entry { settled = true });
  settled = refl;
  count = omega (
    arith,
    v.unborn m.next (omega arith),
    expiries_of-append m.next m.expired
        (record { entry = m.next; sandbox_id = entry.sandbox_id } ∷ []),
    own_count m.next entry.sandbox_id,
  );
}
  where
    own_count :
        (i : ℕ) (sandbox : String)
        → expiries_of i (record { entry = i; sandbox_id = sandbox } ∷ []) ≡ 1
    own_count i sandbox = ground arith

-- The id stands in the table, and no call takes it out or lets it be used again.
abbrev pub IsStuck : String → LeaseManager → Type 0
IsStuck id m =
    (release id m ≡ m)
    × (revoke id m ≡ m)
    × ((now armed_at : ℕ) (minted : String) (spec : CreateLeaseSpec)
        → chosen_id spec.id minted ≡ id
        → create now armed_at minted spec m ≡ err invalid)

settled-IsStuck :
    (m : LeaseManager) (id : String) (at : ℕ) (entry : LeaseEntry)
    → get m.leases id ≡ some at
    → get m.heap at ≡ some entry
    → entry.settled ≡ true
    → IsStuck id m
unfolding release revoke settle_found discard_found settle settle_entry discard discard_entry create
    has
settled-IsStuck m id at entry listed held settled =
    let is_listed : has m.leases id ≡ true = elim (Bool-cases (has m.leases id)) [
      | inl found ↦ found
      | inr lost ↦ absurd (ground (arith, listed, get-has m.leases id lost))
    ] in
    (
      rw (listed, held, settled) refl,
      rw (listed, held, settled) refl,
      λ now armed_at minted spec same.
          let taken : has m.leases (chosen_id spec.id minted) ≡ true =
            ap (λ i. has m.leases i) same ∙ is_listed in
          elim (Bool-cases (chosen_id spec.id minted == "")) [
            | inl empty ↦ rw empty refl
            | inr named ↦ rw (named, taken) refl
          ],
    )

late-IsStuck : (m : LeaseManager) (entry : LeaseEntry) → IsStuck entry.id (register_late m entry)
unfolding register_late
late-IsStuck m entry =
    settled-IsStuck (register_late m entry) entry.id m.next (record entry { settled = true })
      (get-set_self _ entry.id m.next)
      (get-set_self m.heap m.next (record entry { settled = true })) refl

-- Where a lease is created for a positive number of milliseconds that have passed when the timer is
-- armed, in a consistent manager: `onExpire` is called for it once, whatever follows; but its id is
-- left in the table, where releasing and revoking it do nothing, and creating it again is refused.
pub late_create-IsStuck :
    (now armed_at ms : ℕ) (n : JsNumber) (minted : String) (spec : CreateLeaseSpec)
    (m m' : LeaseManager) (cs : List Call)
    → Inv m
    → spec.timeout ≡ for_duration n
    → safe_positive n ≡ some ms
    → now + ms ≤ armed_at
    → create now armed_at minted spec m ≡ ok m'
    → (expiries_of m.next (run m' cs).expired ≡ 1) × IsStuck (chosen_id spec.id minted) m'
late_create-IsStuck now armed_at ms n minted spec m m' cs v timed positive passed h =
    let c = create_late now armed_at ms n minted spec m m' timed positive passed h in
    (
      (run_kept (IsDone m.next 1) _ (IsDone-Kept m.next 1) m' cs (any_call cs)
          (subst (IsDone m.next 1) c.late_result (register_late-IsDone m c.entry v))).count,
      subst (λ id. IsStuck id m') c.own
          (subst (IsStuck c.entry.id) c.late_result (late-IsStuck m c.entry)),
    )
