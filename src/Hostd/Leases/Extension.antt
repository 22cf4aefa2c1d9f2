-- ===== src/Hostd/Leases/Extension.antt =====
-- `renew` and `extendTimeout` of src/hostd/leases.ts replace one entry, and keep the table consistent.
use studiobox.Common.{
  ℕ, ◌+◌, ◌≤◌, ◌<◌, ◌≡◌, refl, sym, ap, min, subst, ◌∙◌, inl, inr, String, Option, none, some,
  arith, nat_beq, leb, if◌then◌else◌, string_eq, nat_eq, Bool-cases,
}
use studiobox.Common.Results.{ok, or_throw, >>=-eq-ok, or_throw-eq-ok}
use studiobox.Common.JsNumber.{JsNumber, safe_positive}
use studiobox.Common.Map.{get, set, get-set}
use studiobox.Hostd.Leases.{LeaseManager, LeaseEntry, invalid, LeaseKind, session, duration}
use studiobox.Hostd.Leases.Extending.{
  extend_entry, extend_live, extend_to, require_extendable, found_entry,
}
use studiobox.Hostd.Leases.Invariant.{Inv, Live}

-- What a successful extension or renewal does: one entry is replaced, and only its deadline, its
-- cleanup or its generation differ.
pub record Updated (m m' : LeaseManager) (at : ℕ) (entry entry' : LeaseEntry) : Type 0 where
  pub held : get m.heap at ≡ some entry
  pub heap : m'.heap ≡ set m.heap at entry'
  pub id : entry'.id ≡ entry.id
  pub settled : entry'.settled ≡ entry.settled
  pub next : m.next ≤ m'.next
  pub leases : m'.leases ≡ m.leases
  pub expired : m'.expired ≡ m.expired

module _ (m m' : LeaseManager) (at : ℕ) (entry entry' : LeaseEntry)
    (u : Updated m m' at entry entry') where
  pub updated_heap : (i : ℕ) → get m'.heap i ≡ (if nat_beq at i then some entry' else get m.heap i)
  updated_heap i = rw u.heap (get-set m.heap at i entry')

  updated-Live : Inv m → (id : String) (i : ℕ) → get m'.leases id ≡ some i → Live m'.heap id i
  updated-Live v id i h =
      let old = v.live id i (ap (λ t. get t id) (sym u.leases) ∙ h) in
      elim (Bool-cases (nat_beq at i)) [
        | inl same ↦
            let it : entry ≡ old.entry = ground (arith, same, u.held, old.held) in
            record {
              entry = entry';
              held = rw (updated_heap i, same) refl;
              own = u.id ∙ ap (λ e. e.id) it ∙ old.own;
              pending = u.settled ∙ ap (λ e. e.settled) it ∙ old.pending;
            }
        | inr apart ↦ record {
          entry = old.entry;
          held = rw (updated_heap i, apart) old.held;
          own = old.own;
          pending = old.pending;
        }
      ]

  pub Updated-Inv : Inv m → Inv m'
  Updated-Inv v = record {
    live = updated-Live v;
    fresh = λ i e h. elim (Bool-cases (nat_beq at i)) [
      | inl same ↦ ground (arith, same, v.fresh at entry u.held, u.next)
      | inr apart ↦
          let old = v.fresh i e (ground (arith, updated_heap i, apart, h)) in
          omega (arith, old, u.next)
    ];
    quiet = λ i e h o. elim (Bool-cases (nat_beq at i)) [
      | inl same ↦
          let here : at ≡ i = ground (arith, same) in
          let new : entry' ≡ e = ground (arith, updated_heap i, same, h) in
          rw (u.expired, sym here)
            (v.quiet at entry u.held (sym u.settled ∙ ap (λ e. e.settled) new ∙ o))
      | inr apart ↦ rw u.expired (v.quiet i e (ground (arith, updated_heap i, apart, h)) o)
    ];
    unborn = λ i h. rw u.expired (v.unborn i (omega (arith, h, u.next)));
  }

pub extend_to-Updated :
    (later at : ℕ) (entry : LeaseEntry) (m : LeaseManager)
    → get m.heap at ≡ some entry
    → Updated m (extend_to later at entry m).0 at entry (extend_to later at entry m).1
unfolding extend_to
extend_to-Updated later at entry m held = record {
  held = held;
  heap = refl;
  id = refl;
  settled = refl;
  next = omega arith;
  leases = refl;
  expired = refl;
}

-- What a successful extension found, and what it did.
pub record Extended (now ms at : ℕ) (entry : LeaseEntry) (m : LeaseManager)
    (r : LeaseManager × LeaseEntry) : Type 0 where
  pub deadline : ℕ
  pub kind : entry.kind ≡ duration
  pub had : entry.deadline_unix_ms ≡ some deadline
  pub in_time : now < deadline
  pub result : extend_to (deadline + min ms m.max_extend_ms) at entry m ≡ r

extend_live-Extended :
    (now ms at : ℕ) (kind : LeaseKind) (deadline : Option ℕ) (entry : LeaseEntry) (m : LeaseManager)
    {r : LeaseManager × LeaseEntry}
    → entry.kind ≡ kind
    → entry.deadline_unix_ms ≡ deadline
    → extend_live now ms at kind deadline entry m ≡ ok r
    → Extended now ms at entry m r
unfolding extend_live
extend_live-Extended now ms at session deadline entry m k d h = absurd cc
extend_live-Extended now ms at duration none entry m k d h = absurd cc
extend_live-Extended now ms at duration (some deadline) entry m k d h =
    elim (Bool-cases (leb deadline now)) [
      | inl late ↦ absurd (ground (arith, late, h))
      | inr early ↦ record {
        deadline = deadline;
        kind = k;
        had = d;
        in_time = ground (arith, early);
        result = ground (arith, early, h);
      }
    ]

-- What a successful call of #requireExtendable found and did.
pub record Extends (now : ℕ) (id : String) (requested : JsNumber) (m : LeaseManager)
    (r : LeaseManager × (ℕ × LeaseEntry)) : Type 0 where
  pub ms : ℕ
  pub entry : LeaseEntry
  pub positive : safe_positive requested ≡ some ms
  pub listed : get m.leases id ≡ some r.1.0
  pub held : get m.heap r.1.0 ≡ some entry
  pub extended : Extended now ms r.1.0 entry m (r.0, r.1.1)

extend_entry-Extended :
    (now ms at : ℕ) (o : Option LeaseEntry) (m : LeaseManager) {r : LeaseManager × LeaseEntry}
    → get m.heap at ≡ o
    → extend_entry now ms at o m ≡ ok r
    → (entry : LeaseEntry) × (get m.heap at ≡ some entry) × Extended now ms at entry m r
unfolding extend_entry
extend_entry-Extended now ms at none m e h = absurd cc
extend_entry-Extended now ms at (some entry) m e h =
    (entry, e, extend_live-Extended now ms at entry.kind entry.deadline_unix_ms entry m refl refl h)

found_entry-eq-ok :
    (o : Option ℕ) (m : LeaseManager) {at : ℕ} → found_entry o m ≡ ok at → o ≡ some at
unfolding found_entry
found_entry-eq-ok none m h = absurd cc
found_entry-eq-ok (some at) m h = ground (arith, h)

pub require_extendable-Extends :
    (now : ℕ) (id : String) (requested : JsNumber) (m : LeaseManager)
    (r : LeaseManager × (ℕ × LeaseEntry))
    → require_extendable now id requested m ≡ ok r
    → Extends now id requested m r
unfolding require_extendable
require_extendable-Extends now id requested m r h =
    let (ms, e1, h1) = >>=-eq-ok (or_throw (safe_positive requested) invalid) _ h in
    let (at, e2, h2) = >>=-eq-ok (found_entry (get m.leases id) m) _ h1 in
    let (x, e3, h3) = >>=-eq-ok (extend_entry now ms at (get m.heap at) m) _ h2 in
    let (entry, held, extended) = extend_entry-Extended now ms at (get m.heap at) m refl e3 in
    let same : (x.0, (at, x.1)) ≡ r = ground (arith, h3) in
    subst (Extends now id requested m) same (record {
      ms = ms;
      entry = entry;
      positive = or_throw-eq-ok (safe_positive requested) invalid e1;
      listed = found_entry-eq-ok (get m.leases id) m e2;
      held = held;
      extended = extended;
    })
