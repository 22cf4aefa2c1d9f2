-- ===== src/Hostd/Leases/Creation.antt =====
-- `create` of src/hostd/leases.ts adds one unsettled entry, and keeps the table consistent.
use text.Mathlib.TextEquality.{eq_iff}
use studiobox.Common.{
  ℕ, ◌+◌, ◌≤◌, ◌<◌, true, ◌≡◌, ◌⊎◌, refl, inl, inr, String, some, false, arith, nat_beq, leb, ◌==◌,
  if◌then◌else◌, string_eq, nat_eq, Bool-cases,
}
use studiobox.Common.Results.{ok, or_throw, >>=-eq-ok, or_throw-eq-ok}
use studiobox.Common.JsNumber.{JsNumber, safe_positive}
use studiobox.Common.Map.{get, get-set}
use studiobox.Hostd.Leases.{
  LeaseManager, LeaseEntry, CreateLeaseSpec, LeaseTimeout, for_session, for_duration, Trigger,
  timer, register, register_late, register_timed, create, create_with, chosen_id, duration_entry,
  session_entry, session_trigger,
}
use studiobox.Hostd.Leases.Invariant.{Inv, Live}

-- The clock does not pass the deadline between `create`'s reading of it and `setTimer`'s.
abbrev pub InTime : (now armed_at : ℕ) → LeaseTimeout → Type 0
InTime now armed_at (for_duration n) = (ms : ℕ) → safe_positive n ≡ some ms → armed_at < now + ms
InTime now armed_at for_session = Unit {0}

-- What a successful `create` is, where no deadline is passed.
pub record Created (m m' : LeaseManager) : Type 0 where
  pub entry : LeaseEntry
  pub trigger : Trigger
  pub result : register m entry trigger ≡ m'
  pub pending : entry.settled ≡ false

-- What it is where the deadline is passed.
pub record CreatedLate (id : String) (m m' : LeaseManager) : Type 0 where
  pub entry : LeaseEntry
  pub own : entry.id ≡ id
  pub late_result : register_late m entry ≡ m'

create_with-Created :
    (now armed_at : ℕ) (id : String) (spec : CreateLeaseSpec) (timeout : LeaseTimeout)
    (m m' : LeaseManager)
    → create_with now armed_at id spec timeout m ≡ ok m'
    → Created m m' ⊎ ((InTime now armed_at timeout → ⊥) × CreatedLate id m m')
unfolding create_with register_timed
create_with-Created now armed_at id spec (for_duration ms) m m' h =
    let (k, e, h1) = >>=-eq-ok (or_throw (safe_positive ms) _) _ h in
    elim (Bool-cases (leb (now + k) armed_at)) [
      | inl late ↦ inr (
        λ in_time. ground (arith, in_time k (or_throw-eq-ok (safe_positive ms) _ e), late),
        record {
          entry = duration_entry m.next id spec.sandbox_id (now + k);
          own = refl;
          late_result = ground (arith, h1, late);
        },
      )
      | inr early ↦ inl (record {
        entry = duration_entry m.next id spec.sandbox_id (now + k);
        trigger = timer (now + k) m.next;
        result = ground (arith, h1, early);
        pending = refl;
      })
    ]
create_with-Created now armed_at id spec for_session m m' h =
    let (k, e, h1) = >>=-eq-ok (or_throw spec.connection_signal _) _ h in
    inl (record {
      entry = session_entry m.next id spec.sandbox_id k;
      trigger = session_trigger k m.next;
      result = ground (arith, h1);
      pending = refl;
    })

pub create-Created :
    (now armed_at : ℕ) (minted : String) (spec : CreateLeaseSpec) (m m' : LeaseManager)
    → create now armed_at minted spec m ≡ ok m'
    → Created m m'
      ⊎ ((InTime now armed_at spec.timeout → ⊥) × CreatedLate (chosen_id spec.id minted) m m')
unfolding create
create-Created now armed_at minted spec m m' h =
    create_with-Created now armed_at (chosen_id spec.id minted) spec spec.timeout m m'
      (ground (arith, h))

create_with-late :
    (now armed_at ms : ℕ) (n : JsNumber) (id : String) (spec : CreateLeaseSpec)
    (m m' : LeaseManager)
    → safe_positive n ≡ some ms
    → now + ms ≤ armed_at
    → create_with now armed_at id spec (for_duration n) m ≡ ok m'
    → CreatedLate id m m'
unfolding create_with register_timed
create_with-late now armed_at ms n id spec m m' positive passed h =
    let due : leb (now + ms) armed_at ≡ true = ground (arith, passed) in
    record {
      entry = duration_entry m.next id spec.sandbox_id (now + ms);
      own = refl;
      late_result = ground (arith, h, positive, due);
    }

pub create_late :
    (now armed_at ms : ℕ) (n : JsNumber) (minted : String) (spec : CreateLeaseSpec)
    (m m' : LeaseManager)
    → spec.timeout ≡ for_duration n
    → safe_positive n ≡ some ms
    → now + ms ≤ armed_at
    → create now armed_at minted spec m ≡ ok m'
    → CreatedLate (chosen_id spec.id minted) m m'
unfolding create
create_late now armed_at ms n minted spec m m' timed positive passed h =
    let made : create_with now armed_at (chosen_id spec.id minted) spec spec.timeout m ≡ ok m' =
      ground (arith, h) in
    create_with-late now armed_at ms n (chosen_id spec.id minted) spec m m' positive passed
      (rw timed at made)

module _ (m : LeaseManager) (entry : LeaseEntry) (trigger : Trigger) (v : Inv m)
    (pending : entry.settled ≡ false) where
  pub born_heap :
      (i : ℕ)
      → get (register m entry trigger).heap i
        ≡ (if nat_beq m.next i then some entry else get m.heap i)
  unfolding register
  born_heap i = get-set m.heap m.next i entry

  born_leases :
      (id : String)
      → get (register m entry trigger).leases id
        ≡ (if entry.id == id then some m.next else get m.leases id)
  unfolding register
  born_leases id = get-set m.leases entry.id id m.next

  born-Live :
      (id : String) (i : ℕ)
      → get (register m entry trigger).leases id ≡ some i
      → Live (register m entry trigger).heap id i
  born-Live id i h = elim (Bool-cases (entry.id == id)) [
    | inl own ↦ record {
      entry = entry;
      held = ground (arith, born_heap i, born_leases id, own, h);
      own = (eq_iff entry.id id).0 own;
      pending = pending;
    }
    | inr other ↦
        let old = v.live id i (ground (arith, born_leases id, other, h)) in
        let before = v.fresh i old.entry old.held in
        record {
          entry = old.entry;
          held = ground (arith, born_heap i, old.held, before);
          own = old.own;
          pending = old.pending;
        }
  ]

  pub register-Inv : Inv (register m entry trigger)
  unfolding register
  register-Inv = record {
    live = born-Live;
    fresh = λ i e h. elim (Bool-cases (nat_beq m.next i)) [
      | inl same ↦ ground (arith, same)
      | inr apart ↦
          let old = v.fresh i e (ground (arith, born_heap i, apart, h)) in omega (arith, old)
    ];
    quiet = λ i e h o. elim (Bool-cases (nat_beq m.next i)) [
      | inl same ↦ v.unborn i (ground (arith, same))
      | inr apart ↦ v.quiet i e (ground (arith, born_heap i, apart, h)) o
    ];
    unborn = λ i h. v.unborn i (omega (arith, h));
  }
