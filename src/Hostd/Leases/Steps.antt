-- ===== src/Hostd/Leases/Steps.antt =====
-- Induction over the histories of src/hostd/leases.ts: what every primitive change keeps, every
-- history keeps.
use studiobox.Common.{
  ℕ, ◌≡◌, ◌⊎◌, refl, subst, inl, inr, String, Option, none, some, false, List, [], ◌∷◌, arith,
  nat_beq, leb, string_eq, nat_eq, Bool-cases,
}
use studiobox.Common.Results.{Result, err, ok, or_throw, ◌>>=◌, or_throw, >>=-eq-ok}
use studiobox.Common.JsNumber.{JsNumber, safe_positive}
use studiobox.Common.Map.{Map, get, get-set_self}
use studiobox.Hostd.Leases.{
  create_manager, range_error, LeaseManager, LeaseError, LeaseEntry, CreateLeaseSpec, Trigger,
  timer, listener, microtask, register, register_late, create, settle, discard, release,
  settle_found, revoke, discard_found, revoke_all, discard_each,
}
use studiobox.Hostd.Leases.Extending.{require_extendable, renew, bump, extend_timeout}
use studiobox.Hostd.Leases.Events.{
  Call, creates, renews, extends, releases, revokes, revokes_all, fires, aborts, after,
  after_create, step, run, fire, fire_trigger, abort, abort_each, drop_trigger,
}
use studiobox.Hostd.Leases.Creation.{create-Created, register-Inv, InTime}
use studiobox.Hostd.Leases.Extension.{
  Updated, Extends, Updated-Inv, extend_to-Updated, require_extendable-Extends,
}
use studiobox.Hostd.Leases.Invariant.{Inv, settle_any-Inv, discard_any-Inv, expiries_of}

bump-Updated :
    (at : ℕ) (entry : LeaseEntry) (m : LeaseManager)
    → get m.heap at ≡ some entry
    → Updated m (bump (m, (at, entry))).0 at entry (bump (m, (at, entry))).1
unfolding bump
bump-Updated at entry m held = record {
  held = held;
  heap = refl;
  id = refl;
  settled = refl;
  next = omega arith;
  leases = refl;
  expired = refl;
}

-- A successful extension replaces the entry that the table has under the id.
pub Extends-Updated :
    (now : ℕ) (id : String) (requested : JsNumber) (m : LeaseManager)
    (r : LeaseManager × (ℕ × LeaseEntry)) (x : Extends now id requested m r)
    → Updated m r.0 r.1.0 x.entry r.1.1
Extends-Updated now id requested m r x =
    subst (λ (y : LeaseManager × LeaseEntry). Updated m y.0 r.1.0 x.entry y.1) x.extended.result
      (extend_to-Updated _ r.1.0 x.entry m x.held)

pub extended_held :
    (now : ℕ) (id : String) (requested : JsNumber) (m : LeaseManager)
    (r : LeaseManager × (ℕ × LeaseEntry))
    → Extends now id requested m r
    → get r.0.heap r.1.0 ≡ some r.1.1
extended_held now id requested m r x =
    let u = Extends-Updated now id requested m r x in rw u.heap (get-set_self m.heap r.1.0 r.1.1)

-- A property of managers that every primitive change of the code keeps; an entry that is settled
-- before it is listed may be left out, by an `L` that is empty.
pub record Kept (P : LeaseManager → Type 0) (L : Type 0) : Type 0 where
  pub registers_late : L → (m : LeaseManager) (entry : LeaseEntry) → P m → P (register_late m entry)
  pub settles : (at : ℕ) (m : LeaseManager) → P m → P (settle at m)
  pub discards : (at : ℕ) (m : LeaseManager) → P m → P (discard at m)
  pub drops : (handle : ℕ) (m : LeaseManager) → P m → P (drop_trigger handle m)
  pub registers :
      (m : LeaseManager) (entry : LeaseEntry) (trigger : Trigger)
      → entry.settled ≡ false
      → P m
      → P (register m entry trigger)
  pub updates :
      (m m' : LeaseManager) (at : ℕ) (entry entry' : LeaseEntry)
      → Updated m m' at entry entry'
      → P m
      → P m'

-- No `create` of the history finds its deadline passed when it arms the timer.
abbrev pub IsTimely : Call → Type 0
IsTimely (creates now armed_at minted spec) = InTime now armed_at spec.timeout
IsTimely (renews now id requested) = Unit {0}
IsTimely (extends now id requested) = Unit {0}
IsTimely (releases id) = Unit {0}
IsTimely (revokes id) = Unit {0}
IsTimely revokes_all = Unit {0}
IsTimely (fires now handle) = Unit {0}
IsTimely (aborts signal) = Unit {0}

abbrev pub AllTimely : List Call → Type 0
AllTimely [] = Unit {0}
AllTimely (c ∷ cs) = IsTimely c × AllTimely cs

abbrev pub TimelyOr : Type 0 → List Call → Type 0
TimelyOr L [] = Unit {0}
TimelyOr L (c ∷ cs) = (L ⊎ IsTimely c) × TimelyOr L cs

pub any_call : (cs : List Call) → TimelyOr (Unit {0}) cs
any_call [] = tt
any_call (c ∷ cs) = (inl tt, any_call cs)

pub timely_call : (L : Type 0) (cs : List Call) → AllTimely cs → TimelyOr L cs
timely_call L [] h = tt
timely_call L (c ∷ cs) h = (inr h.0, timely_call L cs h.1)

module _ (P : LeaseManager → Type 0) (L : Type 0) (k : Kept P L) where
  renew_kept :
      (now : ℕ) (id : String) (requested : JsNumber) (m : LeaseManager)
      (x : Result LeaseError (LeaseManager × (ℕ × LeaseEntry)))
      → require_extendable now id requested m ≡ x
      → P m
      → P (after m (x >>= λ e. ok (bump e)))
  renew_kept now id requested m (err e) h v = v
  renew_kept now id requested m (ok (m', (at, e))) h v =
      let x = require_extendable-Extends now id requested m (m', (at, e)) h in
      let v' = k.updates m m' at x.entry e (Extends-Updated now id requested m (m', (at, e)) x) v in
      k.updates m' _ at e _
        (bump-Updated at e m' (extended_held now id requested m (m', (at, e)) x)) v'

  extend_kept :
      (now : ℕ) (id : String) (requested : JsNumber) (m : LeaseManager)
      (x : Result LeaseError (LeaseManager × (ℕ × LeaseEntry)))
      → require_extendable now id requested m ≡ x
      → P m
      → P (after m (x >>= λ e. ok (e.0, e.1.1.deadline_unix_ms)))
  extend_kept now id requested m (err e) h v = v
  extend_kept now id requested m (ok (m', (at, e))) h v =
      let x = require_extendable-Extends now id requested m (m', (at, e)) h in
      k.updates m m' at x.entry e (Extends-Updated now id requested m (m', (at, e)) x) v

  create_kept :
      (now armed_at : ℕ) (minted : String) (spec : CreateLeaseSpec) (m : LeaseManager)
      (x : Result LeaseError LeaseManager)
      → L ⊎ InTime now armed_at spec.timeout
      → create now armed_at minted spec m ≡ x
      → P m
      → P (after_create m x)
  create_kept now armed_at minted spec m (err e) t h v = v
  create_kept now armed_at minted spec m (ok m') t h v =
      elim (create-Created now armed_at minted spec m m' h) [
        | inl c ↦ subst P c.result (k.registers m c.entry c.trigger c.pending v)
        | inr (passed, late) ↦ elim t [
          | inl l ↦ subst P late.late_result (k.registers_late l m late.entry v)
          | inr in_time ↦ absurd (passed in_time)
        ]
      ]

  discard_each_kept : (t : Map String ℕ) (m : LeaseManager) → P m → P (discard_each t m)
  unfolding discard_each
  discard_each_kept [] m v = v
  discard_each_kept ((id, at) ∷ t) m v = discard_each_kept t (discard at m) (k.discards at m v)

  fire_trigger_kept :
      (now handle : ℕ) (o : Option Trigger) (m : LeaseManager)
      → P m
      → P (fire_trigger now handle o m)
  unfolding fire_trigger
  fire_trigger_kept now handle none m v = v
  fire_trigger_kept now handle (some (timer fire_at at)) m v = elim (Bool-cases (leb fire_at now)) [
    | inl due ↦ rw due (k.settles at (drop_trigger handle m) (k.drops handle m v))
    | inr early ↦ rw early v
  ]
  fire_trigger_kept now handle (some (listener signal at)) m v = v
  fire_trigger_kept now handle (some (microtask at)) m v =
      k.settles at (drop_trigger handle m) (k.drops handle m v)

  abort_each_kept :
      (aborted : ℕ) (t : Map ℕ Trigger) (m : LeaseManager) → P m → P (abort_each aborted t m)
  unfolding abort_each
  abort_each_kept aborted [] m v = v
  abort_each_kept aborted ((handle, listener signal at) ∷ t) m v =
      elim (Bool-cases (nat_beq signal aborted)) [
        | inl same ↦
            rw (same, abort_each)
              (abort_each_kept aborted t (settle at (drop_trigger handle m))
                (k.settles at (drop_trigger handle m) (k.drops handle m v)))
        | inr other ↦ rw (other, abort_each) (abort_each_kept aborted t m v)
      ]
  abort_each_kept aborted ((handle, timer fire_at at) ∷ t) m v = abort_each_kept aborted t m v
  abort_each_kept aborted ((handle, microtask at) ∷ t) m v = abort_each_kept aborted t m v

  settle_found_kept : (o : Option ℕ) (m : LeaseManager) → P m → P (settle_found o m)
  unfolding settle_found
  settle_found_kept none m v = v
  settle_found_kept (some at) m v = k.settles at m v

  discard_found_kept : (o : Option ℕ) (m : LeaseManager) → P m → P (discard_found o m)
  unfolding discard_found
  discard_found_kept none m v = v
  discard_found_kept (some at) m v = k.discards at m v

  step_kept : (m : LeaseManager) (c : Call) → L ⊎ IsTimely c → P m → P (step m c)
  unfolding step renew extend_timeout release revoke revoke_all fire abort
  step_kept m (creates now armed_at minted spec) t v =
      create_kept now armed_at minted spec m (create now armed_at minted spec m) t refl v
  step_kept m (renews now id requested) t v =
      renew_kept now id requested m (require_extendable now id requested m) refl v
  step_kept m (extends now id requested) t v =
      extend_kept now id requested m (require_extendable now id requested m) refl v
  step_kept m (releases id) t v = settle_found_kept (get m.leases id) m v
  step_kept m (revokes id) t v = discard_found_kept (get m.leases id) m v
  step_kept m revokes_all t v = discard_each_kept m.leases m v
  step_kept m (fires now handle) t v = fire_trigger_kept now handle (get m.armed handle) m v
  step_kept m (aborts signal) t v = abort_each_kept signal m.armed m v

  -- Every history keeps it.
  pub run_kept : (m : LeaseManager) (cs : List Call) → TimelyOr L cs → P m → P (run m cs)
  unfolding run
  run_kept m [] t v = v
  run_kept m (c ∷ cs) t v = run_kept (step m c) cs t.1 (step_kept m c t.0 v)

Inv-Kept : Kept Inv ⊥
Inv-Kept = record {
  registers_late = λ none m entry v. absurd none;
  settles = settle_any-Inv;
  discards = discard_any-Inv;
  drops = λ handle m v. v;
  registers = λ m entry trigger pending v. register-Inv m entry trigger v pending;
  updates = Updated-Inv;
}

create_manager-Inv :
    (max_extend_ms : Option JsNumber) (m : LeaseManager)
    → create_manager max_extend_ms ≡ ok m
    → Inv m
unfolding create_manager expiries_of get
create_manager-Inv max_extend_ms m h =
    let (bound, e, h1) = >>=-eq-ok (or_throw (safe_positive _) range_error) _ h in
    let empty : LeaseManager = record {
      max_extend_ms = bound;
      next = 0;
      heap = [];
      leases = [];
      armed = [];
      expired = [];
    } in
    let same : empty ≡ m = ground (arith, h1) in
    subst Inv same (record {
      live = λ id at k. absurd (ground (arith, k));
      fresh = λ at e k. absurd (ground (arith, k));
      quiet = λ at e k o. refl;
      unborn = λ at k. refl;
    })

-- Whatever calls, timers and closed connections a new manager has seen, as long as the clock never
-- passes the deadline of a new lease before its timer is armed: the table lists unsettled entries
-- under their own ids only, and `onExpire` has not been called for an unsettled entry.
pub reachable-Inv :
    (max_extend_ms : Option JsNumber) (m : LeaseManager) (cs : List Call)
    → create_manager max_extend_ms ≡ ok m
    → AllTimely cs
    → Inv (run m cs)
reachable-Inv max_extend_ms m cs h timely =
    run_kept Inv ⊥ Inv-Kept m cs (timely_call ⊥ cs timely) (create_manager-Inv max_extend_ms m h)
