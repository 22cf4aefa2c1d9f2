-- ===== src/Hostd/Leases/Renewal.antt =====
-- What `renew` and `extendTimeout` of src/hostd/leases.ts grant, and what they refuse.
use studiobox.Common.{
  ℕ, ◌+◌, ◌<◌, ◌≡◌, refl, min, String, Option, some, arith, subst, string_eq, nat_eq,
}
use studiobox.Common.Results.{ok, >>=-eq-ok}
use studiobox.Common.JsNumber.{JsNumber, safe_positive}
use studiobox.Common.Map.{get, get-set_self}
use studiobox.Hostd.Leases.{LeaseManager, LeaseEntry, timer, duration}
use studiobox.Hostd.Leases.Extending.{extend_to, renew, bump, require_extendable, extend_timeout}
use studiobox.Hostd.Leases.Extension.{Extends, require_extendable-Extends}

-- The entry is extended from its deadline by what was asked for, at most `max_extend_ms`, and has a
-- timer at the new deadline.
pub record Prolonged (now : ℕ) (id : String) (requested : JsNumber) (m m' : LeaseManager)
    (at generations : ℕ) (old new : LeaseEntry) : Type 0 where
  pub generation : new.generation ≡ old.generation + generations
  pub ms : ℕ
  pub deadline : ℕ
  pub handle : ℕ
  pub positive : safe_positive requested ≡ some ms
  pub listed : get m'.leases id ≡ some at
  pub before : get m.heap at ≡ some old
  pub after : get m'.heap at ≡ some new
  pub kind : old.kind ≡ duration
  pub had : old.deadline_unix_ms ≡ some deadline
  pub in_time : now < deadline
  pub has : new.deadline_unix_ms ≡ some (deadline + min ms m.max_extend_ms)
  pub cancels : new.cleanup ≡ some handle
  pub timed : get m'.armed handle ≡ some (timer (deadline + min ms m.max_extend_ms) at)

extend_to-Prolonged :
    (now : ℕ) (id : String) (requested : JsNumber) (m : LeaseManager)
    (r : LeaseManager × (ℕ × LeaseEntry)) (x : Extends now id requested m r)
    → Prolonged now id requested m r.0 r.1.0 0 x.entry r.1.1
unfolding extend_to
extend_to-Prolonged now id requested m r x =
    subst (λ (y : LeaseManager × LeaseEntry). Prolonged now id requested m y.0 r.1.0 0 x.entry y.1)
      x.extended.result
      (record {
        generation = omega arith;
        ms = x.ms;
        deadline = x.extended.deadline;
        handle = m.next;
        positive = x.positive;
        listed = x.listed;
        before = x.held;
        after = get-set_self m.heap r.1.0 _;
        kind = x.extended.kind;
        had = x.extended.had;
        in_time = x.extended.in_time;
        has = refl;
        cancels = refl;
        timed = get-set_self _ m.next _;
      })

-- The entry of the table before and after, and what the extension did to it.
pub record Renewal (now : ℕ) (id : String) (requested : JsNumber) (m m' : LeaseManager)
    (generations : ℕ) : Type 0 where
  pub at : ℕ
  pub old : LeaseEntry
  pub new : LeaseEntry
  pub prolonged : Prolonged now id requested m m' at generations old new

-- A successful `extendTimeout` was for a live duration lease before its deadline: it extends the
-- lease from that deadline by the requested time, at most `maxExtendMs`, arms a timer at the new
-- deadline, which it returns, and leaves the generation.
pub extend_timeout-Renewal :
    (now : ℕ) (id : String) (requested : JsNumber) (m m' : LeaseManager) (until : Option ℕ)
    → extend_timeout now id requested m ≡ ok (m', until)
    → (x : Renewal now id requested m m' 0) × (x.new.deadline_unix_ms ≡ until)
unfolding extend_timeout
extend_timeout-Renewal now id requested m m' until h =
    let (r, e, h1) = >>=-eq-ok (require_extendable now id requested m) _ h in
    let x = require_extendable-Extends now id requested m r e in
    let here : r.0 ≡ m' = ground (arith, h1) in
    (
      record {
        at = r.1.0;
        old = x.entry;
        new = r.1.1;
        prolonged =
            subst (λ y. Prolonged now id requested m y r.1.0 0 x.entry r.1.1) here
              (extend_to-Prolonged now id requested m r x);
      },
      ground (arith, h1),
    )

bump-Prolonged :
    (now : ℕ) (id : String) (requested : JsNumber) (m m' : LeaseManager) (at : ℕ)
    (old new : LeaseEntry)
    → Prolonged now id requested m m' at 0 old new
    → Prolonged now id requested m (bump (m', (at, new))).0 at 1 old (bump (m', (at, new))).1
unfolding bump
bump-Prolonged now id requested m m' at old new p = record {
  generation = omega (arith, p.generation);
  ms = p.ms;
  deadline = p.deadline;
  handle = p.handle;
  positive = p.positive;
  listed = p.listed;
  before = p.before;
  after = get-set_self m'.heap at _;
  kind = p.kind;
  had = p.had;
  in_time = p.in_time;
  has = p.has;
  cancels = p.cancels;
  timed = p.timed;
}

-- A successful `renew` was for a live duration lease before its deadline: it extends the lease from
-- that deadline by the requested time, at most `maxExtendMs`, arms a timer at the new deadline and
-- adds one to the generation.
pub renew-Renewal :
    (now : ℕ) (id : String) (requested : JsNumber) (m m' : LeaseManager) (entry : LeaseEntry)
    → renew now id requested m ≡ ok (m', entry)
    → (x : Renewal now id requested m m' 1) × (x.new ≡ entry)
unfolding renew
renew-Renewal now id requested m m' entry h =
    let (r, e, h1) = >>=-eq-ok (require_extendable now id requested m) _ h in
    let x = require_extendable-Extends now id requested m r e in
    let p =
      bump-Prolonged now id requested m r.0 r.1.0 x.entry r.1.1
        (extend_to-Prolonged now id requested m r x) in
    let same : bump r ≡ (m', entry) = ground (arith, h1) in
    (
      record {
        at = r.1.0;
        old = x.entry;
        new = entry;
        prolonged =
            subst
              (λ (y : LeaseManager × LeaseEntry).
                Prolonged now id requested m y.0 r.1.0 1 x.entry y.1)
              same p;
      },
      refl,
    )
