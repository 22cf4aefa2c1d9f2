-- ===== src/Hostd/Leases/Events.antt =====
-- What calls back into the lease manager of src/hostd/leases.ts, and the histories of calls on it. A
-- timer is called once, at a time at or after its own, a listener when its signal is aborted, a
-- microtask at any time; a call that throws changes nothing. Where the clock calls back within the
-- `setTimer` of an extension, that leaves what a call directly after the extension leaves.
use studiobox.Common.{
  ℕ, String, Option, none, some, List, [], ◌∷◌, leb, nat_beq, if◌then◌else◌, nat_eq,
}
use studiobox.Common.Results.{Result, err, ok}
use studiobox.Common.JsNumber.{JsNumber}
use studiobox.Common.Map.{Map, get, delete}
use studiobox.Hostd.Leases.{
  LeaseManager, LeaseError, CreateLeaseSpec, Trigger, timer, listener, microtask, settle, release,
  revoke, revoke_all, create,
}
use studiobox.Hostd.Leases.Extending.{renew, extend_timeout}

abbrev pub drop_trigger : ℕ → LeaseManager → LeaseManager
drop_trigger handle m = record m { armed = delete m.armed handle }

unfoldable pub fire_trigger : ℕ → ℕ → Option Trigger → LeaseManager → LeaseManager
fire_trigger now handle none m = m
fire_trigger now handle (some (timer fire_at at)) m =
    if leb fire_at now then settle at (drop_trigger handle m) else m
fire_trigger now handle (some (listener signal at)) m = m
fire_trigger now handle (some (microtask at)) m = settle at (drop_trigger handle m)

-- The clock or the microtask queue calls what is armed under the handle.
unfoldable pub fire : ℕ → ℕ → LeaseManager → LeaseManager
unfolding fire_trigger
fire now handle m = fire_trigger now handle (get m.armed handle) m

unfoldable pub abort_each : ℕ → Map ℕ Trigger → LeaseManager → LeaseManager
abort_each aborted [] m = m
abort_each aborted ((handle, listener signal at) ∷ rest) m =
    abort_each aborted rest
      (if nat_beq signal aborted then settle at (drop_trigger handle m) else m)
abort_each aborted ((handle, timer fire_at at) ∷ rest) m = abort_each aborted rest m
abort_each aborted ((handle, microtask at) ∷ rest) m = abort_each aborted rest m

-- The signal is aborted: its listeners are called in the order in which they were added.
unfoldable pub abort : ℕ → LeaseManager → LeaseManager
unfolding abort_each
abort aborted m = abort_each aborted m.armed m

pub data Call : Type 0 where
  creates : (now armed_at : ℕ) → String → CreateLeaseSpec → Call
  renews : ℕ → String → JsNumber → Call
  extends : ℕ → String → JsNumber → Call
  releases : String → Call
  revokes : String → Call
  revokes_all : Call
  fires : (now handle : ℕ) → Call
  aborts : (signal : ℕ) → Call

abbrev pub after_create : LeaseManager → Result LeaseError LeaseManager → LeaseManager
after_create m (ok m') = m'
after_create m (err e) = m

abbrev pub after {ℓ} :
    {A : Type ℓ} → LeaseManager → Result LeaseError (LeaseManager × A) → LeaseManager
after m (ok (m', a)) = m'
after m (err e) = m

unfoldable pub step : LeaseManager → Call → LeaseManager
step m (creates now armed_at minted spec) = after_create m (create now armed_at minted spec m)
step m (renews now id requested_ms) = after m (renew now id requested_ms m)
step m (extends now id requested_ms) = after m (extend_timeout now id requested_ms m)
step m (releases id) = release id m
step m (revokes id) = revoke id m
step m revokes_all = revoke_all m
step m (fires now handle) = fire now handle m
step m (aborts signal) = abort signal m

unfoldable pub run : LeaseManager → List Call → LeaseManager
run m [] = m
run m (c ∷ cs) = run (step m c) cs
