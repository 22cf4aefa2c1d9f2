-- ===== src/Hostd/Leases.antt =====
-- src/hostd/leases.ts: the lease manager. Lease entries are objects that timers and listeners hold
-- on to, so they stand in a heap under a number of their own; the table maps ids to them. What the
-- clock, a connection's signal or the microtask queue still has to call stands in `armed`, under the
-- handle that `cleanup` cancels. Calls of the `onExpire` hook are recorded in `expired`.
pub mod Extending
pub mod Events
pub mod Invariant
pub mod Creation
pub mod Extension
pub mod Steps
pub mod Once
pub mod Renewal
pub mod Late
mod Tests
use studiobox.Common.{
  ℕ, ◌+◌, String, Option, none, some, Bool, true, false, List, [], ◌∷◌, ◌++◌, ltb, leb, nat_beq,
  ◌==◌, if◌then◌else◌, min, string_eq, nat_eq,
}
use studiobox.Common.Results.{Result, err, ok, ◌>>=◌, ◌>>◌, or_throw, throw_if}
use studiobox.Common.JsNumber.{JsNumber, safe_positive}
use studiobox.Common.Map.{Map, get, has, set, delete}

abbrev pub default_max_extend_ms : ℕ
default_max_extend_ms = 1_800_000

pub data LeaseKind : Type 0 where
  session duration : LeaseKind

pub data LeaseError : Type 0 where
  not_found lease_expired wrong_kind invalid range_error : LeaseError

-- An AbortSignal: which one, and whether it is aborted.
pub record Signal : Type 0 where
  pub number : ℕ
  pub aborted : Bool

pub data LeaseTimeout : Type 0 where
  for_session : LeaseTimeout
  for_duration : JsNumber → LeaseTimeout

pub record CreateLeaseSpec : Type 0 where
  pub sandbox_id : String
  pub timeout : LeaseTimeout
  pub connection_signal : Option Signal
  pub id : Option String

pub record LeaseEntry : Type 0 where
  pub id : String
  pub sandbox_id : String
  pub kind : LeaseKind
  pub generation : ℕ
  pub deadline_unix_ms : Option ℕ
  pub cleanup : Option ℕ
  pub settled : Bool

pub data Trigger : Type 0 where
  timer : (fire_at entry : ℕ) → Trigger
  listener : (signal entry : ℕ) → Trigger
  microtask : (entry : ℕ) → Trigger

-- One call of `onExpire`: for which entry, and its argument.
pub record Expiry : Type 0 where
  pub entry : ℕ
  pub sandbox_id : String

pub record LeaseManager : Type 0 where
  pub max_extend_ms : ℕ
  pub next : ℕ
  pub heap : Map ℕ LeaseEntry
  pub leases : Map String ℕ
  pub armed : Map ℕ Trigger
  pub expired : List Expiry

unfoldable pub or_default : Option JsNumber → JsNumber
or_default none = JsNumber.nat default_max_extend_ms
or_default (some n) = n

unfoldable pub create_manager : Option JsNumber → Result LeaseError LeaseManager
unfolding or_default
create_manager max_extend_ms = do
  bound ← or_throw (safe_positive (or_default max_extend_ms)) range_error
  ok (record { max_extend_ms = bound; next = 0; heap = []; leases = []; armed = []; expired = [] })

-- entry.cleanup()
unfoldable pub cancel : Option ℕ → Map ℕ Trigger → Map ℕ Trigger
cancel none armed = armed
cancel (some handle) armed = delete armed handle

-- #discard, on the entry at `at`; and #settle, which also calls the hook.
unfoldable pub discard_entry : ℕ → Option LeaseEntry → LeaseManager → LeaseManager
unfolding cancel
discard_entry at none m = m
discard_entry at (some entry) m = if entry.settled then m else record m {
  heap = set m.heap at (record entry { settled = true });
  armed = cancel entry.cleanup m.armed;
  leases = delete m.leases entry.id;
}

unfoldable pub settle_entry : ℕ → Option LeaseEntry → LeaseManager → LeaseManager
unfolding discard_entry
settle_entry at none m = m
settle_entry at (some entry) m =
    if entry.settled then m else record (discard_entry at (some entry) m) {
      expired = m.expired ++ record { entry = at; sandbox_id = entry.sandbox_id } ∷ [];
    }

unfoldable pub settle : ℕ → LeaseManager → LeaseManager
unfolding settle_entry
settle at m = settle_entry at (get m.heap at) m

unfoldable pub discard : ℕ → LeaseManager → LeaseManager
unfolding discard_entry
discard at m = discard_entry at (get m.heap at) m

unfoldable pub settle_found : Option ℕ → LeaseManager → LeaseManager
unfolding settle
settle_found none m = m
settle_found (some at) m = settle at m

unfoldable pub discard_found : Option ℕ → LeaseManager → LeaseManager
unfolding discard
discard_found none m = m
discard_found (some at) m = discard at m

unfoldable pub release : String → LeaseManager → LeaseManager
unfolding settle_found
release id m = settle_found (get m.leases id) m

unfoldable pub revoke : String → LeaseManager → LeaseManager
unfolding discard_found
revoke id m = discard_found (get m.leases id) m

unfoldable pub discard_each : Map String ℕ → LeaseManager → LeaseManager
unfolding discard
discard_each [] m = m
discard_each ((id, at) ∷ rest) m = discard_each rest (discard at m)

unfoldable pub revoke_all : LeaseManager → LeaseManager
unfolding discard_each
revoke_all m = discard_each m.leases m

-- A new entry, the trigger that settles it and, if the trigger can be cancelled, its handle.
unfoldable pub register : LeaseManager → LeaseEntry → Trigger → LeaseManager
register m entry trigger = record m {
  next = m.next + 1;
  heap = set m.heap m.next entry;
  leases = set m.leases entry.id m.next;
  armed = set m.armed m.next trigger;
}

-- The same, where the clock calls back within `setTimer`, as systemClock does once the deadline has
-- passed: the entry is settled before it is listed, and no timer is armed.
unfoldable pub register_late : LeaseManager → LeaseEntry → LeaseManager
register_late m entry = record m {
  next = m.next + 1;
  heap = set m.heap m.next (record entry { settled = true });
  leases = set (delete m.leases entry.id) entry.id m.next;
  expired = m.expired ++ record { entry = m.next; sandbox_id = entry.sandbox_id } ∷ [];
}

-- `armed_at` is the time that the clock reads within `setTimer`.
unfoldable pub register_timed : ℕ → ℕ → LeaseManager → LeaseEntry → LeaseManager
unfolding register register_late
register_timed armed_at deadline m entry =
    if leb deadline armed_at
    then register_late m entry
    else register m entry (timer deadline m.next)

unfoldable pub session_trigger : Signal → ℕ → Trigger
session_trigger signal at = if signal.aborted then microtask at else listener signal.number at

-- A queued microtask is not taken back by `cleanup`.
unfoldable pub session_cleanup : Signal → ℕ → Option ℕ
session_cleanup signal at = if signal.aborted then none else some at

abbrev pub duration_entry : ℕ → String → String → ℕ → LeaseEntry
duration_entry at id sandbox_id deadline = record {
  id = id;
  sandbox_id = sandbox_id;
  kind = duration;
  generation = 1;
  deadline_unix_ms = some deadline;
  cleanup = some at;
  settled = false;
}

abbrev pub session_entry : ℕ → String → String → Signal → LeaseEntry
session_entry at id sandbox_id signal = record {
  id = id;
  sandbox_id = sandbox_id;
  kind = session;
  generation = 1;
  deadline_unix_ms = none;
  cleanup = session_cleanup signal at;
  settled = false;
}

unfoldable pub create_with :
    ℕ → ℕ → String → CreateLeaseSpec → LeaseTimeout → LeaseManager → Result LeaseError LeaseManager
unfolding register register_timed session_trigger
create_with now armed_at id spec (for_duration duration_ms) m = do
  ms ← or_throw (safe_positive duration_ms) invalid
  ok (register_timed armed_at (now + ms) m (duration_entry m.next id spec.sandbox_id (now + ms)))
create_with now armed_at id spec for_session m = do
  signal ← or_throw spec.connection_signal invalid
  ok (register m (session_entry m.next id spec.sandbox_id signal) (session_trigger signal m.next))

-- spec.id ?? this.#idFactory()
unfoldable pub chosen_id : Option String → String → String
chosen_id none minted = minted
chosen_id (some id) minted = id

unfoldable pub create :
    ℕ → ℕ → String → CreateLeaseSpec → LeaseManager → Result LeaseError LeaseManager
unfolding create_with chosen_id
create now armed_at minted spec m = do
  throw_if (chosen_id spec.id minted == "") invalid
  throw_if (has m.leases (chosen_id spec.id minted)) invalid
  throw_if (spec.sandbox_id == "") invalid
  create_with now armed_at (chosen_id spec.id minted) spec spec.timeout m
