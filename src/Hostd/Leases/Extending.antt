-- ===== src/Hostd/Leases/Extending.antt =====
-- `renew` and `extendTimeout` of src/hostd/leases.ts, and what they share.
use studiobox.Common.{
  ℕ, ◌+◌, String, Option, none, some, leb, if◌then◌else◌, min, string_eq, nat_eq,
}
use studiobox.Common.Results.{Result, err, ok, ◌>>=◌, or_throw}
use studiobox.Common.JsNumber.{JsNumber, safe_positive}
use studiobox.Common.Map.{get, set}
use studiobox.Hostd.Leases.{
  LeaseManager, LeaseEntry, LeaseKind, session, duration, LeaseError, not_found, lease_expired,
  wrong_kind, invalid, timer, cancel,
}

-- The new deadline, and the timer for it in place of the old one.
unfoldable pub extend_to : ℕ → ℕ → LeaseEntry → LeaseManager → LeaseManager × LeaseEntry
unfolding cancel
extend_to later at entry m =
    let extended = record entry { deadline_unix_ms = some later; cleanup = some m.next } in
    (
      record m {
        next = m.next + 1;
        heap = set m.heap at extended;
        armed = set (cancel entry.cleanup m.armed) m.next (timer later at);
      },
      extended,
    )

unfoldable pub extend_live :
    ℕ
    → ℕ
    → ℕ
    → LeaseKind
    → Option ℕ
    → LeaseEntry
    → LeaseManager
    → Result LeaseError (LeaseManager × LeaseEntry)
unfolding extend_to
extend_live now requested_ms at session deadline entry m = err wrong_kind
extend_live now requested_ms at duration none entry m = err wrong_kind
extend_live now requested_ms at duration (some deadline) entry m =
    if leb deadline now
    then err lease_expired
    else ok (extend_to (deadline + min requested_ms m.max_extend_ms) at entry m)

-- The rest of #requireExtendable, for an entry found in the table.
unfoldable pub extend_entry :
    ℕ → ℕ → ℕ → Option LeaseEntry → LeaseManager → Result LeaseError (LeaseManager × LeaseEntry)
unfolding extend_live
extend_entry now requested_ms at none m = err not_found
extend_entry now requested_ms at (some entry) m =
    extend_live now requested_ms at entry.kind entry.deadline_unix_ms entry m

unfoldable pub found_entry : Option ℕ → LeaseManager → Result LeaseError ℕ
found_entry none m = err not_found
found_entry (some at) m = ok at

-- #requireExtendable: the manager, and the number of the entry with what it holds now.
unfoldable pub require_extendable :
    ℕ → String → JsNumber → LeaseManager → Result LeaseError (LeaseManager × (ℕ × LeaseEntry))
unfolding found_entry extend_entry
require_extendable now id requested_ms m = do
  ms ← or_throw (safe_positive requested_ms) invalid
  at ← found_entry (get m.leases id) m
  extended ← extend_entry now ms at (get m.heap at) m
  ok (extended.0, (at, extended.1))

unfoldable pub bump : LeaseManager × (ℕ × LeaseEntry) → LeaseManager × LeaseEntry
bump (m, (at, entry)) =
    let bumped = record entry { generation = entry.generation + 1 } in
    (record m { heap = set m.heap at bumped }, bumped)

unfoldable pub renew :
    ℕ → String → JsNumber → LeaseManager → Result LeaseError (LeaseManager × LeaseEntry)
unfolding bump
renew now id requested_ms m = do
  extended ← require_extendable now id requested_ms m
  ok (bump extended)

unfoldable pub extend_timeout :
    ℕ → String → JsNumber → LeaseManager → Result LeaseError (LeaseManager × Option ℕ)
extend_timeout now id requested_ms m = do
  extended ← require_extendable now id requested_ms m
  ok (extended.0, extended.1.1.deadline_unix_ms)
