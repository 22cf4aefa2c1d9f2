-- ===== src/Hostd/Leases/Tests.antt =====
-- A run of the lease manager, and each theorem at an input that meets its hypotheses.
use studiobox.Common.{◌≡◌, refl, [], ◌∷◌, arith, some, none, true, nat_eq, string_eq, subst}
use studiobox.Common.Results.{ok}
use studiobox.Common.JsNumber.{nat, safe_positive}
use studiobox.Common.Map.{get, set, delete, has}
use studiobox.Hostd.Leases.{
  LeaseManager, LeaseEntry, CreateLeaseSpec, for_duration, create_manager, create, create_with,
  register, register_timed, register_late, chosen_id, duration_entry, timer, release, revoke,
  cancel, or_default,
}
use studiobox.Hostd.Leases.Extending.{
  renew, bump, extend_timeout, require_extendable, found_entry, extend_entry, extend_live,
  extend_to,
}
use studiobox.Hostd.Leases.Events.{run, step, creates, releases, fires, fire}
use studiobox.Hostd.Leases.Creation.{InTime}
use studiobox.Hostd.Leases.Invariant.{Inv, expiries_of}
use studiobox.Hostd.Leases.Steps.{reachable-Inv}
use studiobox.Hostd.Leases.Once.{release_once, revoke_silent, deadline_once}
use studiobox.Hostd.Leases.Late.{IsStuck, late_create-IsStuck}
use studiobox.Hostd.Leases.Renewal.{Renewal, renew-Renewal}

abbrev empty : LeaseManager
empty = record { max_extend_ms = 1000; next = 0; heap = []; leases = []; armed = []; expired = [] }

abbrev spec : CreateLeaseSpec
spec = record {
  sandbox_id = "sbx";
  timeout = for_duration (nat 60_000);
  connection_signal = none;
  id = some "a";
}

abbrev entry : LeaseEntry
entry = duration_entry 0 "a" "sbx" 60_005

abbrev one_lease : LeaseManager
one_lease = record {
  max_extend_ms = 1000;
  next = 1;
  heap = (0, entry) ∷ [];
  leases = ("a", 0) ∷ [];
  armed = (0, timer 60_005 0) ∷ [];
  expired = [];
}

empty_lem : create_manager (some (nat 1000)) ≡ ok empty
unfolding create_manager safe_positive or_default
empty_lem = refl

one_lease_lem : run empty (creates 5 5 "b" spec ∷ []) ≡ one_lease
unfolding run step create create_with register register_timed chosen_id safe_positive has set
one_lease_lem = refl

spec-InTime : InTime 5 5 spec.timeout
unfolding safe_positive
spec-InTime ms h = ground (arith, h)

one_lease-Inv : Inv one_lease
one_lease-Inv =
    subst Inv one_lease_lem (
      reachable-Inv (some (nat 1000)) empty (creates 5 5 "b" spec ∷ []) empty_lem (spec-InTime, tt))

reachable-Inv_example : Inv (run empty (creates 5 5 "b" spec ∷ releases "a" ∷ []))
reachable-Inv_example =
    reachable-Inv (some (nat 1000)) empty (creates 5 5 "b" spec ∷ releases "a" ∷ []) empty_lem
      (spec-InTime, (tt, tt))

release_once_example :
    expiries_of 0 (run (release "a" one_lease) (releases "a" ∷ fires 70_000 0 ∷ [])).expired ≡ 1
unfolding get
release_once_example =
    release_once one_lease "a" 0 (releases "a" ∷ fires 70_000 0 ∷ []) one_lease-Inv refl

revoke_silent_example :
    expiries_of 0 (run (revoke "a" one_lease) (releases "a" ∷ fires 70_000 0 ∷ [])).expired ≡ 0
unfolding get
revoke_silent_example =
    revoke_silent one_lease "a" 0 (releases "a" ∷ fires 70_000 0 ∷ []) one_lease-Inv refl

deadline_once_example :
    expiries_of 0 (run (fire 60_005 0 one_lease) (releases "a" ∷ [])).expired ≡ 1
unfolding get
deadline_once_example =
    deadline_once one_lease 0 60_005 60_005 0 entry (releases "a" ∷ []) one_lease-Inv refl refl refl
      (omega arith)

abbrev longer : LeaseEntry
longer = record entry { deadline_unix_ms = some 61_005; cleanup = some 1 }

abbrev extended : LeaseManager
extended = record one_lease { next = 2; heap = (0, longer) ∷ []; armed = (1, timer 61_005 0) ∷ [] }

extended_lem : extend_timeout 10 "a" (nat 5000) one_lease ≡ ok (extended, some 61_005)
unfolding extend_timeout require_extendable found_entry extend_entry extend_live extend_to cancel
    safe_positive get set delete
extended_lem = refl

abbrev renewed : LeaseManager
renewed = record extended { heap = (0, record longer { generation = 2 }) ∷ [] }

renewed_lem : renew 10 "a" (nat 5000) one_lease ≡ ok (renewed, record longer { generation = 2 })
unfolding renew bump require_extendable found_entry extend_entry extend_live extend_to cancel
    safe_positive get set delete
renewed_lem = refl

renew-Renewal_example :
    (x : Renewal 10 "a" (nat 5000) one_lease renewed 1) × (x.new ≡ record longer { generation = 2 })
renew-Renewal_example =
    renew-Renewal 10 "a" (nat 5000) one_lease renewed (record longer { generation = 2 }) renewed_lem

abbrev stuck : LeaseManager
stuck = record empty {
  next = 1;
  heap = (0, record entry { settled = true }) ∷ [];
  leases = ("a", 0) ∷ [];
  expired = record { entry = 0; sandbox_id = "sbx" } ∷ [];
}

created_late : create 5 60_005 "b" spec empty ≡ ok stuck
unfolding create create_with register_timed register_late chosen_id safe_positive has set delete
created_late = refl

safe_minute : safe_positive (nat 60_000) ≡ some 60_000
unfolding safe_positive
safe_minute = refl

late_create-IsStuck_example :
    (expiries_of 0 (run stuck (releases "a" ∷ [])).expired ≡ 1) × IsStuck "a" stuck
unfolding chosen_id run
late_create-IsStuck_example =
    late_create-IsStuck 5 60_005 60_000 (nat 60_000) "b" spec empty stuck (releases "a" ∷ [])
      (reachable-Inv (some (nat 1000)) empty [] empty_lem tt) refl safe_minute (omega arith)
      created_late
