-- ===== src/Hostd/Capacity/History.antt =====
-- Histories of calls on one ledger of src/hostd/capacity.ts. A call that throws changes nothing.
use studiobox.Common.{◌+◌, ◌≡◌, refl, ◌≢◌, String, List, [], ◌∷◌, arith, count, none, string_eq}
use studiobox.Common.JsNumber.{nan}
use studiobox.Common.Map.{get, sum_by}
use studiobox.Api.Memory.{mib, nan_mib, parse_memory}
use studiobox.Api.Memory.Text.{number}
use studiobox.Common.Results.{Result, ok, err}
use studiobox.Hostd.Capacity.{
  CapacityLedger, memory, exhausted, Reservation, ReservationRequest, admit, commit, reserve,
  release, add_mib, sub_mib, exceeds, Error,
}
use studiobox.Hostd.Capacity.Create.{CapacityLedgerOptions, create_ledger}
use studiobox.Hostd.Capacity.Invariant.{Inv, release-Inv}
use studiobox.Hostd.Capacity.Admission.{reserve-eq-ok}
use studiobox.Hostd.Capacity.Grants.{reserve-Inv}

pub data Call : Type 0 where
  reserves : String → ReservationRequest → Call
  releases : String → Call

abbrev pub after : CapacityLedger → Result Error (CapacityLedger × Reservation) → CapacityLedger
after l (ok (l', r)) = l'
after l (err e) = l

unfoldable pub step : CapacityLedger → Call → CapacityLedger
step l (reserves id request) = after l (reserve id request l)
step l (releases id) = release id l

unfoldable pub run : CapacityLedger → List Call → CapacityLedger
run l [] = l
run l (c ∷ cs) = run (step l c) cs

-- The id of a reservation is new, and its memory is not the number NaN.
abbrev pub IsSound : CapacityLedger → Call → Type 0
IsSound l (reserves id request) = (get l.reservations id ≡ none) × (request.memory ≢ number nan)
IsSound l (releases id) = Unit {0}

abbrev pub AllSound : CapacityLedger → List Call → Type 0
AllSound l [] = Unit {0}
AllSound l (c ∷ cs) = IsSound l c × AllSound (step l c) cs

after-Inv :
    (id : String) (request : ReservationRequest) (l : CapacityLedger)
    (x : Result Error (CapacityLedger × Reservation))
    → Inv l
    → IsSound l (reserves id request)
    → reserve id request l ≡ x
    → Inv (after l x)
after-Inv id request l (ok (l', r)) v (fresh, finite) e =
    reserve-Inv id request l l' r v finite e fresh
after-Inv id request l (err k) v s e = v

step-Inv : (l : CapacityLedger) (c : Call) → Inv l → IsSound l c → Inv (step l c)
unfolding step
step-Inv l (reserves id request) v s = after-Inv id request l (reserve id request l) v s refl
step-Inv l (releases id) v s = release-Inv id l v

run-Inv : (l : CapacityLedger) (cs : List Call) → Inv l → AllSound l cs → Inv (run l cs)
unfolding run
run-Inv l [] v s = v
run-Inv l (c ∷ cs) v (s, ss) = run-Inv (step l c) cs (step-Inv l c v s) ss

-- What the constructor establishes.
record IsFresh (l : CapacityLedger) : Type 0 where
  no_vcpus : l.vcpus_committed ≡ 0
  no_memory : l.memory_committed_mib ≡ mib 0
  no_disk : l.disk_committed_bytes ≡ 0
  no_ports : l.allocated_ports ≡ []
  no_reservations : l.reservations ≡ []
  range_size : l.ports_total + l.port_range.start ≡ l.port_range.end

create-IsFresh :
    (o : CapacityLedgerOptions) (l : CapacityLedger) → create_ledger o ≡ ok l → IsFresh l
unfolding create_ledger
create-IsFresh o l h = ground arith

IsFresh-Inv : (l : CapacityLedger) → IsFresh l → Inv l
unfolding sum_by count
IsFresh-Inv l f = record {
  distinct = rw f.no_reservations tt;
  vcpus = ground arith;
  memory = ground arith;
  finite = ground arith;
  disk = ground arith;
  held = λ p. ground arith;
  once = λ p. ground arith;
  ranged = λ p h. ground arith;
  ports = ground arith;
  range_size = f.range_size;
  vcpus_within = ground arith;
  memory_within = ground arith;
  disk_within = ground arith;
  ports_within = ground arith;
  sandboxes_within = ground arith;
}

create-Inv : (o : CapacityLedgerOptions) (l : CapacityLedger) → create_ledger o ≡ ok l → Inv l
create-Inv o l h = IsFresh-Inv l (create-IsFresh o l h)

-- Whatever the calls on a new ledger, every counter stays the total over the held reservations and
-- within the budget, and no port is in two of them, provided that each reservation gets a new id
-- and none asks for NaN memory.
pub run-create-Inv :
    (o : CapacityLedgerOptions) (l : CapacityLedger) (cs : List Call)
    → create_ledger o ≡ ok l
    → AllSound l cs
    → Inv (run l cs)
run-create-Inv o l cs e = run-Inv l cs (create-Inv o l e)

abbrev IsPoisoned : CapacityLedger → Type 0
IsPoisoned l = l.memory_committed_mib ≡ nan_mib

reserve-IsPoisoned :
    (id : String) (request : ReservationRequest) (l : CapacityLedger)
    → IsPoisoned l
    → IsPoisoned (after l (reserve id request l))
unfolding reserve commit add_mib
reserve-IsPoisoned id request l p = ground arith

step-IsPoisoned : (l : CapacityLedger) (c : Call) → IsPoisoned l → IsPoisoned (step l c)
unfolding step release sub_mib
step-IsPoisoned l (reserves id request) p = reserve-IsPoisoned id request l p
step-IsPoisoned l (releases id) p = ground arith

run-IsPoisoned : (l : CapacityLedger) (cs : List Call) → IsPoisoned l → IsPoisoned (run l cs)
unfolding run
run-IsPoisoned l [] p = p
run-IsPoisoned l (c ∷ cs) p = run-IsPoisoned (step l c) cs (step-IsPoisoned l c p)

poisoned_admits :
    (id : String) (request : ReservationRequest) (l : CapacityLedger)
    → IsPoisoned l
    → reserve id request l ≢ err (exhausted memory)
unfolding reserve admit add_mib exceeds
poisoned_admits id request l p h = ground arith

nan_poisons :
    (id : String) (request : ReservationRequest) (l l' : CapacityLedger) (r : Reservation)
    → request.memory ≡ number nan
    → reserve id request l ≡ ok (l', r)
    → IsPoisoned l'
unfolding commit add_mib parse_memory
nan_poisons id request l l' r e granted =
    let (k, d, n, reads, admitted, result) = reserve-eq-ok id request l granted in
    let is_nan : k ≡ nan_mib = ground (arith, reads.memory, e) in ground (arith, result, is_nan)

-- Once a request whose memory is the number NaN is granted, no later request is ever refused for
-- memory, whatever calls come between.
pub nan_disables_memory_check :
    (id : String) (request : ReservationRequest) (l l' : CapacityLedger) (r : Reservation)
    (cs : List Call) (later : String) (next : ReservationRequest)
    → request.memory ≡ number nan
    → reserve id request l ≡ ok (l', r)
    → reserve later next (run l' cs) ≢ err (exhausted memory)
nan_disables_memory_check id request l l' r cs later next e granted =
    poisoned_admits later next (run l' cs)
      (run-IsPoisoned l' cs (nan_poisons id request l l' r e granted))
