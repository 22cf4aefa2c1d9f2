-- ===== src/Hostd/Capacity/Grants.antt =====
-- What a granted reservation of src/hostd/capacity.ts holds, and what its release gives back.
use studiobox.Common.{
  ℕ, ◌≤◌, ◌<◌, ◌≡◌, refl, inl, inr, ◌≢◌, String, arith, count, none, some, length, string_eq,
  Option-cases, subst, member-count,
}
use studiobox.Common.JsNumber.{nan, safe_nat}
use studiobox.Common.Map.{get, get-set_self, get-delete_self, delete-set_new}
use studiobox.Api.Memory.{Mib, mib, nan_mib}
use studiobox.Api.Memory.Text.{number}
use studiobox.Api.Memory.Range.{InContract, parse_memory-InContract}
use studiobox.Hostd.Capacity.Ports.Allocation.{
  allocate_ports-Claims, count-remove_all, length-remove_all,
}
use studiobox.Common.Results.{ok}
use studiobox.Hostd.Capacity.{
  CapacityLedger, Reservation, ReservationRequest, admit, commit, reserve, release, add_mib,
  sub_mib, vcpus_per_sandbox, requested_ports, capacity, usage,
}
use studiobox.Hostd.Capacity.Invariant.{Inv, Fits, commit-Inv, length-commit}
use studiobox.Hostd.Capacity.Admission.{Reads, admit-Fits, reserve-eq-ok}

-- What the reservation holds, for a request of `n` ports against the ledger `l`.
pub record Granted (id : String) (l : CapacityLedger) (n : ℕ) (l' : CapacityLedger)
    (r : Reservation) : Type 0 where
  pub listed : usage id l' ≡ some r
  pub vcpus : r.vcpus ≡ vcpus_per_sandbox
  pub memory : InContract r.memory_mib
  pub port_count : length r.ports ≡ n
  pub free_ports :
      (p : ℕ)
      → 0 < count p r.ports
      → (count p l.allocated_ports ≡ 0)
        × (count p r.ports ≡ 1)
        × (l.port_range.start ≤ p)
        × (p < l.port_range.end)
  pub lowest_ports :
      (p q : ℕ)
      → 0 < count p r.ports
      → l.port_range.start ≤ q
      → q < p
      → 0 < count q l'.allocated_ports

-- A release gives back everything: the report, every port and every other reservation.
pub record SameLedger (l l' : CapacityLedger) : Type 0 where
  pub report : capacity l ≡ capacity l'
  pub ports : (p : ℕ) → count p l.allocated_ports ≡ count p l'.allocated_ports
  pub others : (j : String) → usage j l ≡ usage j l'

module _ (id : String) (l : CapacityLedger) (m d n : ℕ) (v : Inv l) (f : Fits l m d n)
    (fresh : get l.reservations id ≡ none) where
  commit-Granted :
      InContract (mib m) → Granted id l n (commit id l (mib m) d n).0 (commit id l (mib m) d n).1
  unfolding commit usage
  commit-Granted fits =
      let a = allocate_ports-Claims l.port_range n l.allocated_ports in
      record {
        listed = get-set_self l.reservations id _;
        vcpus = refl;
        memory = fits;
        port_count = length-commit id l m d n v f fresh;
        free_ports = a.fresh;
        lowest_ports = a.lowest;
      }

  release-commit : SameLedger (release id (commit id l (mib m) d n).0) l
  unfolding commit release usage capacity add_mib sub_mib
  release-commit =
      let a = allocate_ports-Claims l.port_range n l.allocated_ports in
      let r = (commit id l (mib m) d n).1 in
      let l' = (commit id l (mib m) d n).0 in
      let w = commit-Inv id l m d n v f fresh in
      rw (get-set_self l.reservations id r) (record {
        report = ground (
          arith,
          v.memory,
          a.lengths,
          delete-set_new l.reservations id r fresh,
          length-remove_all r.ports l'.allocated_ports w.once (λ p. omega (arith, a.moved p)),
        );
        ports = λ p. ground (
          arith,
          a.moved p,
          a.fresh p,
          count-remove_all p r.ports l'.allocated_ports,
          member-count p r.ports,
        );
        others = λ j. rw (delete-set_new l.reservations id r fresh);
      })

-- What is known of a request when it is granted: it was read and it fitted.
pub record Grant (id : String) (request : ReservationRequest) (l l' : CapacityLedger)
    (r : Reservation) : Type 0 where
  pub m : ℕ
  pub d : ℕ
  pub n : ℕ
  pub reads : Reads request (mib m) d n
  pub in_contract : InContract (mib m)
  pub fits : Fits l m d n
  pub result : commit id l (mib m) d n ≡ (l', r)

module _ (id : String) (request : ReservationRequest) (l l' : CapacityLedger) (r : Reservation)
    (v : Inv l) (finite : request.memory ≢ number nan)
    (granted : reserve id request l ≡ ok (l', r)) where
  Grant-of :
      (k : Mib) (d n : ℕ)
      → Reads request k d n
      → admit l k d n ≡ ok tt
      → commit id l k d n ≡ (l', r)
      → Grant id request l l' r
  Grant-of (mib m) d n reads admitted e = record {
    m = m;
    d = d;
    n = n;
    reads = reads;
    in_contract = parse_memory-InContract request.memory (mib m) finite reads.memory;
    fits = admit-Fits l m d n v admitted;
    result = e;
  }
  Grant-of nan_mib d n reads admitted e =
      absurd (parse_memory-InContract request.memory nan_mib finite reads.memory)

  pub reserve-Grant : Grant id request l l' r
  reserve-Grant =
      let (k, d, n, reads, admitted, e) = reserve-eq-ok id request l granted in
      Grant-of k d n reads admitted e

  module _ (fresh : get l.reservations id ≡ none) where
    pub reserve-Inv : Inv l'
    reserve-Inv =
        let g = reserve-Grant in
        subst (λ (x : CapacityLedger × Reservation). Inv x.0) g.result
          (commit-Inv id l g.m g.d g.n v g.fits fresh)

    -- On a ledger that keeps its invariant, a reservation granted under a new id, for memory that is
    -- not NaN, holds two vCPUs, an amount of memory within the contract and exactly the requested
    -- number of ports, all free before and in range, the lowest free ones.
    pub reserve-Granted :
        (n : ℕ) → safe_nat (requested_ports request.ports) ≡ some n → Granted id l n l' r
    reserve-Granted n e =
        let g = reserve-Grant in
        let same : g.n ≡ n = ground (arith, e, g.reads.ports) in
        subst (λ n. Granted id l n l' r) same
          (subst (λ (x : CapacityLedger × Reservation). Granted id l g.n x.0 x.1) g.result
            (commit-Granted id l g.m g.d g.n v g.fits fresh g.in_contract))

    -- Releasing a reservation just granted, under a new id and for memory that is not NaN, on a
    -- ledger that keeps its invariant, restores the report, the ports and the reservations.
    pub release-reserve : SameLedger (release id l') l
    release-reserve =
        let g = reserve-Grant in
        subst (λ (x : CapacityLedger × Reservation). SameLedger (release id x.0) l) g.result
          (release-commit id l g.m g.d g.n v g.fits fresh)

-- A second release of the same id, directly after the first, changes nothing.
pub release_twice : (id : String) (l : CapacityLedger) → release id (release id l) ≡ release id l
unfolding release
release_twice id l = elim (Option-cases (get l.reservations id)) [
  | inl missing ↦ rw (missing, release) (rw (missing, release))
  | inr (r, held) ↦ rw (held, release) (rw (get-delete_self l.reservations id, release))
]
