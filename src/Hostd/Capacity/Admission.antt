-- ===== src/Hostd/Capacity/Admission.antt =====
-- When `reserve` of src/hostd/capacity.ts admits a request, and what it then commits.
use studiobox.Common.{ℕ, ◌+◌, ◌≤◌, ◌<◌, ◌≡◌, ◌↔◌, String, arith, some, length, string_eq}
use studiobox.Common.JsNumber.{safe_nat}
use studiobox.Api.Memory.{Mib, mib, parse_memory}
use studiobox.Common.Results.{ok, err, ◌>>=◌, or_throw, >>=-eq-ok, or_throw-eq-ok}
use studiobox.Hostd.Capacity.{
  CapacityLedger, CapacityDimension, memory, vcpu, disk, ports, sandboxes, exhausted, Reservation,
  ReservationRequest, admit, commit, reserve, vcpus_per_sandbox, requested_ports,
}
use studiobox.Hostd.Capacity.Invariant.{Inv, Fits, amount}

-- The dimension that is refused: it overflows, and those checked before it do not.
abbrev pub FirstOverflow : CapacityLedger → ℕ → ℕ → ℕ → CapacityDimension → Type 0
FirstOverflow l m d n vcpu = l.vcpus_total < l.vcpus_committed + vcpus_per_sandbox
FirstOverflow l m d n memory =
    (l.vcpus_committed + vcpus_per_sandbox ≤ l.vcpus_total)
    × (l.memory_total_mib < amount l.memory_committed_mib + m)
FirstOverflow l m d n disk =
    (l.vcpus_committed + vcpus_per_sandbox ≤ l.vcpus_total)
    × (amount l.memory_committed_mib + m ≤ l.memory_total_mib)
    × (l.disk_total_bytes < l.disk_committed_bytes + d)
FirstOverflow l m d n ports =
    (l.vcpus_committed + vcpus_per_sandbox ≤ l.vcpus_total)
    × (amount l.memory_committed_mib + m ≤ l.memory_total_mib)
    × (l.disk_committed_bytes + d ≤ l.disk_total_bytes)
    × (l.ports_total < n + length l.allocated_ports)
FirstOverflow l m d n sandboxes =
    (l.vcpus_committed + vcpus_per_sandbox ≤ l.vcpus_total)
    × (amount l.memory_committed_mib + m ≤ l.memory_total_mib)
    × (l.disk_committed_bytes + d ≤ l.disk_total_bytes)
    × (n + length l.allocated_ports ≤ l.ports_total)
    × (l.sandbox_limit < length l.reservations + 1)

module _ (l : CapacityLedger) (m d n : ℕ) (v : Inv l) where
  pub admit-Fits : admit l (mib m) d n ≡ ok tt → Fits l m d n
  unfolding admit
  admit-Fits h = ground (arith, v.memory, v.ports_within)

  Fits-admit : Fits l m d n → admit l (mib m) d n ≡ ok tt
  unfolding admit
  Fits-admit f = ground (arith, v.memory, v.ports_within)

  admit_refused :
      (k : CapacityDimension) → admit l (mib m) d n ≡ err (exhausted k) → FirstOverflow l m d n k
  unfolding admit
  admit_refused vcpu h = ground (arith, v.memory, v.ports_within)
  admit_refused memory h = ground (arith, v.memory, v.ports_within)
  admit_refused disk h = ground (arith, v.memory, v.ports_within)
  admit_refused ports h = ground (arith, v.memory, v.ports_within)
  admit_refused sandboxes h = ground (arith, v.memory, v.ports_within)

  refused_admit :
      (k : CapacityDimension) → FirstOverflow l m d n k → admit l (mib m) d n ≡ err (exhausted k)
  unfolding admit
  refused_admit vcpu h = ground (arith, v.memory, v.ports_within)
  refused_admit memory h = ground (arith, v.memory, v.ports_within)
  refused_admit disk h = ground (arith, v.memory, v.ports_within)
  refused_admit ports h = ground (arith, v.memory, v.ports_within)
  refused_admit sandboxes h = ground (arith, v.memory, v.ports_within)

-- The request as `reserve` reads it.
pub record Reads (request : ReservationRequest) (k : Mib) (d n : ℕ) : Type 0 where
  pub memory : parse_memory request.memory ≡ some k
  pub disk : safe_nat request.disk_bytes ≡ some d
  pub ports : safe_nat (requested_ports request.ports) ≡ some n

reserve-Reads :
    (id : String) (l : CapacityLedger) (request : ReservationRequest) (k : Mib) (d n : ℕ)
    → Reads request k d n
    → reserve id request l ≡ (admit l k d n >>= λ _. ok (commit id l k d n))
unfolding reserve
reserve-Reads id l request k d n r = rw (r.memory, r.disk, r.ports)

module _ (id : String) (l : CapacityLedger) (request : ReservationRequest) (m d n : ℕ)
    (reads : Reads request (mib m) d n) (v : Inv l) where
  -- On a ledger that keeps its invariant, a request that reads well is granted and committed whole
  -- exactly when it fits in every dimension.
  pub reserve_admits : (reserve id request l ≡ ok (commit id l (mib m) d n)) ↔ Fits l m d n
  reserve_admits = rw (reserve-Reads id l request (mib m) d n reads) (
    (λ h. admit-Fits l m d n v ((>>=-eq-ok (admit l (mib m) d n) _ h).1)),
    λ f. rw (Fits-admit l m d n v f),
  )

  -- On a ledger that keeps its invariant, a request that reads well is refused for a dimension
  -- exactly when that dimension is the first that overflows.
  pub reserve_refuses :
      (k : CapacityDimension) → (reserve id request l ≡ err (exhausted k)) ↔ FirstOverflow l m d n k
  reserve_refuses k =
      rw (reserve-Reads id l request (mib m) d n reads)
        ((λ h. admit_refused l m d n v k (ground arith)), λ f. rw (refused_admit l m d n v k f))

-- A granted request read well, passed the checks and was committed.
pub reserve-eq-ok :
    (id : String) (request : ReservationRequest) (l : CapacityLedger)
    {r : CapacityLedger × Reservation}
    → reserve id request l ≡ ok r
    → (k : Mib) × (d : ℕ) × (n : ℕ) × Reads request k d n
      × (admit l k d n ≡ ok tt)
      × (commit id l k d n ≡ r)
unfolding reserve
reserve-eq-ok id request l {r} h =
    let (k, e1, h1) = >>=-eq-ok (or_throw (parse_memory request.memory) _) _ h in
    let (d, e2, h2) = >>=-eq-ok (or_throw (safe_nat request.disk_bytes) _) _ h1 in
    let (n, e3, h3) = >>=-eq-ok (or_throw (safe_nat (requested_ports request.ports)) _) _ h2 in
    let (_, e4, h4) = >>=-eq-ok (admit l k d n) _ h3 in
    (
      k,
      d,
      n,
      record {
        memory = or_throw-eq-ok _ _ e1;
        disk = or_throw-eq-ok _ _ e2;
        ports = or_throw-eq-ok _ _ e3;
      },
      e4,
      cc,
    )
