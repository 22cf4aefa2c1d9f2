-- ===== src/Hostd/Capacity/Invariant.antt =====
-- The ledger's invariant: the counters are the totals over the reservations, within the budget.
use studiobox.Common.{
  ℕ, ◌+◌, ◌≤◌, ◌<◌, ◌≡◌, refl, String, arith, count, member-count, length, none, some, inl, inr,
  string_eq, Option-cases,
}
use studiobox.Common.Map.{
  get, delete, Distinct, sum_by, sum_by-set, sum_by-delete, set-Distinct, delete-Distinct,
  length-set_new, length-delete_held,
}
use studiobox.Api.Memory.{Mib, mib, nan_mib}
use studiobox.Hostd.Capacity.Ports.{remove_all}
use studiobox.Hostd.Capacity.Ports.Allocation.{
  allocate_ports-Claims, count-remove_all, length-remove_all,
}
use studiobox.Hostd.Capacity.{
  CapacityLedger, Reservation, commit, release, add_mib, sub_mib, vcpus_per_sandbox,
}

abbrev pub amount : Mib → ℕ
amount (mib n) = n
amount nan_mib = 0

abbrev pub not_finite : Mib → ℕ
not_finite (mib n) = 0
not_finite nan_mib = 1

abbrev pub memory_of : Reservation → ℕ
memory_of r = amount r.memory_mib

abbrev pub nan_of : Reservation → ℕ
nan_of r = not_finite r.memory_mib

abbrev pub vcpus_of : Reservation → ℕ
vcpus_of r = r.vcpus

abbrev pub disk_of : Reservation → ℕ
disk_of r = r.disk_bytes

abbrev pub port_count_of : Reservation → ℕ
port_count_of r = length r.ports

abbrev pub holds : ℕ → Reservation → ℕ
holds p r = count p r.ports

pub record Inv (l : CapacityLedger) : Type 0 where
  pub distinct : Distinct l.reservations
  pub vcpus : l.vcpus_committed ≡ sum_by vcpus_of l.reservations
  pub memory : l.memory_committed_mib ≡ mib (sum_by memory_of l.reservations)
  pub finite : sum_by nan_of l.reservations ≡ 0
  pub disk : l.disk_committed_bytes ≡ sum_by disk_of l.reservations
  pub held : (p : ℕ) → count p l.allocated_ports ≡ sum_by (holds p) l.reservations
  pub once : (p : ℕ) → count p l.allocated_ports ≤ 1
  pub ranged :
      (p : ℕ) → 0 < count p l.allocated_ports → (l.port_range.start ≤ p) × (p < l.port_range.end)
  pub ports : length l.allocated_ports ≡ sum_by port_count_of l.reservations
  pub range_size : l.ports_total + l.port_range.start ≡ l.port_range.end
  pub vcpus_within : l.vcpus_committed ≤ l.vcpus_total
  pub memory_within : sum_by memory_of l.reservations ≤ l.memory_total_mib
  pub disk_within : l.disk_committed_bytes ≤ l.disk_total_bytes
  pub ports_within : length l.allocated_ports ≤ l.ports_total
  pub sandboxes_within : length l.reservations ≤ l.sandbox_limit

-- The request fits on top of what is committed.
pub record Fits (l : CapacityLedger) (memory_mib disk_bytes port_count : ℕ) : Type 0 where
  pub vcpu : l.vcpus_committed + vcpus_per_sandbox ≤ l.vcpus_total
  pub memory : amount l.memory_committed_mib + memory_mib ≤ l.memory_total_mib
  pub disk : l.disk_committed_bytes + disk_bytes ≤ l.disk_total_bytes
  pub ports : port_count + length l.allocated_ports ≤ l.ports_total
  pub sandboxes : length l.reservations + 1 ≤ l.sandbox_limit

module _ (id : String) (l : CapacityLedger) (m d n : ℕ) (v : Inv l) (f : Fits l m d n)
    (fresh : get l.reservations id ≡ none) where
  -- A request that fits, under a fresh id, is committed within the budget.
  pub commit-Inv : Inv (commit id l (mib m) d n).0
  unfolding commit add_mib
  commit-Inv =
      let a = allocate_ports-Claims l.port_range n l.allocated_ports in
      let r = (commit id l (mib m) d n).1 in
      record {
        distinct = set-Distinct l.reservations id r v.distinct;
        vcpus = omega (arith, v.vcpus, sum_by-set vcpus_of l.reservations id r fresh);
        memory = ground (arith, v.memory, sum_by-set memory_of l.reservations id r fresh);
        finite = omega (arith, v.finite, sum_by-set nan_of l.reservations id r fresh);
        disk = omega (arith, v.disk, sum_by-set disk_of l.reservations id r fresh);
        held =
            λ p. omega (arith, a.moved p, v.held p, sum_by-set (holds p) l.reservations id r fresh);
        once = λ p. ground (arith, a.moved p, v.once p, a.fresh p);
        ranged = λ p h. ground (arith, a.moved p, v.ranged p, a.fresh p);
        ports =
            omega (arith, a.lengths, v.ports, sum_by-set port_count_of l.reservations id r fresh);
        range_size = v.range_size;
        vcpus_within = f.vcpu;
        memory_within =
            ground (arith, v.memory, f.memory, sum_by-set memory_of l.reservations id r fresh);
        disk_within = f.disk;
        ports_within = omega (arith, a.lengths, a.bounded, f.ports);
        sandboxes_within = omega (arith, f.sandboxes, length-set_new l.reservations id r fresh);
      }

  -- It gets exactly as many ports as it asks for.
  pub length-commit : length (commit id l (mib m) d n).1.ports ≡ n
  unfolding commit
  length-commit =
      (allocate_ports-Claims l.port_range n l.allocated_ports).enough
        (omega (arith, v.range_size, f.ports))

module _ (id : String) (l : CapacityLedger) (v : Inv l) (r : Reservation)
    (held : get l.reservations id ≡ some r) where
  holds-le : (p : ℕ) → count p r.ports ≤ count p l.allocated_ports
  holds-le p = omega (arith, v.held p, sum_by-delete (holds p) l.reservations id r v.distinct held)

  memory_released :
      (k : Mib)
      → r.memory_mib ≡ k
      → sub_mib l.memory_committed_mib r.memory_mib
        ≡ mib (sum_by memory_of (delete l.reservations id))
  unfolding sub_mib
  memory_released (mib k) e =
      rw (v.memory, e)
        (ground (arith, e, sum_by-delete memory_of l.reservations id r v.distinct held))
  memory_released nan_mib e =
      absurd (ground (arith, e, v.finite, sum_by-delete nan_of l.reservations id r v.distinct held))

  once-ports :
      (p : ℕ)
      → count p (remove_all r.ports l.allocated_ports) ≡ sum_by (holds p) (delete l.reservations id)
  once-ports p = ground (
    arith,
    count-remove_all p r.ports l.allocated_ports,
    v.held p,
    v.once p,
    member-count p r.ports,
    sum_by-delete (holds p) l.reservations id r v.distinct held,
  )

  release_held-Inv : Inv (release id l)
  unfolding release
  release_held-Inv =
      let total = λ (f : Reservation → ℕ). sum_by-delete f l.reservations id r v.distinct held in
      let ports = length-remove_all r.ports l.allocated_ports v.once holds-le in
      rw held (record {
        distinct = delete-Distinct l.reservations id v.distinct;
        vcpus = omega (arith, v.vcpus, total vcpus_of);
        memory = memory_released r.memory_mib refl;
        finite = omega (arith, v.finite, total nan_of);
        disk = omega (arith, v.disk, total disk_of);
        held = once-ports;
        once = λ p. ground (arith, v.once p, count-remove_all p r.ports l.allocated_ports);
        ranged = λ p h. ground (arith, v.ranged p, count-remove_all p r.ports l.allocated_ports);
        ports = omega (arith, v.ports, ports, total port_count_of);
        range_size = v.range_size;
        vcpus_within = omega (arith, v.vcpus_within);
        memory_within = omega (arith, v.memory_within, total memory_of);
        disk_within = omega (arith, v.disk_within);
        ports_within = omega (arith, v.ports_within, ports);
        sandboxes_within =
            omega
              (arith, v.sandboxes_within, length-delete_held l.reservations id r v.distinct held);
      })

pub release-Inv : (id : String) (l : CapacityLedger) → Inv l → Inv (release id l)
unfolding release
release-Inv id l v = elim (Option-cases (get l.reservations id)) [
  | inl missing ↦ rw (missing, release) v
  | inr (r, held) ↦ release_held-Inv id l v r held
]
