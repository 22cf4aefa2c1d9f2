-- ===== src/Hostd/Capacity.antt =====
-- src/hostd/capacity.ts: the host capacity ledger. The bodies that `#exclusive` serialises are the
-- operations here; the id that `crypto.randomUUID` makes is an argument.
pub mod Ports
pub mod Create
pub mod Invariant
pub mod Admission
pub mod Grants
pub mod History
mod Tests
use Ports.{PortRange, allocate_ports, remove_all}
use studiobox.Common.{
  ℕ, ◌+◌, ◌-◌, String, Option, none, some, Bool, true, false, List, [], ltb, if◌then◌else◌, length,
  string_eq,
}
use studiobox.Common.Results.{Result, err, ok, ◌>>=◌, ◌>>◌, or_throw, throw_if}
use studiobox.Common.JsNumber.{JsNumber, safe_nat}
use studiobox.Common.Map.{Map, get, set, delete}
use studiobox.Api.Memory.{Mib, mib, nan_mib, parse_memory}
use studiobox.Api.Memory.Text.{Memory}

abbrev pub vcpus_per_sandbox : ℕ
vcpus_per_sandbox = 2

pub data CapacityDimension : Type 0 where
  memory vcpu disk ports sandboxes : CapacityDimension

pub data Error : Type 0 where
  invalid_memory : Error
  range_error : Error
  exhausted : CapacityDimension → Error

pub record Reservation : Type 0 where
  pub id : String
  pub memory_mib : Mib
  pub vcpus : ℕ
  pub disk_bytes : ℕ
  pub ports : List ℕ

pub record ReservationRequest : Type 0 where
  pub memory : Memory
  pub disk_bytes : JsNumber
  pub ports : Option JsNumber

pub record CapacityLedger : Type 0 where
  pub vcpus_total : ℕ
  pub memory_total_mib : ℕ
  pub disk_total_bytes : ℕ
  pub port_range : PortRange
  pub ports_total : ℕ
  pub sandbox_limit : ℕ
  pub vcpus_committed : ℕ
  pub memory_committed_mib : Mib
  pub disk_committed_bytes : ℕ
  pub allocated_ports : List ℕ
  pub reservations : Map String Reservation

pub record CapacityReport : Type 0 where
  pub memory_total_mib : ℕ
  pub memory_committed_mib : Mib
  pub vcpus_total : ℕ
  pub vcpus_committed : ℕ
  pub disk_total_bytes : ℕ
  pub disk_committed_bytes : ℕ
  pub ports_total : ℕ
  pub ports_committed : ℕ
  pub sandbox_limit : ℕ
  pub sandbox_count : ℕ

-- `+`, `-` and `a + b > total` on mebibytes, where NaN absorbs and compares false.
unfoldable pub add_mib : Mib → Mib → Mib
add_mib (mib a) (mib b) = mib (a + b)
add_mib nan_mib b = nan_mib
add_mib (mib a) nan_mib = nan_mib

unfoldable pub sub_mib : Mib → Mib → Mib
sub_mib (mib a) (mib b) = mib (a - b)
sub_mib nan_mib b = nan_mib
sub_mib (mib a) nan_mib = nan_mib

unfoldable pub exceeds : Mib → ℕ → Bool
exceeds (mib a) total = ltb total a
exceeds nan_mib total = false

-- The checks of `reserve`, in their order.
unfoldable pub admit : CapacityLedger → Mib → ℕ → ℕ → Result Error (Unit {0})
unfolding add_mib exceeds
admit l memory_mib disk_bytes port_count = do
  throw_if (ltb l.vcpus_total (l.vcpus_committed + vcpus_per_sandbox)) (exhausted vcpu)
  throw_if (exceeds (add_mib l.memory_committed_mib memory_mib) l.memory_total_mib)
      (exhausted memory)
  throw_if (ltb l.disk_total_bytes (l.disk_committed_bytes + disk_bytes)) (exhausted disk)
  throw_if (ltb (l.ports_total - length l.allocated_ports) port_count)
      (exhausted CapacityDimension.ports)
  throw_if (ltb l.sandbox_limit (length l.reservations + 1)) (exhausted sandboxes)

-- The commit of `reserve`, after the admission barrier.
unfoldable pub commit : String → CapacityLedger → Mib → ℕ → ℕ → CapacityLedger × Reservation
commit id l memory_mib disk_bytes port_count =
    let (claimed, allocated) = allocate_ports l.port_range port_count l.allocated_ports in
    let reservation : Reservation = record {
      id = id;
      memory_mib = memory_mib;
      vcpus = vcpus_per_sandbox;
      disk_bytes = disk_bytes;
      ports = claimed;
    } in
    (
      record l {
        vcpus_committed = l.vcpus_committed + vcpus_per_sandbox;
        memory_committed_mib = add_mib l.memory_committed_mib memory_mib;
        disk_committed_bytes = l.disk_committed_bytes + disk_bytes;
        allocated_ports = allocated;
        reservations = set l.reservations id reservation;
      },
      reservation,
    )

-- request.ports ?? 0
unfoldable pub requested_ports : Option JsNumber → JsNumber
requested_ports none = JsNumber.nat 0
requested_ports (some n) = n

unfoldable pub reserve :
    String → ReservationRequest → CapacityLedger → Result Error (CapacityLedger × Reservation)
unfolding requested_ports
reserve id request l = do
  memory_mib ← or_throw (parse_memory request.memory) invalid_memory
  disk_bytes ← or_throw (safe_nat request.disk_bytes) range_error
  port_count ← or_throw (safe_nat (requested_ports request.ports)) range_error
  admit l memory_mib disk_bytes port_count
  ok (commit id l memory_mib disk_bytes port_count)

release_held : CapacityLedger → String → Option Reservation → CapacityLedger
release_held l id none = l
release_held l id (some held) = record l {
  vcpus_committed = l.vcpus_committed - held.vcpus;
  memory_committed_mib = sub_mib l.memory_committed_mib held.memory_mib;
  disk_committed_bytes = l.disk_committed_bytes - held.disk_bytes;
  allocated_ports = remove_all held.ports l.allocated_ports;
  reservations = delete l.reservations id;
}

unfoldable pub release : String → CapacityLedger → CapacityLedger
unfolding release_held
release id l = release_held l id (get l.reservations id)

unfoldable pub capacity : CapacityLedger → CapacityReport
capacity l = record {
  memory_total_mib = l.memory_total_mib;
  memory_committed_mib = l.memory_committed_mib;
  vcpus_total = l.vcpus_total;
  vcpus_committed = l.vcpus_committed;
  disk_total_bytes = l.disk_total_bytes;
  disk_committed_bytes = l.disk_committed_bytes;
  ports_total = l.ports_total;
  ports_committed = length l.allocated_ports;
  sandbox_limit = l.sandbox_limit;
  sandbox_count = length l.reservations;
}

pub usage : String → CapacityLedger → Option Reservation
usage id l = get l.reservations id
