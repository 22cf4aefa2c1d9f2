-- ===== src/Hostd/Capacity/Create.antt =====
-- The constructor of `CapacityLedger` (src/hostd/capacity.ts). An option that is absent is `none`.
use studiobox.Common.{ℕ, ◌-◌, ◌*◌, ◌/◌, Option, none, some, ◌||◌, [], ltb, min}
use studiobox.Common.JsNumber.{JsNumber, nat, safe_nat}
use studiobox.Api.Memory.{mib}
use studiobox.Common.Results.{Result, ok, ◌>>=◌, ◌>>◌, or_throw, throw_if}
use studiobox.Hostd.Capacity.{CapacityLedger, range_error, vcpus_per_sandbox, Error}

pub record CapacityLedgerOptions : Type 0 where
  pub budget_vcpus : Option JsNumber
  pub budget_memory_mib : Option JsNumber
  pub budget_disk_bytes : Option JsNumber
  pub budget_port_range : Option (JsNumber × JsNumber)
  pub headroom_vcpus : Option JsNumber
  pub headroom_memory_mib : Option JsNumber
  pub headroom_disk_bytes : Option JsNumber
  pub max_sandboxes : Option JsNumber

abbrev gib : ℕ
gib = 1024 * (1024 * 1024)

abbrev pub no_options : CapacityLedgerOptions
no_options = record {
  budget_vcpus = none;
  budget_memory_mib = none;
  budget_disk_bytes = none;
  budget_port_range = none;
  headroom_vcpus = none;
  headroom_memory_mib = none;
  headroom_disk_bytes = none;
  max_sandboxes = none;
}

default_to {ℓ} : {A : Type ℓ} → A → Option A → A
default_to d none = d
default_to d (some a) = a

-- The cap of `maxSandboxes`, or the derived limit alone.
limit_sandboxes : ℕ → Option JsNumber → Result Error ℕ
limit_sandboxes derived none = ok derived
limit_sandboxes derived (some v) = do cap ← or_throw (safe_nat v) range_error; ok (min cap derived)

unfoldable pub create_ledger : CapacityLedgerOptions → Result Error CapacityLedger
unfolding default_to limit_sandboxes
create_ledger o = do
  let range = default_to (nat 20_000, nat 20_128) o.budget_port_range
  budget_vcpus ← or_throw (safe_nat (default_to (nat 4) o.budget_vcpus)) range_error
  budget_memory ← or_throw (safe_nat (default_to (nat (8 * 1024)) o.budget_memory_mib)) range_error
  budget_disk ← or_throw (safe_nat (default_to (nat (60 * gib)) o.budget_disk_bytes)) range_error
  headroom_vcpus ← or_throw (safe_nat (default_to (nat 0) o.headroom_vcpus)) range_error
  headroom_memory ← or_throw (safe_nat (default_to (nat 512) o.headroom_memory_mib)) range_error
  headroom_disk ← or_throw (safe_nat (default_to (nat 0) o.headroom_disk_bytes)) range_error
  start ← or_throw (safe_nat range.0) range_error
  end ← or_throw (safe_nat range.1) range_error
  throw_if (ltb end start) range_error
  throw_if
      (ltb budget_vcpus headroom_vcpus
        || ltb budget_memory headroom_memory
        || ltb budget_disk headroom_disk)
      range_error
  limit ← limit_sandboxes ((budget_vcpus - headroom_vcpus) / vcpus_per_sandbox) o.max_sandboxes
  ok (record {
    vcpus_total = budget_vcpus - headroom_vcpus;
    memory_total_mib = budget_memory - headroom_memory;
    disk_total_bytes = budget_disk - headroom_disk;
    port_range = record { start = start; end = end };
    ports_total = end - start;
    sandbox_limit = limit;
    vcpus_committed = 0;
    memory_committed_mib = mib 0;
    disk_committed_bytes = 0;
    allocated_ports = [];
    reservations = [];
  })
