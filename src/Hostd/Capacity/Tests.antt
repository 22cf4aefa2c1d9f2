-- ===== src/Hostd/Capacity/Tests.antt =====
-- Runs of the capacity ledger, and each theorem at an input that meets its hypotheses.
use studiobox.Common.{◌≡◌, refl, ◌↔◌, ◌≢◌, [], ◌∷◌, none, some, arith, string_eq, member}
use studiobox.Common.JsNumber.{nat, nan, safe_nat}
use studiobox.Common.Map.{get}
use studiobox.Api.Memory.{mib, nan_mib, parse_memory}
use studiobox.Api.Memory.Text.{number, text, match_memory}
use studiobox.Api.Memory.Range.{InContract, parse_memory-InContract}
use studiobox.Hostd.Capacity.Ports.{allocate_loop, allocate_ports}
use studiobox.Hostd.Capacity.Create.{no_options, create_ledger}
use studiobox.Hostd.Capacity.Invariant.{Inv, Fits}
use studiobox.Hostd.Capacity.Admission.{FirstOverflow, Reads, reserve_admits, reserve_refuses}
use studiobox.Hostd.Capacity.Grants.{Granted, SameLedger, reserve-Granted, release-reserve}
use studiobox.Hostd.Capacity.History.{
  reserves, releases, run, run-create-Inv, nan_disables_memory_check,
}
use studiobox.Common.Results.{ok, err}
use studiobox.Hostd.Capacity.{
  CapacityLedger, Reservation, ReservationRequest, exhausted, memory, reserve, release, commit,
  admit, requested_ports,
}

abbrev ledger : CapacityLedger
ledger = record {
  vcpus_total = 4;
  memory_total_mib = 7680;
  disk_total_bytes = 64424509440;
  port_range = record { start = 20_000; end = 20_128 };
  ports_total = 128;
  sandbox_limit = 2;
  vcpus_committed = 0;
  memory_committed_mib = mib 0;
  disk_committed_bytes = 0;
  allocated_ports = [];
  reservations = [];
}

ledger_lem : create_ledger no_options ≡ ok ledger
unfolding create_ledger safe_nat
ledger_lem = refl

abbrev one_gib : ReservationRequest
one_gib = record {
  memory = text (b'1' ∷ b'.' ∷ b'5' ∷ b'G' ∷ b'i' ∷ b'B' ∷ []);
  disk_bytes = nat 1024;
  ports = some (nat 2);
}

abbrev nan_request : ReservationRequest
nan_request = record { memory = number nan; disk_bytes = nat 0; ports = none }

one_gib-Reads : Reads one_gib (mib 1536) 1024 2
unfolding parse_memory safe_nat match_memory requested_ports
one_gib-Reads = record { memory = refl; disk = refl; ports = refl }

abbrev first_commit : CapacityLedger × Reservation
first_commit = commit "a" ledger (mib 1536) 1024 2

reserved_ports : first_commit.1.ports ≡ 20_000 ∷ 20_001 ∷ []
unfolding commit allocate_ports allocate_loop member
reserved_ports = refl

one_gib_finite : one_gib.memory ≢ number nan
one_gib_finite e = cc

ledger-Inv : Inv ledger
unfolding run
ledger-Inv = run-create-Inv no_options ledger [] ledger_lem tt

Fits-ledger : Fits ledger 1536 1024 2
Fits-ledger = record {
  vcpu = omega arith;
  memory = omega arith;
  disk = omega arith;
  ports = omega arith;
  sandboxes = omega arith;
}

granted : reserve "a" one_gib ledger ≡ ok first_commit
granted = (reserve_admits "a" ledger one_gib 1536 1024 2 one_gib-Reads ledger-Inv).1 Fits-ledger

reserve_admits_example : (reserve "a" one_gib ledger ≡ ok first_commit) ↔ Fits ledger 1536 1024 2
reserve_admits_example = reserve_admits "a" ledger one_gib 1536 1024 2 one_gib-Reads ledger-Inv

reserve_refuses_example :
    (reserve "a" one_gib ledger ≡ err (exhausted memory)) ↔ FirstOverflow ledger 1536 1024 2 memory
reserve_refuses_example =
    reserve_refuses "a" ledger one_gib 1536 1024 2 one_gib-Reads ledger-Inv memory

reserve-Granted_example : Granted "a" ledger 2 first_commit.0 first_commit.1
unfolding requested_ports safe_nat get
reserve-Granted_example =
    reserve-Granted "a" one_gib ledger first_commit.0 first_commit.1 ledger-Inv one_gib_finite
      granted refl 2 refl

release-reserve_example : SameLedger (release "a" first_commit.0) ledger
unfolding get
release-reserve_example =
    release-reserve "a" one_gib ledger first_commit.0 first_commit.1 ledger-Inv one_gib_finite
      granted refl

run-create-Inv_example : Inv (run ledger (reserves "a" one_gib ∷ releases "b" ∷ []))
unfolding get
run-create-Inv_example =
    run-create-Inv no_options ledger (reserves "a" one_gib ∷ releases "b" ∷ []) ledger_lem
      ((refl, one_gib_finite), (tt, tt))

nan_commit : reserve "n" nan_request ledger ≡ ok (commit "n" ledger nan_mib 0 0)
unfolding reserve parse_memory safe_nat requested_ports admit
nan_commit = refl

nan_disables_memory_check_example :
    reserve "b" one_gib (run (commit "n" ledger nan_mib 0 0).0 (releases "n" ∷ []))
    ≢ err (exhausted memory)
nan_disables_memory_check_example =
    nan_disables_memory_check "n" nan_request ledger _ _ (releases "n" ∷ []) "b" one_gib refl
      nan_commit

parse_memory-InContract_example : InContract (mib 1536)
unfolding parse_memory match_memory
parse_memory-InContract_example =
    parse_memory-InContract one_gib.memory (mib 1536) one_gib_finite refl
