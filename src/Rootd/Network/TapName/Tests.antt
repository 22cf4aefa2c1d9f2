-- ===== src/Rootd/Network/TapName/Tests.antt =====
-- Each theorem on TAP names at an input that meets its hypotheses.
use studiobox.Common.{ℕ, ◌≡◌, ◌↔◌, refl, arith, some, List, if◌then◌else◌}
use studiobox.Common.JsNumber.{JsNumber, nat, nan}
use studiobox.Common.Decimal.{all_digits, read, all_digits-decimal, read-decimal}
use studiobox.Rootd.Network.Allocator.{ok, compute_allocation}
use studiobox.Rootd.Network.Allocator.Pool.{ReadsDecimals}
use studiobox.Rootd.Network.TapName.{slot_of_tap_name, rebuild_allocation}
use studiobox.Rootd.Network.TapName.Rebuild.{slot_of_tap_name-compute, rebuild_allocation_exact}

-- A reading of digit texts alone, which has the property the code relies on.
abbrev digits_number : List ℕ → JsNumber
digits_number cs = if all_digits cs then nat (read cs) else nan

digits_number-ReadsDecimals : ReadsDecimals digits_number
digits_number-ReadsDecimals n h = rw (all_digits-decimal n, read-decimal n) refl

slot_of_tap_name-compute_example :
    slot_of_tap_name digits_number (compute_allocation 42 10 77).tap_name ≡ some 42
slot_of_tap_name-compute_example =
    slot_of_tap_name-compute digits_number digits_number-ReadsDecimals 42 10 77 (omega arith)

rebuild_allocation_exact_example :
    (rebuild_allocation digits_number (compute_allocation 42 10 77).tap_name
      ≡ ok (compute_allocation 42 10 77))
    ↔ ((◌≡◌ {A = ℕ} 10 10) × (◌≡◌ {A = ℕ} 77 201))
rebuild_allocation_exact_example =
    rebuild_allocation_exact digits_number digits_number-ReadsDecimals 42 10 77 (omega arith)
