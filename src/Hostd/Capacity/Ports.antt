-- ===== src/Hostd/Capacity/Ports.antt =====
-- `#allocatePorts` of src/hostd/capacity.ts and the release of a reservation's ports.
pub mod Allocation
use studiobox.Common.{
  ℕ, zero, suc, ◌+◌, ◌-◌, List, [], ◌∷◌, ◌++◌, nat_beq, member, remove, length, if◌then◌else◌,
}

-- Inclusive start, exclusive end.
pub record PortRange : Type 0 where
  pub start : ℕ
  pub end : ℕ

-- One round for each port of the range that is left; the ports found so far, and the set.
unfoldable pub allocate_loop : ℕ → ℕ → ℕ → List ℕ → List ℕ → List ℕ × List ℕ
allocate_loop zero port n found allocated = (found, allocated)
allocate_loop (suc rounds) port n found allocated =
    let skip = allocate_loop rounds (port + 1) n found allocated in
    let claim = allocate_loop rounds (port + 1) n (found ++ port ∷ []) (port ∷ allocated) in
    if nat_beq (length found) n
    then (found, allocated)
    else if member port allocated
    then skip
    else claim

unfoldable pub allocate_ports : PortRange → ℕ → List ℕ → List ℕ × List ℕ
allocate_ports range n allocated =
    allocate_loop (range.end - range.start) range.start n [] allocated

-- for (const port of held.ports) allocated.delete(port)
unfoldable pub remove_all : List ℕ → List ℕ → List ℕ
remove_all [] allocated = allocated
remove_all (port ∷ ports) allocated = remove_all ports (remove port allocated)
