-- ===== src/Rootd/Network/Allocator/Addresses.antt =====
-- The addresses of the slots in src/rootd/network/allocator.ts never collide.
use mathlib.Core.List.{append_cancel_left, append_cancel_right}
use studiobox.Common.{ℕ, ◌+◌, ◌<◌, ◌≡◌, ◌≢◌, refl, sym, List, ◌∷◌, ◌++◌, arith}
use studiobox.Common.Codes.{hex2, hex2_injective}
use studiobox.Common.Decimal.{
  decimal, decimal_injective, split_injective, all_digits-decimal, is_digit,
}
use studiobox.Rootd.Network.Allocator.{
  SubnetAllocation, compute_allocation, dotted, mac_of, third_of, base_of, slot_count,
  subnet_prefix, tap_name_prefix,
}

after_octet :
    (a a' : ℕ) (rest rest' : List ℕ)
    → decimal a ++ (b'.' ∷ rest) ≡ decimal a' ++ (b'.' ∷ rest')
    → (a ≡ a') × (rest ≡ rest')
unfolding is_digit
after_octet a a' rest rest' e =
    let (p, q) =
      split_injective b'.' (decimal a) (decimal a') rest rest' refl (all_digits-decimal a)
        (all_digits-decimal a') e in
    (decimal_injective a a' p, q)

-- Dotted addresses are equal only when their octets are.
pub dotted_injective :
    (a b c d a' b' c' d' : ℕ)
    → dotted a b c d ≡ dotted a' b' c' d'
    → (a ≡ a') × (b ≡ b') × (c ≡ c') × (d ≡ d')
unfolding dotted
dotted_injective a b c d a' b' c' d' e =
    let (ea, ra) = after_octet a a' _ _ e in
    let (eb, rb) = after_octet b b' _ _ ra in
    let (ec, rc) = after_octet c c' _ _ rb in (ea, eb, ec, decimal_injective d d' rc)

-- The base of a slot's /30 and the slot determine one another.
slot_of_parts :
    (slot slot' : ℕ) → third_of slot ≡ third_of slot' → base_of slot ≡ base_of slot' → slot ≡ slot'
unfolding third_of base_of
slot_of_parts slot slot' p q = omega arith

base_four : (slot slot' : ℕ) → (base_of slot + 1 ≢ base_of slot' + 2)
unfolding base_of
base_four slot slot' = omega arith

mac_parts :
    (a b c d c' d' : ℕ)
    → c < 256
    → d < 256
    → c' < 256
    → d' < 256
    → mac_of a b c d ≡ mac_of a b c' d'
    → (c ≡ c') × (d ≡ d')
unfolding mac_of hex2
mac_parts a b c d c' d' hc hd hc' hd' e = ground (arith, hex2_injective c c', hex2_injective d d')

-- Two allocations share no device, address, subnet or MAC.
pub record Disjoint (x y : SubnetAllocation) : Type 0 where
  pub tap_name : x.tap_name ≢ y.tap_name
  pub subnet : x.subnet ≢ y.subnet
  pub host_ip : x.host_ip ≢ y.host_ip
  pub guest_ip : x.guest_ip ≢ y.guest_ip
  pub host_guest : x.host_ip ≢ y.guest_ip
  pub guest_host : x.guest_ip ≢ y.host_ip
  pub guest_cidr : x.guest_cidr ≢ y.guest_cidr
  pub guest_mac : x.guest_mac ≢ y.guest_mac

parts_bounded : (slot : ℕ) → slot < slot_count → (third_of slot < 256) × (base_of slot + 2 < 256)
unfolding third_of base_of
parts_bounded slot h = omega arith

module _ (a b slot slot' : ℕ) (other : slot ≢ slot') where
  host_guest_ne :
      (m n : ℕ) → dotted a b (third_of m) (base_of m + 1) ≢ dotted a b (third_of n) (base_of n + 2)
  host_guest_ne m n e = let (_, _, p, q) = dotted_injective a b _ _ a b _ _ e in base_four m n q

  offset_ne :
      (k : ℕ)
      → dotted a b (third_of slot) (base_of slot + k)
        ≢ dotted a b (third_of slot') (base_of slot' + k)
  offset_ne k e =
      let (_, _, p, q) = dotted_injective a b _ _ a b _ _ e in
      other (slot_of_parts slot slot' p (omega (arith, q)))

  network_ne :
      dotted a b (third_of slot) (base_of slot) ≢ dotted a b (third_of slot') (base_of slot')
  network_ne e =
      let (_, _, p, q) = dotted_injective a b _ _ a b _ _ e in other (slot_of_parts slot slot' p q)

  -- Two different slots in range of one pool share no device name, address, subnet or MAC.
  pub allocation-Disjoint :
      slot < slot_count
      → slot' < slot_count
      → Disjoint (compute_allocation slot a b) (compute_allocation slot' a b)
  unfolding compute_allocation
  allocation-Disjoint h h' = record {
    tap_name = λ e. other (decimal_injective slot slot' (append_cancel_left tap_name_prefix _ _ e));
    subnet = λ e. network_ne (append_cancel_right _ _ (b'/' ∷ decimal subnet_prefix) e);
    host_ip = λ e. offset_ne 1 e;
    guest_ip = λ e. offset_ne 2 e;
    host_guest = λ e. host_guest_ne slot slot' e;
    guest_host = λ e. host_guest_ne slot' slot (sym e);
    guest_cidr = λ e. offset_ne 2 (append_cancel_right _ _ (b'/' ∷ decimal subnet_prefix) e);
    guest_mac = λ e.
        let (hc, hd) = parts_bounded slot h in
        let (hc', hd') = parts_bounded slot' h' in
        let (p, q) = mac_parts a b _ _ _ _ hc hd hc' hd' e in
        other (slot_of_parts slot slot' p (omega (arith, q)));
  }
