-- ===== src/Rootd/Network/Allocator.antt =====
-- src/rootd/network/allocator.ts: the lowest-free-slot allocator, and the addresses of a slot.
-- `parsePoolPrefix` splits its text; `Number(text)` of the runtime is the parameter `to_number`.
pub mod Addresses
pub mod Slots
pub mod History
pub mod Rebuild
pub mod Pool
mod Tests
use studiobox.Common.{
  ℕ, zero, suc, ◌+◌, ◌-◌, ◌*◌, ◌/◌, ◌%◌, Option, none, some, Bool, true, false, List, [], ◌∷◌, ◌++◌,
  ltb, leb, nat_beq, if◌then◌else◌,
}
use studiobox.Common.JsNumber.{JsNumber, nat}
use studiobox.Common.Codes.{hex2}
use studiobox.Common.Decimal.{decimal}

abbrev pub subnet_prefix : ℕ
subnet_prefix = 30

abbrev pub pool_prefix : ℕ
pool_prefix = 16

-- 1 << (SUBNET_PREFIX - POOL_PREFIX)
abbrev pub slot_count : ℕ
slot_count = 16_384

abbrev pub tap_name_prefix : List ℕ
tap_name_prefix = b's' ∷ b'b' ∷ b'x' ∷ b't' ∷ b'a' ∷ b'p' ∷ []

pub record SubnetAllocation : Type 0 where
  pub slot : ℕ
  pub tap_name : List ℕ
  pub subnet : List ℕ
  pub host_ip : List ℕ
  pub guest_ip : List ℕ
  pub guest_cidr : List ℕ
  pub guest_mac : List ℕ

pub data Error : Type 0 where
  range_error pool_exhausted : Error

pub data Result {ℓ} (A : Type ℓ) : Type ℓ where
  ok : A → Result A
  err : Error → Result A

unfoldable pub dotted : ℕ → ℕ → ℕ → ℕ → List ℕ
dotted a b c d = decimal a ++ (b'.' ∷ (decimal b ++ (b'.' ∷ (decimal c ++ (b'.' ∷ decimal d)))))

unfoldable pub with_prefix : List ℕ → List ℕ
with_prefix address = address ++ (b'/' ∷ decimal subnet_prefix)

unfoldable pub mac_of : ℕ → ℕ → ℕ → ℕ → List ℕ
mac_of a b c d =
    b'0'
    ∷ b'2'
    ∷ b':'
    ∷ b'0'
    ∷ b'0'
    ∷ b':'
    ∷ (hex2 a ++ (b':' ∷ (hex2 b ++ (b':' ∷ (hex2 c ++ (b':' ∷ hex2 d))))))

-- slot >> 6 and (slot & 63) << 2, for a slot in range
unfoldable pub third_of : ℕ → ℕ
third_of slot = slot / 64

unfoldable pub base_of : ℕ → ℕ
base_of slot = (slot % 64) * 4

unfoldable pub compute_allocation : ℕ → ℕ → ℕ → SubnetAllocation
unfolding dotted with_prefix mac_of third_of base_of
compute_allocation slot octet1 octet2 =
    let third = third_of slot in
    let base4 = base_of slot in
    let host_ip = dotted octet1 octet2 third (base4 + 1) in
    let guest_ip = dotted octet1 octet2 third (base4 + 2) in
    record {
      slot = slot;
      tap_name = tap_name_prefix ++ decimal slot;
      subnet = with_prefix (dotted octet1 octet2 third base4);
      host_ip = host_ip;
      guest_ip = guest_ip;
      guest_cidr = with_prefix guest_ip;
      guest_mac = mac_of octet1 octet2 third (base4 + 2);
    }

-- Number.isInteger(slot) && 0 <= slot < SLOT_COUNT
unfoldable pub valid_slot : JsNumber → Option ℕ
valid_slot (nat n) = if ltb n slot_count then some n else none
valid_slot _ = none

-- text.split(separator)
unfoldable pub split : ℕ → List ℕ → List (List ℕ)
split sep [] = [] ∷ []
split sep (c ∷ cs) = elim (split sep cs) [
  | [] ↦ [] ∷ []
  | part ∷ parts ↦ if nat_beq c sep then [] ∷ part ∷ parts else (c ∷ part) ∷ parts
]

octet_of : JsNumber → Option ℕ
octet_of (nat n) = if leb n 255 then some n else none
octet_of _ = none

-- Every octet is an integer of 0..255; the first two are kept.
octets_of : Option ℕ → Option ℕ → Option ℕ → Option ℕ → Option (ℕ × ℕ)
octets_of (some a) (some b) (some c) (some d) = some (a, b)
octets_of _ _ _ _ = none

module _ (to_number : List ℕ → JsNumber) where
  network_octets : List (List ℕ) → Option (ℕ × ℕ)
  unfolding octets_of octet_of
  network_octets (a ∷ b ∷ c ∷ d ∷ []) =
      octets_of (octet_of (to_number a)) (octet_of (to_number b)) (octet_of (to_number c))
        (octet_of (to_number d))
  network_octets _ = none

  is_pool_prefix : JsNumber → Bool
  is_pool_prefix (nat n) = nat_beq n pool_prefix
  is_pool_prefix _ = false

  pool_parts : List (List ℕ) → Option (ℕ × ℕ)
  unfolding network_octets is_pool_prefix
  pool_parts (network ∷ prefix ∷ []) =
      if is_pool_prefix (to_number prefix) then network_octets (split b'.' network) else none
  pool_parts _ = none

  -- `none` is a RangeError.
  unfoldable pub parse_pool_prefix : List ℕ → Option (ℕ × ℕ)
  unfolding pool_parts split
  parse_pool_prefix pool_cidr = pool_parts (split b'/' pool_cidr)

  unfoldable pub subnet_in : Option ℕ → Option (ℕ × ℕ) → Result SubnetAllocation
  subnet_in none pool = err range_error
  subnet_in (some slot) none = err range_error
  subnet_in (some slot) (some (a, b)) = ok (compute_allocation slot a b)

  unfoldable pub subnet_for_slot : JsNumber → List ℕ → Result SubnetAllocation
  unfolding subnet_in valid_slot parse_pool_prefix
  subnet_for_slot slot pool_cidr = subnet_in (valid_slot slot) (parse_pool_prefix pool_cidr)

-- `BitmapSubnetAllocator`: the array of slots, all reads and writes of which are in range.
pub record SubnetAllocator : Type 0 where
  pub octet1 : ℕ
  pub octet2 : ℕ
  pub used : ℕ → Bool
  pub in_use : ℕ

unfoldable pub create_allocator : ℕ × ℕ → SubnetAllocator
create_allocator (a, b) = record { octet1 = a; octet2 = b; used = λ slot. false; in_use = 0 }

unfoldable pub mark : ℕ → Bool → (ℕ → Bool) → ℕ → Bool
mark slot value used i = if nat_beq i slot then value else used i

-- The loop of `allocate`, from `slot` on.
unfoldable pub scan : ℕ → ℕ → (ℕ → Bool) → Option ℕ
scan zero slot used = none
scan (suc rounds) slot used = elim (used slot) [
  | false ↦ some slot
  | true ↦ scan rounds (slot + 1) used
]

take_slot : SubnetAllocator → Option ℕ → Result (SubnetAllocator × SubnetAllocation)
unfolding mark
take_slot a none = err pool_exhausted
take_slot a (some slot) = ok (
  record a { used = mark slot true a.used; in_use = a.in_use + 1 },
  compute_allocation slot a.octet1 a.octet2,
)

unfoldable pub allocate : SubnetAllocator → Result (SubnetAllocator × SubnetAllocation)
unfolding take_slot
allocate a = take_slot a (scan slot_count 0 a.used)

free_slot : SubnetAllocator → Option ℕ → Result SubnetAllocator
unfolding mark
free_slot a none = err range_error
free_slot a (some slot) =
    ok
      (if a.used slot then record a { used = mark slot false a.used; in_use = a.in_use - 1 } else a)

unfoldable pub release : SubnetAllocator → JsNumber → Result SubnetAllocator
unfolding free_slot valid_slot
release a slot = free_slot a (valid_slot slot)

unfoldable pub reserve_slot : SubnetAllocator → Option ℕ → Result SubnetAllocator
unfolding mark
reserve_slot a none = err range_error
reserve_slot a (some slot) =
    ok (if a.used slot then a else record a { used = mark slot true a.used; in_use = a.in_use + 1 })

unfoldable pub reserve : SubnetAllocator → JsNumber → Result SubnetAllocator
unfolding reserve_slot valid_slot
reserve a slot = reserve_slot a (valid_slot slot)
