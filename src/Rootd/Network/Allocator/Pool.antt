-- ===== src/Rootd/Network/Allocator/Pool.antt =====
-- `parsePoolPrefix` of src/rootd/network/allocator.ts reads back a written /16.
use studiobox.Common.{
  ℕ, ◌≤◌, ◌≡◌, refl, ◌∙◌, some, true, false, List, [], ◌∷◌, ◌++◌, arith, nat_beq, leb, Bool-cases,
  inl, inr, member, ap,
}
use studiobox.Common.JsNumber.{JsNumber, nat, max_safe_integer}
use studiobox.Common.Decimal.{decimal, all_digits, all_digits-decimal}
use studiobox.Rootd.Network.Allocator.{
  dotted, split, parse_pool_prefix, pool_parts, network_octets, octet_of, octets_of, is_pool_prefix,
  pool_prefix,
}

-- What the code relies on of `Number(text)`: it reads printed numbers back.
abbrev pub ReadsDecimals : (List ℕ → JsNumber) → Type 0
ReadsDecimals to_number = (n : ℕ) → n ≤ max_safe_integer → to_number (decimal n) ≡ nat n

split_first :
    (sep : ℕ) (xs : List ℕ)
    → (part : List ℕ) × (parts : List (List ℕ)) × (split sep xs ≡ part ∷ parts)
unfolding split
split_first sep [] = ([], [], refl)
split_first sep (x ∷ xs) =
    let (part, parts, e) = split_first sep xs in
    elim (Bool-cases (nat_beq x sep)) [
      | inl same ↦ ([], part ∷ parts, rw (e, same) refl)
      | inr other ↦ (x ∷ part, parts, rw (e, other) refl)
    ]

split-append :
    (sep : ℕ) (xs ys : List ℕ)
    → member sep xs ≡ false
    → split sep (xs ++ sep ∷ ys) ≡ xs ∷ split sep ys
unfolding split member
split-append sep [] ys h = let (part, parts, e) = split_first sep ys in rw e (ground arith)
split-append sep (x ∷ xs) ys h = ground (arith, h, split-append sep xs ys)

split_whole : (sep : ℕ) (xs : List ℕ) → member sep xs ≡ false → split sep xs ≡ xs ∷ []
unfolding split member
split_whole sep [] h = refl
split_whole sep (x ∷ xs) h = ground (arith, h, split_whole sep xs)

member-append :
    (sep : ℕ) (xs ys : List ℕ)
    → member sep xs ≡ false
    → member sep ys ≡ false
    → member sep (xs ++ ys) ≡ false
unfolding member
member-append sep [] ys h k = k
member-append sep (x ∷ xs) ys h k = ground (arith, h, k, member-append sep xs ys)

member_digits :
    (sep : ℕ) (xs : List ℕ) → leb b'0' sep ≡ false → all_digits xs ≡ true → member sep xs ≡ false
unfolding member all_digits
member_digits sep [] h k = refl
member_digits sep (x ∷ xs) h k = ground (arith, h, k, member_digits sep xs)

digits_avoid : (sep n : ℕ) → leb b'0' sep ≡ false → member sep (decimal n) ≡ false
digits_avoid sep n h = member_digits sep (decimal n) h (all_digits-decimal n)

pub split-dotted :
    (a b c d : ℕ) → split b'.' (dotted a b c d) ≡ decimal a ∷ decimal b ∷ decimal c ∷ decimal d ∷ []
unfolding dotted
split-dotted a b c d =
    split-append b'.' (decimal a) _ (digits_avoid b'.' a refl)
    ∙ ap (λ r. decimal a ∷ r)
        (split-append b'.' (decimal b) _ (digits_avoid b'.' b refl)
          ∙ ap (λ r. decimal b ∷ r)
              (split-append b'.' (decimal c) _ (digits_avoid b'.' c refl)
                ∙ ap (λ r. decimal c ∷ r)
                    (split_whole b'.' (decimal d) (digits_avoid b'.' d refl))))

dotted_avoids : (a b c d : ℕ) → member b'/' (dotted a b c d) ≡ false
unfolding dotted member
dotted_avoids a b c d =
    let no : (n : ℕ) → member b'/' (decimal n) ≡ false = λ n. digits_avoid b'/' n refl in
    member-append b'/' (decimal a) _ (no a)
      (member-append b'/' (decimal b) _ (no b) (member-append b'/' (decimal c) _ (no c) (no d)))

octet-read :
    (to_number : List ℕ → JsNumber) (n : ℕ)
    → ReadsDecimals to_number
    → n ≤ 255
    → octet_of (to_number (decimal n)) ≡ some n
unfolding octet_of
octet-read to_number n reads h = rw (reads n (omega arith)) (ground (arith, h))

-- A pool written as four octets of at most 255 and `/16` is parsed to its first two octets.
pub parse_pool_prefix-written :
    (to_number : List ℕ → JsNumber) (a b c d : ℕ)
    → ReadsDecimals to_number
    → a ≤ 255
    → b ≤ 255
    → c ≤ 255
    → d ≤ 255
    → parse_pool_prefix to_number (dotted a b c d ++ b'/' ∷ decimal pool_prefix) ≡ some (a, b)
unfolding parse_pool_prefix pool_parts network_octets is_pool_prefix octets_of
parse_pool_prefix-written to_number a b c d reads ha hb hc hd =
    rw
      (
        split-append b'/' (dotted a b c d) (decimal pool_prefix) (dotted_avoids a b c d),
        split_whole b'/' (decimal pool_prefix) (digits_avoid b'/' pool_prefix refl),
        reads pool_prefix (omega arith),
        split-dotted a b c d,
        octet-read to_number a reads ha,
        octet-read to_number b reads hb,
        octet-read to_number c reads hc,
        octet-read to_number d reads hd,
      )
      refl
