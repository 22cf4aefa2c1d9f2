-- ===== src/Common/Codes.antt =====
-- Texts and byte strings as lists of numbers, and the hexadecimal rendering of a byte.
use Prim.Native.Nat.{ℕ, ◌+◌, ◌/◌, ◌%◌, ◌<◌}
use mathlib.Core.Path.{◌≡◌, refl}
use mathlib.Core.Logic.{◌↔◌}
use mathlib.Core.Bool.{Bool, true, false}
use mathlib.Core.List.{List, [], ◌∷◌, ◌++◌}
use native.Mathlib.Omega.{arith}
use studiobox.Common.Tests.{Eq, ltb, nat_beq, if◌then◌else◌}

unfoldable pub codes_beq : List ℕ → List ℕ → Bool
codes_beq [] [] = true
codes_beq (a ∷ as') (b ∷ bs) = if nat_beq a b then codes_beq as' bs else false
codes_beq _ _ = false

codes_beq_sound : (as' bs : List ℕ) → codes_beq as' bs ≡ true → as' ≡ bs
unfolding codes_beq
codes_beq_sound [] [] h = refl
codes_beq_sound [] (b ∷ bs) h = cc
codes_beq_sound (a ∷ as') [] h = cc
codes_beq_sound (a ∷ as') (b ∷ bs) h = ground (arith, codes_beq_sound as' bs)

codes_beq_refl : (as' : List ℕ) → codes_beq as' as' ≡ true
unfolding codes_beq
codes_beq_refl [] = refl
codes_beq_refl (a ∷ as') = ground (arith, codes_beq_refl as')

pub codes_beq_iff : (as' bs : List ℕ) → (codes_beq as' bs ≡ true) ↔ (as' ≡ bs)
codes_beq_iff as' bs = (codes_beq_sound as' bs, λ e. rw e (codes_beq_refl bs))

instance abbrev pub codes_eq : Eq (List ℕ)
codes_eq = record { same = codes_beq; same_iff = codes_beq_iff }

-- One lowercase hexadecimal digit.
unfoldable pub hex_digit : ℕ → ℕ
hex_digit n = if ltb n 10 then b'0' + n else 87 + n

-- byte.toString(16).padStart(2, "0"), for a byte
unfoldable pub hex2 : ℕ → List ℕ
unfolding hex_digit
hex2 byte = hex_digit (byte / 16) ∷ hex_digit (byte % 16) ∷ []

-- Array.from(bytes, hex2).join("")
unfoldable pub hex : List ℕ → List ℕ
unfolding hex2
hex [] = []
hex (byte ∷ bytes) = hex2 byte ++ hex bytes

abbrev pub AreBytes : List ℕ → Type 0
AreBytes [] = Unit {0}
AreBytes (b ∷ bs) = (b < 256) × AreBytes bs

hex_digit_injective : (m n : ℕ) → m < 16 → n < 16 → hex_digit m ≡ hex_digit n → m ≡ n
unfolding hex_digit
hex_digit_injective m n hm hn e = ground arith

-- Different byte strings have different renderings.
pub hex_injective : (as' bs : List ℕ) → AreBytes as' → AreBytes bs → hex as' ≡ hex bs → as' ≡ bs
unfolding hex
hex_injective [] [] p q e = refl
hex_injective [] (b ∷ bs) p q e = cc
hex_injective (a ∷ as') [] p q e = cc
hex_injective (a ∷ as') (b ∷ bs) p q e = ground (
  arith,
  hex_digit_injective (a / 16) (b / 16),
  hex_digit_injective (a % 16) (b % 16),
  hex_injective as' bs p.1 q.1,
)

pub hex2_injective : (m n : ℕ) → m < 256 → n < 256 → hex2 m ≡ hex2 n → m ≡ n
unfolding hex2
hex2_injective m n hm hn e =
    ground (arith, hex_digit_injective (m / 16) (n / 16), hex_digit_injective (m % 16) (n % 16))
