-- ===== src/Rootd/Supervisor/Reasons.antt =====
-- `truncateReason` of src/rootd/supervisor_core.ts: a reason that the journal takes.
use studiobox.Common.{
  ℕ, zero, suc, ◌+◌, ◌≤◌, ◌<◌, ◌-◌, ◌≡◌, refl, sym, ap, ◌∙◌, length-append, Bool, true, false, [],
  ◌∷◌, ◌++◌, leb, ltb, arith, length, if◌then◌else◌, Bool-cases, inl, inr,
}
use mathlib.Core.List.{append-nil, append_assoc}
use studiobox.State.Model.{Text, codes}
use studiobox.State.Values.{utf8_length, utf8_after, unit_length, is_surrogate}
use studiobox.State.Validation.Valid.{IsText}

abbrev pub max_reason_length : ℕ
max_reason_length = 512

-- text.slice(0, -1)
unfoldable pub drop_last : Text → Text
drop_last [] = []
drop_last (c ∷ []) = []
drop_last (c ∷ d ∷ cs) = c ∷ drop_last (d ∷ cs)

-- The loop that drops code units, for as many rounds as there are.
unfoldable pub shrink : ℕ → Text → Text
unfolding drop_last
shrink zero cs = cs
shrink (suc rounds) cs =
    let next = shrink rounds (drop_last cs) in
    if ltb (max_reason_length - 3) (utf8_length cs) then next else cs

unfoldable pub truncate_reason : Text → Text
unfolding shrink
truncate_reason cs =
    if leb (utf8_length cs) max_reason_length then cs else shrink (length cs) cs ++ codes "..."

length-drop_last : (cs : Text) → length (drop_last cs) ≡ length cs - 1
unfolding drop_last
length-drop_last [] = omega arith
length-drop_last (c ∷ []) = omega arith
length-drop_last (c ∷ d ∷ cs) = omega (arith, length-drop_last (d ∷ cs))

-- The loop ends by its test.
utf8_length-shrink :
    (rounds : ℕ) (cs : Text) → length cs ≤ rounds → utf8_length (shrink rounds cs) ≤ 509
unfolding shrink utf8_length
utf8_length-shrink zero [] h = omega arith
utf8_length-shrink zero (c ∷ cs) h = absurd (omega arith)
utf8_length-shrink (suc rounds) cs h = elim (Bool-cases (ltb 509 (utf8_length cs))) [
  | inl long ↦
      rw long (utf8_length-shrink rounds (drop_last cs) (omega (arith, length-drop_last cs)))
  | inr short ↦ rw short (ground (arith, short))
]

-- What is left is the beginning.
drop_last_prefix : (cs : Text) → (rest : Text) × (cs ≡ drop_last cs ++ rest)
unfolding drop_last
drop_last_prefix [] = ([], refl)
drop_last_prefix (c ∷ []) = (c ∷ [], refl)
drop_last_prefix (c ∷ d ∷ cs) =
    let (rest, e) = drop_last_prefix (d ∷ cs) in (rest, ap (λ (x : Text). c ∷ x) e)

shrink_prefix : (rounds : ℕ) (cs : Text) → (rest : Text) × (cs ≡ shrink rounds cs ++ rest)
unfolding shrink
shrink_prefix zero cs = ([], sym (append-nil cs))
shrink_prefix (suc rounds) cs = elim (Bool-cases (ltb 509 (utf8_length cs))) [
  | inl long ↦
      let (last, e) = drop_last_prefix cs in
      let (rest, e') = shrink_prefix rounds (drop_last cs) in
      rw long (
        rest ++ last,
        e ∙ ap (λ (x : Text). x ++ last) e' ∙ append_assoc (shrink rounds (drop_last cs)) rest last,
      )
  | inr short ↦ rw short ([], sym (append-nil cs))
]

utf8_after-dots :
    (paired : Bool) (cs : Text) → utf8_after paired (cs ++ codes "...") ≡ utf8_after paired cs + 3
unfolding utf8_after is_surrogate unit_length
utf8_after-dots true [] = refl
utf8_after-dots false [] = refl
utf8_after-dots paired (c ∷ cs) = omega (arith, utf8_after-dots (is_surrogate 0xd800 0xdbff c) cs)

utf8_length-dots : (cs : Text) → utf8_length (cs ++ codes "...") ≡ utf8_length cs + 3
unfolding utf8_length
utf8_length-dots cs = utf8_after-dots false cs

-- For every reason that is not empty: what truncateReason returns is a text that the journal takes,
-- of one to 512 bytes. It is the reason itself, if that has at most 512 bytes, and otherwise a
-- beginning of it and three dots.
pub truncate_reason-IsText :
    (cs : Text)
    → 1 ≤ length cs
    → IsText max_reason_length (truncate_reason cs)
      × (utf8_length cs ≤ max_reason_length → truncate_reason cs ≡ cs)
      × (max_reason_length < utf8_length cs
          → (rest : Text) × (start : Text) × (cs ≡ start ++ rest)
            × (truncate_reason cs ≡ start ++ codes "..."))
unfolding truncate_reason
truncate_reason-IsText cs h = elim (Bool-cases (leb (utf8_length cs) 512)) [
  | inl fits ↦
      rw fits (
        (h, ground (arith, fits)),
        (λ small. refl),
        (λ large. absurd (ground (arith, fits, large))),
      )
  | inr long ↦
      let (rest, e) = shrink_prefix (length cs) cs in
      rw long (
        (
          omega (arith, length-append {0} (shrink (length cs) cs) (codes "...")),
          omega (
            arith,
            utf8_length-dots (shrink (length cs) cs),
            utf8_length-shrink (length cs) cs (omega arith),
          ),
        ),
        (λ small. absurd (ground (arith, long, small))),
        (λ large. (rest, shrink (length cs) cs, e, refl)),
      )
]
