-- ===== src/Transports/Preface/Reading.antt =====
-- The read loop of src/transports/tunnel_preface.ts and src/transports/bridge_preface.ts over a
-- stream that arrives in pieces.
use studiobox.Common.{
  ℕ, zero, suc, ◌-◌, ◌≤◌, ◌<◌, ◌≡◌, refl, sym, ap, ◌∙◌, List, [], ◌∷◌, ◌++◌, arith, min, some,
  length, take, drop,
}
use studiobox.Common.Results.{Result, err, ok}
use studiobox.Transports.Preface.{
  ReadResult, ended, delivered, accept, prepend, read_rounds, read_exactly, preface_error, Error,
}

-- A connection: what is still to come, and the number of reads made. Read `i` gives at most
-- `piece i` bytes.
abbrev pub Connection : Type 0
Connection = List ℕ × ℕ

abbrev pub read_piece : (ℕ → ℕ) → ℕ → Connection → Connection × ReadResult
read_piece piece space ([], i) = (([], suc i), ended)
read_piece piece space (b ∷ bs, i) =
    let n = min space (piece i) in ((drop n (b ∷ bs), suc i), delivered (take n (b ∷ bs)))

take-nil : (n : ℕ) → take {A = ℕ} n [] ≡ []
take-nil zero = refl
take-nil (suc n) = refl

drop-nil : (n : ℕ) → drop {A = ℕ} n [] ≡ []
drop-nil zero = refl
drop-nil (suc n) = refl

length-take : (n : ℕ) (xs : List ℕ) → length (take n xs) ≡ min n (length xs)
length-take zero xs = omega arith
length-take (suc n) [] = omega arith
length-take (suc n) (x ∷ xs) = omega (arith, length-take n xs)

pub length-drop : (n : ℕ) (xs : List ℕ) → length (drop n xs) ≡ length xs - n
length-drop zero xs = omega arith
length-drop (suc n) [] = omega arith
length-drop (suc n) (x ∷ xs) = omega (arith, length-drop n xs)

monus_zero : (k : ℕ) → k - 0 ≡ k
monus_zero k = omega arith

monus_suc : (k n : ℕ) → suc k - suc n ≡ k - n
monus_suc k n = omega arith

take-split : (n k : ℕ) (xs : List ℕ) → n ≤ k → take n xs ++ take (k - n) (drop n xs) ≡ take k xs
take-split zero k xs h = rw (monus_zero k) refl
take-split (suc n) zero xs h = absurd (omega arith)
take-split (suc n) (suc k) [] h = take-nil (suc k - suc n)
take-split (suc n) (suc k) (x ∷ xs) h =
    rw (monus_suc k n) (ap (λ r. x ∷ r) (take-split n k xs (omega arith)))

pub drop-split : (n k : ℕ) (xs : List ℕ) → n ≤ k → drop (k - n) (drop n xs) ≡ drop k xs
drop-split zero k xs h = rw (monus_zero k) refl
drop-split (suc n) zero xs h = absurd (omega arith)
drop-split (suc n) (suc k) [] h = drop-nil (suc k - suc n)
drop-split (suc n) (suc k) (x ∷ xs) h = rw (monus_suc k n) (drop-split n k xs (omega arith))

whole :
    {s s' got all : List ℕ} (j : ℕ)
    → s ≡ s'
    → got ≡ all
    → ◌≡◌ {A = Connection × Result Error (List ℕ)} ((s, j), ok got) ((s', j), ok all)
whole j p q = cc

prepend_err :
    (bytes : List ℕ) (r : Connection × Result Error (List ℕ))
    → r.1 ≡ err preface_error
    → (prepend bytes r).1 ≡ err preface_error
prepend_err bytes (s, err e) h = h
prepend_err bytes (s, ok rest) h = absurd (ground (arith, h))

module _ (piece : ℕ → ℕ) (progress : (i : ℕ) → 0 < piece i) where
  accept_piece :
      (space i b : ℕ) (bs : List ℕ)
      → accept (suc space) (delivered (take (min (suc space) (piece i)) (b ∷ bs)))
        ≡ some (take (min (suc space) (piece i)) (b ∷ bs))
  unfolding accept
  accept_piece space i b bs =
      ground (arith, length-take (min (suc space) (piece i)) (b ∷ bs), progress i)

  least_of : (space i : ℕ) → (n : ℕ) × (min (suc space) (piece i) ≡ n)
  least_of space i = (min (suc space) (piece i), refl)

  read_step :
      (fuel space i b : ℕ) (bs : List ℕ) (n : ℕ)
      → min (suc space) (piece i) ≡ n
      → read_rounds (read_piece piece) (suc fuel) (suc space) (b ∷ bs, i)
        ≡ prepend (take n (b ∷ bs)) (
            read_rounds
              (read_piece piece)
              fuel
              (suc space - length (take n (b ∷ bs)))
              (drop n (b ∷ bs), suc i))
  unfolding read_rounds
  read_step fuel space i b bs n e = rw (sym e) (rw (accept_piece space i b bs, read_rounds) refl)

  read_rounds_prefix :
      (fuel space : ℕ) (stream : List ℕ) (i : ℕ)
      → space ≤ fuel
      → space ≤ length stream
      → (j : ℕ) × (read_rounds (read_piece piece) fuel space (stream, i)
          ≡ ((drop space stream, j), ok (take space stream)))
  unfolding read_rounds
  read_rounds_prefix fuel zero stream i h k = (i, refl)
  read_rounds_prefix zero (suc space) stream i h k = absurd (omega arith)
  read_rounds_prefix (suc fuel) (suc space) [] i h k = absurd (omega arith)
  read_rounds_prefix (suc fuel) (suc space) (b ∷ bs) i h k =
      let (n, least) = least_of space i in
      let got : length (take n (b ∷ bs)) ≡ n = omega (arith, length-take n (b ∷ bs)) in
      let within : n ≤ suc space = omega (arith, least) in
      let (j, e) =
        read_rounds_prefix fuel (suc space - n) (drop n (b ∷ bs)) (suc i)
          (omega (arith, progress i)) (omega (arith, length-drop n (b ∷ bs))) in
      (
        j,
        read_step fuel space i b bs n least
            ∙ ap
                (λ l.
                  prepend (take n (b ∷ bs))
                    (read_rounds (read_piece piece) fuel (suc space - l) (drop n (b ∷ bs), suc i)))
                got
            ∙ ap (prepend (take n (b ∷ bs))) e
            ∙ whole j (drop-split n (suc space) (b ∷ bs) within)
                (take-split n (suc space) (b ∷ bs) within),
      )

  read_rounds_short :
      (fuel space : ℕ) (stream : List ℕ) (i : ℕ)
      → space ≤ fuel
      → length stream < space
      → (read_rounds (read_piece piece) fuel space (stream, i)).1 ≡ err preface_error
  unfolding read_rounds
  read_rounds_short fuel zero stream i h k = absurd (omega arith)
  read_rounds_short zero (suc space) stream i h k = refl
  read_rounds_short (suc fuel) (suc space) [] i h k = refl
  read_rounds_short (suc fuel) (suc space) (b ∷ bs) i h k =
      let (n, least) = least_of space i in
      let l = length (take n (b ∷ bs)) in
      let e =
        read_rounds_short fuel (suc space - l) (drop n (b ∷ bs)) (suc i)
          (omega (arith, progress i, length-take n (b ∷ bs)))
          (omega (arith, length-drop n (b ∷ bs), length-take n (b ∷ bs))) in
      ap (λ r. r.1) (read_step fuel space i b bs n least) ∙ prepend_err (take n (b ∷ bs)) _ e

-- Read `i` gives at least one byte while there is one: then `readExactly` gives the first bytes of
-- the stream, however it is cut into pieces, and takes no byte after them.
pub read_exactly_prefix :
    (piece : ℕ → ℕ) (space : ℕ) (stream : List ℕ) (i : ℕ)
    → ((i : ℕ) → 0 < piece i)
    → space ≤ length stream
    → (j : ℕ) × (read_exactly (read_piece piece) space (stream, i)
        ≡ ((drop space stream, j), ok (take space stream)))
unfolding read_exactly
read_exactly_prefix piece space stream i progress h =
    read_rounds_prefix piece progress space space stream i (omega arith) h

-- A stream that ends before `space` bytes is refused, however it is cut into pieces.
pub read_exactly_short :
    (piece : ℕ → ℕ) (space : ℕ) (stream : List ℕ) (i : ℕ)
    → ((i : ℕ) → 0 < piece i)
    → length stream < space
    → (read_exactly (read_piece piece) space (stream, i)).1 ≡ err preface_error
unfolding read_exactly
read_exactly_short piece space stream i progress h =
    read_rounds_short piece progress space space stream i (omega arith) h
