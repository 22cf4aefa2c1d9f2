-- ===== src/Transports/Preface/Frames.antt =====
-- The frames of src/transports/tunnel_preface.ts and src/transports/bridge_preface.ts: decoding
-- undoes encoding, and accepts nothing but what encoding gives.
use studiobox.Common.{
  ℕ, suc, ◌+◌, ◌*◌, ◌/◌, ◌%◌, ◌≤◌, ◌<◌, ◌≡◌, refl, sym, ap, subst, zero, ◌∙◌, true, List, [], ◌∷◌,
  ◌++◌, arith, nat_beq, length, take, drop, member, beq_refl, length-append, not,
}
use studiobox.Common.Results.{ok, throw_if, >>=-eq-ok}
use studiobox.Common.Codes.{codes_eq, codes_beq_iff}
use studiobox.Transports.Preface.Reading.{drop-split, length-drop}
use studiobox.Transports.Preface.{
  encode_request, decode_request, encode_response, decode_response, get_uint16, secret_bytes,
  range_error,
}

pub take-magic : (magic rest : List ℕ) → take (length magic) (magic ++ rest) ≡ magic
take-magic [] rest = refl
take-magic (x ∷ xs) rest = ap (λ r. x ∷ r) (take-magic xs rest)

pub drop-magic : (magic rest : List ℕ) → drop (length magic) (magic ++ rest) ≡ rest
drop-magic [] rest = refl
drop-magic (x ∷ xs) rest = drop-magic xs rest

-- What the decoders look at.
record Parts (magic frame rest : List ℕ) : Type 0 where
  first : take 8 frame ≡ magic
  after_eight : drop 8 frame ≡ rest
  after_ten : drop 10 frame ≡ drop 2 rest
  after_twelve : drop 12 frame ≡ drop 4 rest
  size : length frame ≡ 8 + length rest

append-Parts : (magic rest : List ℕ) → length magic ≡ 8 → Parts magic (magic ++ rest) rest
append-Parts magic rest eight =
    let after : drop 8 (magic ++ rest) ≡ rest =
      ap (λ n. drop n (magic ++ rest)) (sym eight) ∙ drop-magic magic rest in
    record {
      first = ap (λ n. take n (magic ++ rest)) (sym eight) ∙ take-magic magic rest;
      after_eight = after;
      after_ten = sym (drop-split 8 10 (magic ++ rest) (omega arith)) ∙ ap (drop 2) after;
      after_twelve = sym (drop-split 8 12 (magic ++ rest) (omega arith)) ∙ ap (drop 4) after;
      size = omega (arith, length-append magic rest, eight);
    }

encode_request_lem :
    (magic secret frame : List ℕ)
    → encode_request magic secret ≡ ok frame
    → (length secret ≡ 32) × (magic ++ 0 ∷ 1 ∷ 0 ∷ 0 ∷ secret ≡ frame)
unfolding encode_request
encode_request_lem magic secret frame h =
    let (_, sized, e) =
      >>=-eq-ok (throw_if (not (nat_beq (length secret) secret_bytes)) range_error) _ h in
    (ground (arith, sized), ground (arith, e))

decode_request_lem :
    (magic secret frame : List ℕ)
    → length secret ≡ 32
    → Parts magic frame (0 ∷ 1 ∷ 0 ∷ 0 ∷ secret)
    → decode_request magic frame ≡ ok secret
unfolding decode_request
decode_request_lem magic secret frame sized p =
    let long : nat_beq (length frame) 44 ≡ true = ground (arith, p.size, sized) in
    rw (long, p.first, beq_refl magic, p.after_eight, p.after_ten, p.after_twelve) refl

encode_sized :
    (magic secret : List ℕ)
    → length secret ≡ 32
    → encode_request magic secret ≡ ok (magic ++ 0 ∷ 1 ∷ 0 ∷ 0 ∷ secret)
unfolding encode_request
encode_sized magic secret sized = rw sized refl

-- A request encoded under a magic of eight bytes is decoded to the same secret.
pub decode-encode_request :
    (magic secret frame : List ℕ)
    → length magic ≡ 8
    → encode_request magic secret ≡ ok frame
    → decode_request magic frame ≡ ok secret
decode-encode_request magic secret frame eight h =
    let (sized, e) = encode_request_lem magic secret frame h in
    subst (λ f. decode_request magic f ≡ ok secret) e
      (decode_request_lem magic secret (magic ++ 0 ∷ 1 ∷ 0 ∷ 0 ∷ secret) sized
        (append-Parts magic (0 ∷ 1 ∷ 0 ∷ 0 ∷ secret) eight))

append-take : (n : ℕ) (xs : List ℕ) → take n xs ++ drop n xs ≡ xs
append-take zero xs = refl
append-take (suc n) [] = refl
append-take (suc n) (x ∷ xs) = ap (λ r. x ∷ r) (append-take n xs)

decoded_request :
    (magic frame secret : List ℕ)
    → decode_request magic frame ≡ ok secret
    → (length frame ≡ 44)
      × (take 8 frame ≡ magic)
      × (get_uint16 (drop 8 frame) ≡ 1)
      × (get_uint16 (drop 10 frame) ≡ 0)
      × (drop 12 frame ≡ secret)
unfolding decode_request
decoded_request magic frame secret h = ground (arith, codes_beq_iff (take 8 frame) magic)

header_lem :
    (xs : List ℕ)
    → 4 ≤ length xs
    → get_uint16 xs ≡ 1
    → get_uint16 (drop 2 xs) ≡ 0
    → xs ≡ 0 ∷ 1 ∷ 0 ∷ 0 ∷ drop 4 xs
header_lem (a ∷ b ∷ c ∷ d ∷ xs) h p q =
    let (a0, b1) : (a ≡ 0) × (b ≡ 1) = (omega arith, omega arith) in
    let (c0, d0) : (c ≡ 0) × (d ≡ 0) = (omega arith, omega arith) in cc
header_lem _ h p q = absurd (omega arith)

-- A frame that decodes as a request is the one encoding of the secret it decodes to: no other
-- header, no padding and no other length is accepted.
pub encode-decode_request :
    (magic frame secret : List ℕ)
    → decode_request magic frame ≡ ok secret
    → encode_request magic secret ≡ ok frame
encode-decode_request magic frame secret h =
    let (sized, first, version, flags, found) = decoded_request magic frame secret h in
    let rest = drop 8 frame in
    let ten : drop 2 rest ≡ drop 10 frame = drop-split 8 10 frame (omega arith) in
    let twelve : drop 4 rest ≡ secret = drop-split 8 12 frame (omega arith) ∙ found in
    let header =
      header_lem rest (omega (arith, length-drop 8 frame, sized)) version
        (ap get_uint16 ten ∙ flags) in
    let whole : magic ++ 0 ∷ 1 ∷ 0 ∷ 0 ∷ secret ≡ frame =
      ap (λ s. magic ++ 0 ∷ 1 ∷ 0 ∷ 0 ∷ s) (sym twelve)
      ∙ ap (λ r. magic ++ r) (sym header)
      ∙ ap (λ m. m ++ rest) (sym first)
      ∙ append-take 8 frame in
    let secret_size : length secret ≡ 32 =
      ap length (sym found) ∙ (length-drop 12 frame ∙ omega (arith, sized)) in
    encode_sized magic secret secret_size ∙ ap ok whole

abbrev status_bytes : ℕ → List ℕ
status_bytes status = status / 256 % 256 ∷ status % 256 ∷ 0 ∷ 0 ∷ []

encode_response_lem :
    (magic known : List ℕ) (status : ℕ) (frame : List ℕ)
    → encode_response magic known status ≡ ok frame
    → (member status known ≡ true) × (magic ++ status_bytes status ≡ frame)
unfolding encode_response
encode_response_lem magic known status frame h =
    let (_, listed, e) = >>=-eq-ok (throw_if (not (member status known)) range_error) _ h in
    (ground (arith, listed), ground (arith, e))

decode_response_lem :
    (magic known : List ℕ) (status : ℕ) (frame : List ℕ)
    → member status known ≡ true
    → status < 65_536
    → Parts magic frame (status_bytes status)
    → decode_response magic known frame ≡ ok status
unfolding decode_response
decode_response_lem magic known status frame listed small p =
    let long : nat_beq (length frame) 12 ≡ true = ground (arith, p.size) in
    let value : status / 256 % 256 * 256 + status % 256 ≡ status = omega arith in
    rw (long, p.first, beq_refl magic, p.after_eight, p.after_ten, value, listed) refl

-- Every known status below 65536 is sent and read back, under a magic of eight bytes.
pub decode-encode_response :
    (magic known : List ℕ) (status : ℕ) (frame : List ℕ)
    → length magic ≡ 8
    → status < 65_536
    → encode_response magic known status ≡ ok frame
    → decode_response magic known frame ≡ ok status
decode-encode_response magic known status frame eight small h =
    let (listed, e) = encode_response_lem magic known status frame h in
    subst (λ f. decode_response magic known f ≡ ok status) e
      (decode_response_lem magic known status (magic ++ status_bytes status) listed small
        (append-Parts magic (status_bytes status) eight))

pub encode_request-size :
    (magic secret frame : List ℕ)
    → length magic ≡ 8
    → encode_request magic secret ≡ ok frame
    → length frame ≡ 44
encode_request-size magic secret frame eight h =
    let (sized, e) = encode_request_lem magic secret frame h in
    ap length (sym e) ∙ (length-append magic (0 ∷ 1 ∷ 0 ∷ 0 ∷ secret) ∙ omega (arith, eight, sized))

-- What is encoded as a response is one of the known statuses.
pub encoded_status :
    (magic known : List ℕ) (status : ℕ) (frame : List ℕ)
    → encode_response magic known status ≡ ok frame
    → member status known ≡ true
encoded_status magic known status frame h = (encode_response_lem magic known status frame h).0
