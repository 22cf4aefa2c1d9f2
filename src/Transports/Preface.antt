-- ===== src/Transports/Preface.antt =====
-- The fixed frames that src/transports/tunnel_preface.ts and src/transports/bridge_preface.ts share:
-- a request is a magic, a version, flags and 32 secret bytes, a response a magic, a status and two
-- reserved bytes; and the loop that reads a frame. Bytes are lists of numbers.
pub mod Frames
pub mod Reading
use studiobox.Common.{
  ℕ, zero, suc, ◌+◌, ◌-◌, ◌*◌, ◌/◌, ◌%◌, Bool, true, false, List, [], ◌∷◌, ◌++◌, ltb, leb, nat_beq,
  Option, none, some, ◌&&◌, if◌then◌else◌, length, take, drop, member, ◌==◌, not, ◌||◌,
}
use studiobox.Common.Results.{Result, err, ok, ◌>>=◌, ◌>>◌, throw_if}
use studiobox.Common.Codes.{codes_eq}

-- `preface_error` is TunnelPrefaceError or BridgePrefaceError.
pub data Error : Type 0 where
  range_error preface_error : Error

abbrev pub secret_bytes : ℕ
secret_bytes = 32

abbrev pub request_bytes : ℕ
request_bytes = 44

abbrev pub response_bytes : ℕ
response_bytes = 12

abbrev pub protocol_version : ℕ
protocol_version = 1

-- DataView.setUint16 and getUint16, big-endian
abbrev pub uint16 : ℕ → List ℕ
uint16 n = n / 256 % 256 ∷ n % 256 ∷ []

abbrev pub get_uint16 : List ℕ → ℕ
get_uint16 (high ∷ low ∷ bytes) = high * 256 + low
get_uint16 _ = 0

unfoldable pub encode_request : List ℕ → List ℕ → Result Error (List ℕ)
encode_request magic secret = do
  throw_if (not (nat_beq (length secret) secret_bytes)) range_error
  ok (magic ++ (uint16 protocol_version ++ (uint16 0 ++ secret)))

unfoldable pub decode_request : List ℕ → List ℕ → Result Error (List ℕ)
decode_request magic input = do
  throw_if (not (nat_beq (length input) request_bytes)) preface_error
  throw_if (not (take 8 input == magic)) preface_error
  throw_if (not (nat_beq (get_uint16 (drop 8 input)) protocol_version)) preface_error
  throw_if (not (nat_beq (get_uint16 (drop 10 input)) 0)) preface_error
  ok (drop 12 input)

unfoldable pub encode_response : List ℕ → List ℕ → ℕ → Result Error (List ℕ)
encode_response magic known status = do
  throw_if (not (member status known)) range_error
  ok (magic ++ (uint16 status ++ uint16 0))

unfoldable pub decode_response : List ℕ → List ℕ → List ℕ → Result Error ℕ
decode_response magic known input = do
  throw_if (not (nat_beq (length input) response_bytes)) preface_error
  throw_if (not (take 8 input == magic)) preface_error
  throw_if (not (nat_beq (get_uint16 (drop 10 input)) 0)) preface_error
  throw_if (not (member (get_uint16 (drop 8 input)) known)) preface_error
  ok (get_uint16 (drop 8 input))

-- What one call of `reader.read` gives: the end (`null`), the bytes that it wrote and counted, or a
-- count that is not a natural number.
pub data ReadResult : Type 0 where
  ended : ReadResult
  delivered : List ℕ → ReadResult
  miscounted : ReadResult

unfoldable pub accept : ℕ → ReadResult → Option (List ℕ)
accept space ended = none
accept space miscounted = none
accept space (delivered bytes) =
    if ltb 0 (length bytes) && leb (length bytes) space then some bytes else none

abbrev pub prepend {ℓ} :
    {S : Type ℓ} → List ℕ → S × Result Error (List ℕ) → S × Result Error (List ℕ)
prepend bytes (s, err e) = (s, err e)
prepend bytes (s, ok rest) = (s, ok (bytes ++ rest))

-- The loop of `readExactly` while `space` places are left, over a reader with a state. Each round
-- that goes on fills at least one place, so `space` rounds are enough.
module _ {ℓ} {S : Type ℓ} (read : ℕ → S → S × ReadResult) where
  unfoldable pub read_rounds : ℕ → ℕ → S → S × Result Error (List ℕ)
  unfolding accept
  read_rounds fuel zero s = (s, ok [])
  read_rounds zero (suc space) s = (s, err preface_error)
  read_rounds (suc fuel) (suc space) s = elim (accept (suc space) (read (suc space) s).1) [
    | none ↦ ((read (suc space) s).0, err preface_error)
    | some bytes ↦
        prepend bytes (read_rounds fuel (suc space - length bytes) (read (suc space) s).0)
  ]

  unfoldable pub read_exactly : ℕ → S → S × Result Error (List ℕ)
  unfolding read_rounds
  read_exactly space s = read_rounds space space s

  abbrev pub decode_read {κ} :
      {A : Type κ} → (List ℕ → Result Error A) → S × Result Error (List ℕ) → S × Result Error A
  decode_read decode (s, r) = (s, r >>= decode)
