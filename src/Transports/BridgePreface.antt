-- ===== src/Transports/BridgePreface.antt =====
-- src/transports/bridge_preface.ts: the frames of the inner hop, from the host daemon to the root daemon.
mod Tests
use studiobox.Common.{
  ℕ, member, ◌+◌, ◌≤◌, ◌<◌, ◌≡◌, ◌↔◌, refl, sym, ap, ◌∙◌, List, [], ◌∷◌, ◌++◌, length, take, drop,
  arith, length-append, subst,
}
use studiobox.Common.Results.{Result, ok, ◌>>=◌}
use studiobox.Transports.Preface.{
  Error, ReadResult, encode_request, decode_request, encode_response, decode_response, read_exactly,
  decode_read, request_bytes, response_bytes,
}
use studiobox.Transports.Preface.Frames.{
  decode-encode_request, encode-decode_request, encode_request-size, encoded_status,
  decode-encode_response, take-magic, drop-magic,
}
use studiobox.Transports.Preface.Reading.{Connection, read_piece, read_exactly_prefix}

abbrev pub bridge_request_magic : List ℕ
bridge_request_magic = b'S' ∷ b'B' ∷ b'X' ∷ b'B' ∷ b'R' ∷ b'G' ∷ b'1' ∷ 0 ∷ []

abbrev pub bridge_response_magic : List ℕ
bridge_response_magic = b'S' ∷ b'B' ∷ b'X' ∷ b'B' ∷ b'R' ∷ b'A' ∷ b'1' ∷ 0 ∷ []

-- The values of `BridgeStatus`.
abbrev pub bridge_statuses : List ℕ
bridge_statuses = 0 ∷ 1 ∷ 2 ∷ 3 ∷ 255 ∷ []

unfoldable pub encode_bridge_request : List ℕ → Result Error (List ℕ)
encode_bridge_request credential = encode_request bridge_request_magic credential

unfoldable pub decode_bridge_request : List ℕ → Result Error (List ℕ)
decode_bridge_request input = decode_request bridge_request_magic input

unfoldable pub encode_bridge_response : ℕ → Result Error (List ℕ)
encode_bridge_response status = encode_response bridge_response_magic bridge_statuses status

unfoldable pub decode_bridge_response : List ℕ → Result Error ℕ
decode_bridge_response input = decode_response bridge_response_magic bridge_statuses input

module _ {S : Type 0} (read : ℕ → S → S × ReadResult) where
  unfoldable pub read_bridge_request : S → S × Result Error (List ℕ)
  unfolding decode_bridge_request
  read_bridge_request s = decode_read read decode_bridge_request (read_exactly read request_bytes s)

  unfoldable pub read_bridge_response : S → S × Result Error ℕ
  unfolding decode_bridge_response
  read_bridge_response s =
      decode_read read decode_bridge_response (read_exactly read response_bytes s)

bridge_received :
    (piece : ℕ → ℕ) (j : ℕ) (got pipelined frame credential : List ℕ)
    → decode_bridge_request frame ≡ ok credential
    → got ≡ frame
    → decode_read (read_piece piece) decode_bridge_request ((pipelined, j), ok got)
      ≡ ((pipelined, j), ok credential)
bridge_received piece j got pipelined frame credential h e = cc

-- A request that was encoded and is followed by other bytes is read back whole and decoded, however
-- the connection cuts it into pieces, and the other bytes stay in the connection.
pub read-encode_bridge_request :
    (piece : ℕ → ℕ) (credential frame pipelined : List ℕ)
    → ((i : ℕ) → 0 < piece i)
    → encode_bridge_request credential ≡ ok frame
    → (j : ℕ) × (read_bridge_request (read_piece piece) (frame ++ pipelined, 0)
        ≡ ((pipelined, j), ok credential))
unfolding encode_bridge_request read_bridge_request decode_bridge_request
read-encode_bridge_request piece credential frame pipelined progress h =
    let size = encode_request-size bridge_request_magic credential frame refl h in
    let (j, e) =
      read_exactly_prefix (piece) request_bytes (frame ++ pipelined) 0 progress
        (omega (arith, length-append frame pipelined, size)) in
    let rest : drop 44 (frame ++ pipelined) ≡ pipelined =
      ap (λ n. drop n (frame ++ pipelined)) (sym size) ∙ drop-magic frame pipelined in
    let got : take 44 (frame ++ pipelined) ≡ frame =
      ap (λ n. take n (frame ++ pipelined)) (sym size) ∙ take-magic frame pipelined in
    (
      j,
      ap (decode_read (read_piece piece) decode_bridge_request) e
          ∙ ap
              (λ s.
                decode_read (read_piece piece) decode_bridge_request
                  ((s, j), ok (take 44 (frame ++ pipelined))))
              rest
          ∙ bridge_received piece j (take 44 (frame ++ pipelined)) pipelined frame credential
              (decode-encode_request bridge_request_magic credential frame refl h) got,
    )

-- A frame is accepted as a request exactly when it is the encoding of the secret it is decoded to.
pub decode_bridge_request_exact :
    (frame credential : List ℕ)
    → (decode_bridge_request frame ≡ ok credential) ↔ (encode_bridge_request credential ≡ ok frame)
unfolding encode_bridge_request decode_bridge_request
decode_bridge_request_exact frame credential = (
  encode-decode_request bridge_request_magic frame credential,
  decode-encode_request bridge_request_magic credential frame refl,
)

-- Each status is sent and read back.
pub decode-encode_bridge_response :
    (status : ℕ) (frame : List ℕ)
    → encode_bridge_response status ≡ ok frame
    → decode_bridge_response frame ≡ ok status
unfolding encode_bridge_response decode_bridge_response member
decode-encode_bridge_response status frame h =
    decode-encode_response bridge_response_magic bridge_statuses status frame refl
      (ground (arith, encoded_status bridge_response_magic bridge_statuses status frame h)) h
