-- ===== src/Transports/TunnelPreface.antt =====
-- src/transports/tunnel_preface.ts: the frames of the outer hop, from the client to the host daemon.
mod Tests
use studiobox.Common.{
  ℕ, member, ◌+◌, ◌≤◌, ◌<◌, ◌≡◌, ◌↔◌, refl, sym, ap, ◌∙◌, List, [], ◌∷◌, ◌++◌, length, take, drop,
  arith, length-append, subst,
}
use studiobox.Common.Results.{Result, ok, ◌>>=◌}
use studiobox.Transports.Preface.{
  Error, ReadResult, encode_request, decode_request, encode_response, decode_response, read_exactly,
  decode_read, request_bytes, response_bytes,
}
use studiobox.Transports.Preface.Frames.{
  decode-encode_request, encode-decode_request, encode_request-size, encoded_status,
  decode-encode_response, take-magic, drop-magic,
}
use studiobox.Transports.Preface.Reading.{Connection, read_piece, read_exactly_prefix}

abbrev pub tunnel_request_magic : List ℕ
tunnel_request_magic = b'S' ∷ b'B' ∷ b'X' ∷ b'T' ∷ b'U' ∷ b'N' ∷ b'1' ∷ 0 ∷ []

abbrev pub tunnel_response_magic : List ℕ
tunnel_response_magic = b'S' ∷ b'B' ∷ b'X' ∷ b'A' ∷ b'C' ∷ b'K' ∷ b'1' ∷ 0 ∷ []

-- The values of `TunnelStatus`.
abbrev pub tunnel_statuses : List ℕ
tunnel_statuses = 0 ∷ 1 ∷ 2 ∷ 3 ∷ 4 ∷ 5 ∷ 255 ∷ []

unfoldable pub encode_tunnel_request : List ℕ → Result Error (List ℕ)
encode_tunnel_request ticket = encode_request tunnel_request_magic ticket

unfoldable pub decode_tunnel_request : List ℕ → Result Error (List ℕ)
decode_tunnel_request input = decode_request tunnel_request_magic input

unfoldable pub encode_tunnel_response : ℕ → Result Error (List ℕ)
encode_tunnel_response status = encode_response tunnel_response_magic tunnel_statuses status

unfoldable pub decode_tunnel_response : List ℕ → Result Error ℕ
decode_tunnel_response input = decode_response tunnel_response_magic tunnel_statuses input

module _ {S : Type 0} (read : ℕ → S → S × ReadResult) where
  unfoldable pub read_tunnel_request : S → S × Result Error (List ℕ)
  unfolding decode_tunnel_request
  read_tunnel_request s = decode_read read decode_tunnel_request (read_exactly read request_bytes s)

  unfoldable pub read_tunnel_response : S → S × Result Error ℕ
  unfolding decode_tunnel_response
  read_tunnel_response s =
      decode_read read decode_tunnel_response (read_exactly read response_bytes s)

tunnel_received :
    (piece : ℕ → ℕ) (j : ℕ) (got pipelined frame ticket : List ℕ)
    → decode_tunnel_request frame ≡ ok ticket
    → got ≡ frame
    → decode_read (read_piece piece) decode_tunnel_request ((pipelined, j), ok got)
      ≡ ((pipelined, j), ok ticket)
tunnel_received piece j got pipelined frame ticket h e = cc

-- A request that was encoded and is followed by other bytes is read back whole and decoded, however
-- the connection cuts it into pieces, and the other bytes stay in the connection.
pub read-encode_tunnel_request :
    (piece : ℕ → ℕ) (ticket frame pipelined : List ℕ)
    → ((i : ℕ) → 0 < piece i)
    → encode_tunnel_request ticket ≡ ok frame
    → (j : ℕ) × (read_tunnel_request (read_piece piece) (frame ++ pipelined, 0)
        ≡ ((pipelined, j), ok ticket))
unfolding encode_tunnel_request read_tunnel_request decode_tunnel_request
read-encode_tunnel_request piece ticket frame pipelined progress h =
    let size = encode_request-size tunnel_request_magic ticket frame refl h in
    let (j, e) =
      read_exactly_prefix (piece) request_bytes (frame ++ pipelined) 0 progress
        (omega (arith, length-append frame pipelined, size)) in
    let rest : drop 44 (frame ++ pipelined) ≡ pipelined =
      ap (λ n. drop n (frame ++ pipelined)) (sym size) ∙ drop-magic frame pipelined in
    let got : take 44 (frame ++ pipelined) ≡ frame =
      ap (λ n. take n (frame ++ pipelined)) (sym size) ∙ take-magic frame pipelined in
    (
      j,
      ap (decode_read (read_piece piece) decode_tunnel_request) e
          ∙ ap
              (λ s.
                decode_read (read_piece piece) decode_tunnel_request
                  ((s, j), ok (take 44 (frame ++ pipelined))))
              rest
          ∙ tunnel_received piece j (take 44 (frame ++ pipelined)) pipelined frame ticket
              (decode-encode_request tunnel_request_magic ticket frame refl h) got,
    )

-- A frame is accepted as a request exactly when it is the encoding of the secret it is decoded to.
pub decode_tunnel_request_exact :
    (frame ticket : List ℕ)
    → (decode_tunnel_request frame ≡ ok ticket) ↔ (encode_tunnel_request ticket ≡ ok frame)
unfolding encode_tunnel_request decode_tunnel_request
decode_tunnel_request_exact frame ticket = (
  encode-decode_request tunnel_request_magic frame ticket,
  decode-encode_request tunnel_request_magic ticket frame refl,
)

-- Each status is sent and read back.
pub decode-encode_tunnel_response :
    (status : ℕ) (frame : List ℕ)
    → encode_tunnel_response status ≡ ok frame
    → decode_tunnel_response frame ≡ ok status
unfolding encode_tunnel_response decode_tunnel_response member
decode-encode_tunnel_response status frame h =
    decode-encode_response tunnel_response_magic tunnel_statuses status frame refl
      (ground (arith, encoded_status tunnel_response_magic tunnel_statuses status frame h)) h
