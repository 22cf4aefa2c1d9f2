-- ===== src/Transports/TunnelPreface/Tests.antt =====
-- Each theorem on the tunnel frames at an input that meets its hypotheses.
use studiobox.Common.{ℕ, ◌≡◌, ◌↔◌, refl, List, [], ◌∷◌, ◌++◌, replicate, arith, member}
use studiobox.Common.Results.{ok}
use studiobox.Transports.Preface.{encode_request, encode_response}
use studiobox.Transports.Preface.Reading.{read_piece}
use studiobox.Transports.TunnelPreface.{
  tunnel_request_magic, tunnel_response_magic, encode_tunnel_request, decode_tunnel_request,
  encode_tunnel_response, read_tunnel_request, read-encode_tunnel_request,
  decode_tunnel_request_exact,
}

abbrev ticket : List ℕ
ticket = replicate 32 171

abbrev tunnel_frame : List ℕ
tunnel_frame = tunnel_request_magic ++ 0 ∷ 1 ∷ 0 ∷ 0 ∷ ticket

tunnel_frame_lem : encode_tunnel_request ticket ≡ ok tunnel_frame
unfolding encode_tunnel_request encode_request
tunnel_frame_lem = refl

read-encode_tunnel_request_example :
    (j : ℕ) × (read_tunnel_request (read_piece (λ i. 7)) (tunnel_frame ++ 5 ∷ 6 ∷ [], 0)
      ≡ ((5 ∷ 6 ∷ [], j), ok ticket))
read-encode_tunnel_request_example =
    read-encode_tunnel_request (λ i. 7) ticket tunnel_frame (5 ∷ 6 ∷ []) (λ i. omega arith)
      tunnel_frame_lem

decode_tunnel_request_exact_example :
    (decode_tunnel_request tunnel_frame ≡ ok ticket)
    ↔ (encode_tunnel_request ticket ≡ ok tunnel_frame)
decode_tunnel_request_exact_example = decode_tunnel_request_exact tunnel_frame ticket

abbrev tunnel_ack : List ℕ
tunnel_ack = tunnel_response_magic ++ 0 ∷ 255 ∷ 0 ∷ 0 ∷ []

tunnel_ack_lem : encode_tunnel_response 255 ≡ ok tunnel_ack
unfolding encode_tunnel_response encode_response member
tunnel_ack_lem = refl
