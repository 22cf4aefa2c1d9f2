-- ===== src/Transports/BridgePreface/Tests.antt =====
-- Each theorem on the bridge frames at an input that meets its hypotheses.
use studiobox.Common.{ℕ, ◌≡◌, refl, List, [], ◌∷◌, ◌++◌, replicate, member}
use studiobox.Common.Results.{ok}
use studiobox.Transports.Preface.{encode_request, encode_response}
use studiobox.Transports.BridgePreface.{
  bridge_request_magic, bridge_response_magic, encode_bridge_request, encode_bridge_response,
}

abbrev credential : List ℕ
credential = replicate 32 171

abbrev bridge_frame : List ℕ
bridge_frame = bridge_request_magic ++ 0 ∷ 1 ∷ 0 ∷ 0 ∷ credential

bridge_frame_lem : encode_bridge_request credential ≡ ok bridge_frame
unfolding encode_bridge_request encode_request
bridge_frame_lem = refl

abbrev bridge_ack : List ℕ
bridge_ack = bridge_response_magic ++ 0 ∷ 255 ∷ 0 ∷ 0 ∷ []

bridge_ack_lem : encode_bridge_response 255 ≡ ok bridge_ack
unfolding encode_bridge_response encode_response member
bridge_ack_lem = refl
