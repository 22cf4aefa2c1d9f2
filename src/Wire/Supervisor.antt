-- ===== src/Wire/Supervisor.antt =====
-- The bridge messages of src/wire/supervisor.ts. An object has exactly the fields of its type here:
-- the check of its keys is left out.
use studiobox.Common.{
  ℕ, ◌+◌, Bool, false, ◌&&◌, ◌||◌, not, List, [], ◌∷◌, leb, ltb, nat_beq, length, drop,
}
use studiobox.Common.JsNumber.{JsNumber, safe_nat, safe_positive}
use studiobox.Common.Results.{Result, ok, ◌>>=◌, ◌>>◌, or_throw, throw_if}
use studiobox.State.Model.{Text, codes}
use studiobox.State.Values.{utf8_length}
use studiobox.State.Grammar.{is_alphanumeric, all_of, is_execution_id}
use studiobox.State.Store.Disk.{starts_with}

pub data WireValidationError : Type 0 where
  wire_validation_error : WireValidationError

abbrev pub Accepted {ℓ} : Type ℓ → Type ℓ
Accepted A = Result WireValidationError A

abbrev pub max_bridge_ttl_ms : ℕ
max_bridge_ttl_ms = 15_000

abbrev pub bridge_socket_root : Text
bridge_socket_root = codes "/run/studiobox/b/"

-- SupervisorBridgeRequest, as it comes and as it is checked.
pub record RawBridgeRequest : Type 0 where
  pub sandbox_id : Text
  pub execution_id : Text
  pub lease_id : Text
  pub lease_generation : JsNumber
  pub tunnel_nonce : List ℕ
  pub expires_at : JsNumber

pub record BridgeRequest : Type 0 where
  pub sandbox_id : Text
  pub execution_id : Text
  pub lease_id : Text
  pub lease_generation : ℕ
  pub tunnel_nonce : List ℕ
  pub expires_at : ℕ

-- SupervisorBridgeGrant
pub record BridgeGrant : Type 0 where
  pub bridge_id : Text
  pub socket_path : Text
  pub bridge_credential : List ℕ
  pub agent_credential : List ℕ
  pub expires_at : ℕ

-- /^[A-Za-z0-9][A-Za-z0-9-]{0,59}$/, after the first four characters
unfoldable pub is_sandbox_tail : Text → Bool
unfolding is_alphanumeric
is_sandbox_tail [] = false
is_sandbox_tail (c ∷ cs) =
    is_alphanumeric c && all_of (λ d. is_alphanumeric d || nat_beq d b'-') cs && leb (length cs) 59

-- /^sbx-[A-Za-z0-9][A-Za-z0-9-]{0,59}$/u
unfoldable pub is_wire_sandbox_id : Text → Bool
unfolding is_sandbox_tail starts_with
is_wire_sandbox_id cs = starts_with (codes "sbx-") cs && is_sandbox_tail (drop 4 cs)

-- /^[A-Za-z0-9][A-Za-z0-9._:-]{0,127}$/u
unfoldable pub is_logical_id : Text → Bool
unfolding is_alphanumeric
is_logical_id [] = false
is_logical_id (c ∷ cs) =
    is_alphanumeric c
    && all_of
        (λ d.
          is_alphanumeric d || nat_beq d b'.' || nat_beq d b'_' || nat_beq d b':' || nat_beq d b'-')
        cs
    && leb (length cs) 127

unfoldable pub assert_pattern : (Text → Bool) → Text → Accepted (Unit {0})
assert_pattern test cs = throw_if (not (test cs)) wire_validation_error

unfoldable pub assert_byte_range : ℕ → ℕ → List ℕ → Accepted (Unit {0})
assert_byte_range minimum maximum bytes =
    throw_if (ltb (length bytes) minimum || ltb maximum (length bytes)) wire_validation_error

unfoldable pub assert_expiry : ℕ → ℕ → Accepted (Unit {0})
assert_expiry now expires_at =
    throw_if (leb expires_at now || ltb (now + max_bridge_ttl_ms) expires_at) wire_validation_error

unfoldable pub validate_bridge_request : ℕ → RawBridgeRequest → Accepted BridgeRequest
unfolding assert_pattern assert_byte_range assert_expiry
validate_bridge_request now raw = do
  assert_pattern is_wire_sandbox_id raw.sandbox_id
  assert_pattern is_execution_id raw.execution_id
  assert_pattern is_logical_id raw.lease_id
  generation ← or_throw (safe_positive raw.lease_generation) wire_validation_error
  assert_byte_range 32 32 raw.tunnel_nonce
  expires_at ← or_throw (safe_nat raw.expires_at) wire_validation_error
  assert_expiry now expires_at
  ok (record {
    sandbox_id = raw.sandbox_id;
    execution_id = raw.execution_id;
    lease_id = raw.lease_id;
    lease_generation = generation;
    tunnel_nonce = raw.tunnel_nonce;
    expires_at = expires_at;
  })

-- BRIDGE_ID is the pattern of an execution id.
unfoldable pub validate_bridge_socket_path : Text → Accepted (Unit {0})
unfolding starts_with
validate_bridge_socket_path path = do
  throw_if (nat_beq (length path) 0 || ltb 103 (utf8_length path)) wire_validation_error
  throw_if (not (starts_with bridge_socket_root path)) wire_validation_error
  throw_if (not (is_execution_id (drop (length bridge_socket_root) path))) wire_validation_error

unfoldable pub validate_bridge_grant : ℕ → BridgeGrant → Accepted BridgeGrant
unfolding assert_pattern validate_bridge_socket_path assert_byte_range assert_expiry
validate_bridge_grant now grant = do
  assert_pattern is_execution_id grant.bridge_id
  validate_bridge_socket_path grant.socket_path
  assert_byte_range 32 32 grant.bridge_credential
  assert_byte_range 32 512 grant.agent_credential
  assert_expiry now grant.expires_at
  ok grant
