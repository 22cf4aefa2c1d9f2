-- ===== src/Hostd/TunnelAuthorizer/Gate.antt =====
-- What src/hostd/tunnel_authorizer.ts requires before the privileged bridge is reached.
use studiobox.Common.{
  ℕ, ◌≤◌, length, true, refl, ◌≡◌, ◌≢◌, Option, none, Bool, false, List, [], ◌∷◌, arith, string_eq,
}
use text.Mathlib.TextEquality.{eq_iff}
use studiobox.Common.Codes.{codes_eq}
use studiobox.Common.JsNumber.{JsNumber, nat, frac, negative, infinite, nan, safe_nat}
use studiobox.Common.Map.{get}
use studiobox.Security.Tickets.{TicketStore, TunnelTicketBinding, ok, consume, ticket_verifier}
use studiobox.Security.Tickets.Consume.{consume_burns}
use studiobox.Hostd.TunnelAuthorizer.{
  PrivilegedBridgeRequest, Outcome, check_request, port_in_range, authorize_and_open,
}

id_lem :
    (r : PrivilegedBridgeRequest)
    → check_request r ≡ none
    → (1 ≤ length r.execution_id) × (length r.execution_id ≤ 64)
unfolding check_request
id_lem r h = ground arith

port_checked :
    (r : PrivilegedBridgeRequest)
    → check_request r ≡ none
    → port_in_range (safe_nat r.guest_port) ≡ true
unfolding check_request
port_checked r h = ground arith

port_lem :
    (port : JsNumber)
    → port_in_range (safe_nat port) ≡ true
    → (p : ℕ) × (port ≡ nat p) × (1 ≤ p) × (p ≤ 65_535)
unfolding port_in_range safe_nat
port_lem (nat p) h = (p, refl, ground arith, ground arith)
port_lem (frac n) h = absurd (ground arith)
port_lem negative h = absurd (ground arith)
port_lem infinite h = absurd (ground arith)
port_lem nan h = absurd (ground arith)

module _ (digest : List ℕ → List ℕ) (Bridge : Type 0)
    (open_bridge : PrivilegedBridgeRequest → Option Bridge) (now : ℕ) (presented : List ℕ)
    (binding : TunnelTicketBinding) (request : PrivilegedBridgeRequest) (is_aborted : Bool)
    (s : TicketStore) where
  abbrev outcome : Outcome Bridge
  outcome = authorize_and_open digest Bridge open_bridge now presented binding request is_aborted s

  -- What holds whenever the bridge was dialled.
  pub record Opens : Type 0 where
    pub accepted : (consume digest now presented binding s).1 ≡ ok tt
    pub burned : get outcome.store.tickets (ticket_verifier digest presented) ≡ none
    pub once : outcome.opened ≡ request ∷ []
    pub live : is_aborted ≡ false
    pub own_sandbox : request.sandbox_id ≡ binding.sandbox_id
    pub id_bounded : (1 ≤ length request.execution_id) × (length request.execution_id ≤ 64)
    pub port : (p : ℕ) × (request.guest_port ≡ nat p) × (1 ≤ p) × (p ≤ 65_535)

  store_lem : outcome.store ≡ (consume digest now presented binding s).0
  unfolding authorize_and_open
  store_lem = ground arith

  accepted_lem : outcome.opened ≢ [] → (consume digest now presented binding s).1 ≡ ok tt
  unfolding authorize_and_open
  accepted_lem h = ground arith

  checked : outcome.opened ≢ [] → check_request request ≡ none
  unfolding authorize_and_open
  checked h = ground arith

  -- The bridge is dialled only after the ticket was accepted and burned, while the call was not
  -- aborted, only for the sandbox of its binding, with an execution id of 1 to 64 characters and a
  -- port of 1 to 65535, once.
  pub authorize_opens : outcome.opened ≢ [] → Opens
  unfolding authorize_and_open
  authorize_opens h = record {
    accepted = accepted_lem h;
    burned = rw store_lem (consume_burns digest now presented binding s (accepted_lem h));
    once = ground arith;
    live = ground arith;
    own_sandbox = ground (arith, eq_iff request.sandbox_id binding.sandbox_id);
    id_bounded = id_lem request (checked h);
    port = port_lem request.guest_port (port_checked request (checked h));
  }

  -- Whatever happens after an accepted ticket, it stays burned: no failure gives it back.
  pub authorize_burns :
      (consume digest now presented binding s).1 ≡ ok tt
      → get outcome.store.tickets (ticket_verifier digest presented) ≡ none
  authorize_burns h = rw store_lem (consume_burns digest now presented binding s h)
