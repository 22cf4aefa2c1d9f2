-- ===== src/Hostd/TunnelAuthorizer.antt =====
-- src/hostd/tunnel_authorizer.ts: the gate in front of the privileged bridge. The bridge factory
-- is the parameter `open_bridge`; `opened` lists the requests that it was called with.
pub mod Gate
mod Tests
use studiobox.Common.{
  ℕ, String, Option, none, some, Bool, true, false, ◌&&◌, ◌||◌, List, [], ◌∷◌, leb, ltb, nat_beq,
  ◌==◌, not, if◌then◌else◌, length, string_eq,
}
use studiobox.Common.JsNumber.{JsNumber, safe_nat}
use studiobox.Security.Tickets.{TicketStore, TunnelTicketBinding, Result, ok, err, consume}
use studiobox.Security.Tickets

-- Execution ids are lists of UTF-16 code units.
pub record PrivilegedBridgeRequest : Type 0 where
  pub sandbox_id : String
  pub execution_id : List ℕ
  pub guest_port : JsNumber

pub data Error : Type 0 where
  ticket : Tickets.Error → Error
  aborted bad_execution_id bad_guest_port bridge_failed : Error

pub data Reply (Bridge : Type 0) : Type 0 where
  bridge : Bridge → Reply Bridge
  failed : Error → Reply Bridge

pub record Outcome (Bridge : Type 0) : Type 0 where
  pub store : TicketStore
  pub opened : List PrivilegedBridgeRequest
  pub reply : Reply Bridge

port_in_range : Option ℕ → Bool
port_in_range none = false
port_in_range (some p) = leb 1 p && leb p 65_535

-- assertBridgeRequest
unfoldable pub check_request : PrivilegedBridgeRequest → Option Error
unfolding port_in_range
check_request r =
    if nat_beq (length r.execution_id) 0 || ltb 64 (length r.execution_id)
    then some bad_execution_id
    else if port_in_range (safe_nat r.guest_port)
    then none
    else some bad_guest_port

module _ (digest : List ℕ → List ℕ) (Bridge : Type 0)
    (open_bridge : PrivilegedBridgeRequest → Option Bridge) where
  reply_of : Option Bridge → Reply Bridge
  reply_of none = failed bridge_failed
  reply_of (some b) = bridge b

  dial : TicketStore → PrivilegedBridgeRequest → Option Error → Outcome Bridge
  unfolding reply_of
  dial s request (some e) = record { store = s; opened = []; reply = failed e }
  dial s request none = record {
    store = s;
    opened = request ∷ [];
    reply = reply_of (open_bridge request);
  }

  after_consume :
      TunnelTicketBinding
      → PrivilegedBridgeRequest
      → Bool
      → TicketStore × Result (Unit {0})
      → Outcome Bridge
  unfolding dial
  after_consume binding request is_aborted (s, err e) = record {
    store = s;
    opened = [];
    reply = failed (ticket e);
  }
  after_consume binding request is_aborted (s, ok _) =
      if is_aborted
      then record { store = s; opened = []; reply = failed aborted }
      else if request.sandbox_id == binding.sandbox_id
      then dial s request (check_request request)
      else record { store = s; opened = []; reply = failed (ticket Tickets.rejected) }

  unfoldable pub authorize_and_open :
      ℕ
      → List ℕ
      → TunnelTicketBinding
      → PrivilegedBridgeRequest
      → Bool
      → TicketStore
      → Outcome Bridge
  unfolding after_consume
  authorize_and_open now presented binding request is_aborted s =
      after_consume binding request is_aborted (consume digest now presented binding s)
