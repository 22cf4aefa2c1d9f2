-- ===== src/Security/Tickets.antt =====
-- src/security/tickets.ts: the single-use ticket store. SHA-256 (`crypto.subtle.digest`) is the
-- parameter `digest`; random bytes and the times that `now()` returns are arguments.
pub mod Consume
pub mod Revoke
pub mod History
pub mod Outstanding
mod Tests
use studiobox.Common.{
  ℕ, zero, suc, ◌+◌, ◌-◌, String, Option, none, some, Bool, true, false, ◌&&◌, ◌||◌, List, [], ◌∷◌,
  leb, ltb, nat_beq, ◌==◌, if◌then◌else◌, length, string_eq, not,
}
use studiobox.Common.JsNumber.{JsNumber, nat, safe_nat, safe_positive}
use studiobox.Common.Codes.{codes_eq, hex}
use studiobox.Common.Map.{Map, get, set, has, delete, reject}

abbrev pub tunnel_ticket_bytes : ℕ
tunnel_ticket_bytes = 32

abbrev pub default_tunnel_ticket_ttl_ms : ℕ
default_tunnel_ticket_ttl_ms = 15_000

pub record TunnelTicketBinding : Type 0 where
  pub session_id : String
  pub sandbox_id : String
  pub boot_nonce : String
  pub lease_generation : JsNumber

pub record StoredTicket : Type 0 where
  pub binding : TunnelTicketBinding
  pub expires_at : ℕ

pub data Error : Type 0 where
  invalid_options invalid_binding rejected capacity_reached no_unique_ticket : Error

pub data Result {ℓ} (A : Type ℓ) : Type ℓ where
  ok : A → Result A
  err : Error → Result A

-- `SingleUseTicketStore`: its options and the outstanding tickets by verifier.
pub record TicketStore : Type 0 where
  pub ttl_ms : ℕ
  pub max_outstanding : ℕ
  pub tickets : Map (List ℕ) StoredTicket

default_to : ℕ → Option JsNumber → JsNumber
default_to d none = nat d
default_to d (some v) = v

with_options : Option ℕ → Option ℕ → Result TicketStore
with_options none max = err invalid_options
with_options (some ttl) none = err invalid_options
with_options (some ttl) (some max) =
    ok (record { ttl_ms = ttl; max_outstanding = max; tickets = [] })

unfoldable pub create_store : Option JsNumber → Option JsNumber → Result TicketStore
unfolding default_to with_options
create_store ttl_ms max_outstanding =
    with_options (safe_positive (default_to default_tunnel_ticket_ttl_ms ttl_ms))
      (safe_positive (default_to 4_096 max_outstanding))

is_safe : Option ℕ → Bool
is_safe none = false
is_safe (some n) = true

-- assertBinding
unfoldable pub is_binding : TunnelTicketBinding → Bool
unfolding is_safe
is_binding b =
    not (b.session_id == "")
    && not (b.sandbox_id == "")
    && not (b.boot_nonce == "")
    && is_safe (safe_nat b.lease_generation)

same_generation : JsNumber → JsNumber → Bool
same_generation (nat m) (nat n) = nat_beq m n
same_generation _ _ = false

-- `===` on the fields; both sides have passed `assertBinding`.
unfoldable pub same_binding : TunnelTicketBinding → TunnelTicketBinding → Bool
unfolding same_generation
same_binding a b =
    a.session_id == b.session_id
    && a.sandbox_id == b.sandbox_id
    && a.boot_nonce == b.boot_nonce
    && same_generation a.lease_generation b.lease_generation

unfoldable pub is_expired : ℕ → StoredTicket → Bool
is_expired now ticket = ltb ticket.expires_at now

-- `#revoke`: the store without the tickets that fit, and how many those were.
unfoldable pub revoke : (StoredTicket → Bool) → TicketStore → TicketStore × ℕ
revoke fits s =
    let rest = reject fits s.tickets in
    (record s { tickets = rest }, length s.tickets - length rest)

unfoldable pub revoke_sandbox : String → TicketStore → TicketStore × ℕ
unfolding revoke
revoke_sandbox sandbox_id = revoke (λ t. t.binding.sandbox_id == sandbox_id)

unfoldable pub revoke_session : String → TicketStore → TicketStore × ℕ
unfolding revoke
revoke_session session_id = revoke (λ t. t.binding.session_id == session_id)

unfoldable pub sweep_expired : ℕ → TicketStore → TicketStore × ℕ
unfolding revoke is_expired
sweep_expired now = revoke (is_expired now)

-- The rest of `consume`, for the ticket found under the verifier.
unfoldable pub consume_stored :
    ℕ
    → List ℕ
    → TunnelTicketBinding
    → TicketStore
    → Option StoredTicket
    → TicketStore × Result (Unit {0})
consume_stored now verifier binding s none = (s, err rejected)
consume_stored now verifier binding s (some stored) =
    let matches_endpoint = same_binding stored.binding binding in
    let burned = if matches_endpoint then record s { tickets = delete s.tickets verifier } else s in
    if is_expired now stored || not matches_endpoint
    then (burned, err rejected)
    else (burned, ok tt)

-- The part of `issue` that runs before its first `await`.
unfoldable pub issue_admit : ℕ → TunnelTicketBinding → TicketStore → Result TicketStore
unfolding is_binding sweep_expired
issue_admit now binding s =
    if is_binding binding
    then (let swept = (sweep_expired now s).0 in
        if leb swept.max_outstanding (length swept.tickets) then err capacity_reached else ok swept)
    else err invalid_binding

module _ (digest : List ℕ → List ℕ) where
  unfoldable pub ticket_verifier : List ℕ → List ℕ
  ticket_verifier ticket = hex (digest ticket)

  -- One attempt with one random value: `none` when its verifier is taken.
  unfoldable pub issue_attempt :
      ℕ → TunnelTicketBinding → List ℕ → TicketStore → Option (TicketStore × (List ℕ × ℕ))
  unfolding ticket_verifier
  issue_attempt now binding ticket s =
      if has s.tickets (ticket_verifier ticket)
      then none
      else (let expires_at = now + s.ttl_ms in
          some (
            record s {
              tickets =
                  set s.tickets (ticket_verifier ticket)
                    (record { binding = binding; expires_at = expires_at });
            },
            (ticket, expires_at),
          ))

  -- The loop of `issue`: attempt `i` reads the clock and draws a value of its own.
  unfoldable pub issue_loop :
      ℕ
      → ℕ
      → (ℕ → ℕ)
      → (ℕ → List ℕ)
      → TunnelTicketBinding
      → TicketStore
      → Result (TicketStore × (List ℕ × ℕ))
  issue_loop zero i clock random binding s = err no_unique_ticket
  issue_loop (suc attempts) i clock random binding s =
      elim (issue_attempt (clock i) binding (random i) s) [
        | some issued ↦ ok issued
        | none ↦ issue_loop attempts (i + 1) clock random binding s
      ]

  -- `issue`, when no other call runs between its check and its insertion.
  unfoldable pub issue :
      ℕ
      → (ℕ → ℕ)
      → (ℕ → List ℕ)
      → TunnelTicketBinding
      → TicketStore
      → Result (TicketStore × (List ℕ × ℕ))
  issue now clock random binding s = elim (issue_admit now binding s) [
    | ok admitted ↦ issue_loop 4 0 clock random binding admitted
    | err e ↦ err e
  ]

  unfoldable pub consume :
      ℕ → List ℕ → TunnelTicketBinding → TicketStore → TicketStore × Result (Unit {0})
  unfolding consume_stored ticket_verifier
  consume now ticket binding s =
      if is_binding binding
      then (if nat_beq (length ticket) tunnel_ticket_bytes
          then consume_stored now (ticket_verifier ticket) binding s
              (get s.tickets (ticket_verifier ticket))
          else (s, err rejected))
      else (s, err invalid_binding)
