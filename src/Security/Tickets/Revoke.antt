-- ===== src/Security/Tickets/Revoke.antt =====
-- Revocation and expiry in src/security/tickets.ts, as later calls of `consume` see them.
use studiobox.Common.{
  ℕ, ◌≤◌, ◌≡◌, refl, String, List, arith, Option, none, some, true, length, string_eq, ◌==◌,
  if◌then◌else◌,
}
use studiobox.Common.Codes.{codes_eq}
use text.Mathlib.TextEquality.{eq_iff}
use studiobox.Common.Map.{get, unless, Distinct, get-reject}
use studiobox.Security.Tickets.{
  TunnelTicketBinding, StoredTicket, TicketStore, err, rejected, is_binding, is_expired,
  revoke_sandbox, sweep_expired, ticket_verifier, consume_stored, consume, tunnel_ticket_bytes,
}
use studiobox.Security.Tickets.Consume.{same_binding-sandbox}

module _ (digest : List ℕ → List ℕ) where
  revoked_stored :
      (now : ℕ) (ticket : List ℕ) (b : TunnelTicketBinding) (s : TicketStore) (sandbox : String)
      → Distinct s.tickets
      → get (revoke_sandbox sandbox s).0.tickets (ticket_verifier digest ticket)
        ≡ unless
            (λ t. t.binding.sandbox_id == sandbox)
            (get s.tickets (ticket_verifier digest ticket))
  unfolding revoke_sandbox
  revoked_stored now ticket b s sandbox d = get-reject _ s.tickets _ d

  verdict :
      (now : ℕ) (v : List ℕ) (b : TunnelTicketBinding) (s s' : TicketStore)
      (o : Option StoredTicket) (sandbox : String)
      → (consume_stored now v b s' (unless (λ t. t.binding.sandbox_id == sandbox) o)).1
        ≡ (if b.sandbox_id == sandbox then err rejected else (consume_stored now v b s o).1)
  unfolding consume_stored
  verdict now v b s s' none sandbox = ground arith
  verdict now v b s s' (some t) sandbox = ground (
    arith,
    same_binding-sandbox t.binding b,
    eq_iff t.binding.sandbox_id sandbox,
    eq_iff b.sandbox_id sandbox,
  )

  -- After `revokeSandbox` a well-formed presentation for that sandbox is always refused, and one
  -- for another sandbox has the outcome that it had before.
  pub consume-revoke_sandbox :
      (now : ℕ) (ticket : List ℕ) (b : TunnelTicketBinding) (s : TicketStore) (sandbox : String)
      → Distinct s.tickets
      → is_binding b ≡ true
      → length ticket ≡ tunnel_ticket_bytes
      → (consume digest now ticket b (revoke_sandbox sandbox s).0).1
        ≡ (if b.sandbox_id == sandbox then err rejected else (consume digest now ticket b s).1)
  unfolding consume
  consume-revoke_sandbox now ticket b s sandbox d checked sized = ground (
    arith,
    checked,
    sized,
    revoked_stored now ticket b s sandbox d,
    verdict now (ticket_verifier digest ticket) b s (revoke_sandbox sandbox s).0
        (get s.tickets (ticket_verifier digest ticket)) sandbox,
  )

  swept_stored :
      (now : ℕ) (v : List ℕ) (s : TicketStore)
      → Distinct s.tickets
      → get (sweep_expired now s).0.tickets v ≡ unless (is_expired now) (get s.tickets v)
  unfolding sweep_expired
  swept_stored now v s d = get-reject _ s.tickets _ d

  swept_verdict :
      (now later : ℕ) (v : List ℕ) (b : TunnelTicketBinding) (s s' : TicketStore)
      (o : Option StoredTicket)
      → now ≤ later
      → (consume_stored later v b s' (unless (is_expired now) o)).1
        ≡ (consume_stored later v b s o).1
  unfolding consume_stored is_expired
  swept_verdict now later v b s s' none h = refl
  swept_verdict now later v b s s' (some t) h = ground arith

  -- Sweeping changes the outcome of no later presentation.
  pub consume-sweep_expired :
      (now later : ℕ) (ticket : List ℕ) (b : TunnelTicketBinding) (s : TicketStore)
      → Distinct s.tickets
      → now ≤ later
      → (consume digest later ticket b (sweep_expired now s).0).1
        ≡ (consume digest later ticket b s).1
  unfolding consume
  consume-sweep_expired now later ticket b s d h =
      let v = ticket_verifier digest ticket in
      ground (
        arith,
        swept_stored now v s d,
        swept_verdict now later v b s (sweep_expired now s).0 (get s.tickets v) h,
      )
