-- ===== src/Security/Tickets/Consume.antt =====
-- What a call of `consume` in src/security/tickets.ts accepts and burns.
use studiobox.Common.{
  ℕ, ◌≤◌, ◌≡◌, ◌↔◌, inl, inr, ◌≢◌, List, arith, none, some, true, false, length, string_eq,
  Option-cases, ap,
}
use studiobox.Common.JsNumber.{safe_nat}
use studiobox.Common.Codes.{codes_eq}
use text.Mathlib.TextEquality.{eq_iff}
use studiobox.Common.Map.{get, get-delete_self}
use studiobox.Security.Tickets.{
  TunnelTicketBinding, StoredTicket, TicketStore, ok, is_binding, same_binding, is_expired,
  ticket_verifier, consume, tunnel_ticket_bytes,
}

pub same_binding_refl : (b : TunnelTicketBinding) → is_binding b ≡ true → same_binding b b ≡ true
unfolding same_binding is_binding safe_nat
same_binding_refl b h = ground (
  arith,
  eq_iff b.session_id b.session_id,
  eq_iff b.sandbox_id b.sandbox_id,
  eq_iff b.boot_nonce b.boot_nonce,
)

pub same_binding-sandbox :
    (a b : TunnelTicketBinding) → same_binding a b ≡ true → a.sandbox_id ≡ b.sandbox_id
unfolding same_binding
same_binding-sandbox a b h = ground (arith, eq_iff a.sandbox_id b.sandbox_id)

module _ (digest : List ℕ → List ℕ) where
  pub record Acceptable (now : ℕ) (ticket : List ℕ) (b : TunnelTicketBinding) (s : TicketStore)
      : Type 0 where
    pub stored : StoredTicket
    pub checked : is_binding b ≡ true
    pub sized : length ticket ≡ tunnel_ticket_bytes
    pub held : get s.tickets (ticket_verifier digest ticket) ≡ some stored
    pub bound : same_binding stored.binding b ≡ true
    pub alive : now ≤ stored.expires_at

  -- After an accepted ticket nothing is stored under its verifier.
  pub consume_burns :
      (now : ℕ) (ticket : List ℕ) (b : TunnelTicketBinding) (s : TicketStore)
      → (consume digest now ticket b s).1 ≡ ok tt
      → get (consume digest now ticket b s).0.tickets (ticket_verifier digest ticket) ≡ none
  unfolding consume
  consume_burns now ticket b s h =
      let v = ticket_verifier digest ticket in ground (arith, get-delete_self s.tickets v)

  pub missing_rejected :
      (now : ℕ) (ticket : List ℕ) (b : TunnelTicketBinding) (s : TicketStore)
      → get s.tickets (ticket_verifier digest ticket) ≡ none
      → (consume digest now ticket b s).1 ≢ ok tt
  unfolding consume
  missing_rejected now ticket b s h e = ground (arith, h)

  accepts_forward :
      (now : ℕ) (ticket : List ℕ) (b : TunnelTicketBinding) (s : TicketStore)
      → (consume digest now ticket b s).1 ≡ ok tt
      → Acceptable now ticket b s
  unfolding consume is_expired
  accepts_forward now ticket b s h =
      elim (Option-cases (get s.tickets (ticket_verifier digest ticket))) [
        | inl missing ↦ absurd (missing_rejected now ticket b s missing h)
        | inr (t, held) ↦ record {
          stored = t;
          checked = ground arith;
          sized = ground arith;
          held = held;
          bound = ground (arith, held);
          alive = ground (arith, held);
        }
      ]

  accepts_backward :
      (now : ℕ) (ticket : List ℕ) (b : TunnelTicketBinding) (s : TicketStore)
      → Acceptable now ticket b s
      → (consume digest now ticket b s).1 ≡ ok tt
  unfolding consume is_expired
  accepts_backward now ticket b s a = ground (arith, a.held, a.bound, a.alive, a.checked, a.sized)

  -- A ticket is accepted exactly when it has 32 bytes and the presented binding is well formed, it is
  -- stored under its verifier with that binding, and it has not expired.
  pub consume_accepts :
      (now : ℕ) (ticket : List ℕ) (b : TunnelTicketBinding) (s : TicketStore)
      → ((consume digest now ticket b s).1 ≡ ok tt) ↔ Acceptable now ticket b s
  consume_accepts now ticket b s = (accepts_forward now ticket b s, accepts_backward now ticket b s)

  foreign_unchanged :
      (now : ℕ) (ticket : List ℕ) (intruder : TunnelTicketBinding) (s : TicketStore)
      (t : StoredTicket)
      → get s.tickets (ticket_verifier digest ticket) ≡ some t
      → same_binding t.binding intruder ≡ false
      → (consume digest now ticket intruder s).0 ≡ s
  unfolding consume
  foreign_unchanged now ticket intruder s t h e = ground (arith, h, e)

  -- A stored ticket presented with another binding is refused, and a later presentation by its
  -- holder has the outcome that it would have had.
  pub consume_foreign :
      (now later : ℕ) (ticket : List ℕ) (intruder holder : TunnelTicketBinding) (s : TicketStore)
      (t : StoredTicket)
      → get s.tickets (ticket_verifier digest ticket) ≡ some t
      → same_binding t.binding intruder ≡ false
      → ((consume digest now ticket intruder s).1 ≢ ok tt)
        × (consume digest later ticket holder (consume digest now ticket intruder s).0
            ≡ consume digest later ticket holder s)
  consume_foreign now later ticket intruder holder s t h e = (
    λ accepted.
        let a = accepts_forward now ticket intruder s accepted in ground (arith, a.held, a.bound),
    ap (consume digest later ticket holder) (foreign_unchanged now ticket intruder s t h e),
  )
