-- ===== src/Security/Tickets/History.antt =====
-- Histories of calls on the ticket store of src/security/tickets.ts: single use, the bound on
-- outstanding tickets, and what overlapping calls of `issue` do to it.
use studiobox.Common.{
  ℕ, zero, suc, ◌+◌, ◌≡◌, ◌⊎◌, inl, inr, ◌≢◌, String, List, [], ◌∷◌, arith, none, some, length,
  string_eq, Option-cases, leb, Bool-cases, if◌then◌else◌,
}
use studiobox.Common.Codes.{codes_eq, codes_beq_iff}
use studiobox.Common.Map.{get, get-set, get-delete, get-reject_missing}
use studiobox.Security.Tickets.{
  TunnelTicketBinding, TicketStore, Result, Error, ok, err, invalid_binding, capacity_reached,
  is_binding, is_expired, revoke_sandbox, revoke_session, sweep_expired, ticket_verifier,
  issue_admit, issue_attempt, issue_loop, issue, consume,
}
use studiobox.Security.Tickets.Consume.{consume_burns, missing_rejected}

pub data Call : Type 0 where
  issues : ℕ → (ℕ → ℕ) → (ℕ → List ℕ) → TunnelTicketBinding → Call
  consumes : ℕ → List ℕ → TunnelTicketBinding → Call
  revokes_sandbox : String → Call
  revokes_session : String → Call
  sweeps : ℕ → Call

abbrev pub after : TicketStore → Result (TicketStore × (List ℕ × ℕ)) → TicketStore
after s (ok (s', t)) = s'
after s (err e) = s

-- The check of `issue` either refuses, or passes the swept store on.
pub issue_admit_cases :
    (now : ℕ) (b : TunnelTicketBinding) (s : TicketStore)
    → (issue_admit now b s ≡ ok (sweep_expired now s).0)
      ⊎ ((k : Error) × (issue_admit now b s ≡ err k))
unfolding issue_admit
issue_admit_cases now b s = elim (Bool-cases (is_binding b)) [
  | inl good ↦
      elim (Bool-cases
        (leb (sweep_expired now s).0.max_outstanding (length (sweep_expired now s).0.tickets))) [
          | inl full ↦ inr (capacity_reached, rw good (rw full))
          | inr room ↦ inl (rw good (rw room))
        ]
  | inr bad ↦ inr (invalid_binding, rw bad)
]

module _ (digest : List ℕ → List ℕ) where
  -- `issue` has swept the store also where it then throws.
  unfoldable pub step : TicketStore → Call → TicketStore
  step s (issues now clock random b) =
      if is_binding b then after (sweep_expired now s).0 (issue digest now clock random b s) else s
  step s (consumes now ticket b) = (consume digest now ticket b s).0
  step s (revokes_sandbox id) = (revoke_sandbox id s).0
  step s (revokes_session id) = (revoke_session id s).0
  step s (sweeps now) = (sweep_expired now s).0

  unfoldable pub run : TicketStore → List Call → TicketStore
  run s [] = s
  run s (c ∷ cs) = run (step s c) cs

  -- No value that the call draws has the verifier `v`.
  abbrev pub Avoids : List ℕ → Call → Type 0
  Avoids v (issues now clock random b) = (i : ℕ) → ticket_verifier digest (random i) ≢ v
  Avoids v _ = Unit {0}

  abbrev pub AllAvoid : List ℕ → List Call → Type 0
  AllAvoid v [] = Unit {0}
  AllAvoid v (c ∷ cs) = Avoids v c × AllAvoid v cs

  module _ (v : List ℕ) where
    attempt_missing :
        (now : ℕ) (b : TunnelTicketBinding) (ticket : List ℕ) (s : TicketStore)
        {r : TicketStore × (List ℕ × ℕ)}
        → ticket_verifier digest ticket ≢ v
        → get s.tickets v ≡ none
        → issue_attempt digest now b ticket s ≡ some r
        → get r.0.tickets v ≡ none
    unfolding issue_attempt
    attempt_missing now b ticket s {r} other missing e = ground (
      arith,
      e,
      get-set s.tickets (ticket_verifier digest ticket) v
          (record { binding = b; expires_at = now + s.ttl_ms }),
      codes_beq_iff (ticket_verifier digest ticket) v,
    )

    loop_missing :
        (attempts i : ℕ) (clock : ℕ → ℕ) (random : ℕ → List ℕ) (b : TunnelTicketBinding)
        (s s₀ : TicketStore)
        → ((i : ℕ) → ticket_verifier digest (random i) ≢ v)
        → get s.tickets v ≡ none
        → get s₀.tickets v ≡ none
        → get (after s₀ (issue_loop digest attempts i clock random b s)).tickets v ≡ none
    unfolding issue_loop
    loop_missing zero i clock random b s s₀ other missing first = first
    loop_missing (suc n) i clock random b s s₀ other missing first =
        elim (Option-cases (issue_attempt digest (clock i) b (random i) s)) [
          | inl e ↦ rw (e, after) (loop_missing n (i + 1) clock random b s s₀ other missing first)
          | inr (r, e) ↦
              rw (e, after) (attempt_missing (clock i) b (random i) s (other i) missing e)
        ]

    sweep_missing :
        (now : ℕ) (s : TicketStore)
        → get s.tickets v ≡ none
        → get (sweep_expired now s).0.tickets v ≡ none
    unfolding sweep_expired
    sweep_missing now s missing = get-reject_missing (is_expired now) s.tickets v missing

    issue_missing :
        (now : ℕ) (clock : ℕ → ℕ) (random : ℕ → List ℕ) (b : TunnelTicketBinding) (s : TicketStore)
        → ((i : ℕ) → ticket_verifier digest (random i) ≢ v)
        → get s.tickets v ≡ none
        → get (after (sweep_expired now s).0 (issue digest now clock random b s)).tickets v ≡ none
    unfolding issue
    issue_missing now clock random b s other missing =
        let swept = (sweep_expired now s).0 in
        let gone = sweep_missing now s missing in
        elim (issue_admit_cases now b s) [
          | inl admitted ↦
              rw (admitted, after) (loop_missing 4 0 clock random b swept swept other gone gone)
          | inr (k, refused) ↦ rw (refused, after) gone
        ]

    step_missing :
        (s : TicketStore) (c : Call)
        → Avoids v c
        → get s.tickets v ≡ none
        → get (step s c).tickets v ≡ none
    unfolding step consume revoke_sandbox revoke_session
    step_missing s (issues now clock random b) other missing = elim (Bool-cases (is_binding b)) [
      | inl good ↦ rw good (issue_missing now clock random b s other missing)
      | inr bad ↦ rw bad missing
    ]
    step_missing s (consumes now ticket b) other missing =
        ground (arith, missing, get-delete s.tickets (ticket_verifier digest ticket) v)
    step_missing s (revokes_sandbox id) other missing = get-reject_missing _ s.tickets v missing
    step_missing s (revokes_session id) other missing = get-reject_missing _ s.tickets v missing
    step_missing s (sweeps now) other missing = sweep_missing now s missing

    run_missing :
        (s : TicketStore) (cs : List Call)
        → AllAvoid v cs
        → get s.tickets v ≡ none
        → get (run s cs).tickets v ≡ none
    unfolding run
    run_missing s [] other missing = missing
    run_missing s (c ∷ cs) (o, os) missing =
        run_missing (step s c) cs os (step_missing s c o missing)

  -- A ticket that was accepted once is never accepted again, by no binding and at no time, whatever
  -- calls come between, unless a later `issue` draws a value with the same verifier.
  pub single_use :
      (now : ℕ) (ticket : List ℕ) (b : TunnelTicketBinding) (s : TicketStore) (cs : List Call)
      (later : ℕ) (b' : TunnelTicketBinding)
      → AllAvoid (ticket_verifier digest ticket) cs
      → (consume digest now ticket b s).1 ≡ ok tt
      → (consume digest later ticket b' (run (consume digest now ticket b s).0 cs)).1 ≢ ok tt
  single_use now ticket b s cs later b' avoid accepted =
      let v = ticket_verifier digest ticket in
      let used = (consume digest now ticket b s).0 in
      missing_rejected digest later ticket b' (run used cs)
        (run_missing v used cs avoid (consume_burns digest now ticket b s accepted))
