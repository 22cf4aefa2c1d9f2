-- ===== src/Security/Tickets/Outstanding.antt =====
-- How many tickets src/security/tickets.ts holds at once, and the way from `issue` to `consume`.
use studiobox.Common.{
  ℕ, zero, suc, ◌+◌, ◌≤◌, ◌<◌, ◌≡◌, refl, inl, inr, List, [], ◌∷◌, arith, some, true, length,
  string_eq, Option-cases, ltb, Bool-cases, ◌==◌, if◌then◌else◌, ap,
}
use studiobox.Common.Codes.{codes_eq}
use studiobox.Common.Map.{
  get, get-set_self, length-set_new, length-reject-le, length-delete-le, length-set-le, get-has,
  reject_twice,
}
use studiobox.Security.Tickets.{
  TunnelTicketBinding, TicketStore, ok, err, rejected, is_binding, is_expired, revoke_sandbox,
  revoke_session, sweep_expired, ticket_verifier, issue_admit, issue_attempt, issue_loop, issue,
  consume, tunnel_ticket_bytes,
}
use studiobox.Security.Tickets.Consume.{same_binding_refl}
use studiobox.Security.Tickets.History.{
  Call, issues, consumes, revokes_sandbox, revokes_session, sweeps, after, step, run,
  issue_admit_cases,
}

abbrev pub IsBounded : TicketStore → Type 0
IsBounded s = length s.tickets ≤ s.max_outstanding

sweep-length :
    (now : ℕ) (s : TicketStore) → length (sweep_expired now s).0.tickets ≤ length s.tickets
unfolding sweep_expired
sweep-length now s = length-reject-le (is_expired now) s.tickets

sweep-max :
    (now : ℕ) (s : TicketStore) → (sweep_expired now s).0.max_outstanding ≡ s.max_outstanding
unfolding sweep_expired
sweep-max now s = refl

sweep_again :
    (now : ℕ) (s : TicketStore)
    → (sweep_expired now (sweep_expired now s).0).0 ≡ (sweep_expired now s).0
unfolding sweep_expired
sweep_again now s = ap (λ m. record s { tickets = m }) (reject_twice (is_expired now) s.tickets)

admits :
    (now : ℕ) (b : TunnelTicketBinding) (s : TicketStore)
    → is_binding b ≡ true
    → suc (length (sweep_expired now s).0.tickets) ≤ (sweep_expired now s).0.max_outstanding
    → issue_admit now b s ≡ ok (sweep_expired now s).0
unfolding issue_admit
admits now b s good room = rw good (ground arith)

-- A store that passes the check has room for one more.
admitted_room :
    (now : ℕ) (b : TunnelTicketBinding) (s : TicketStore) {admitted : TicketStore}
    → issue_admit now b s ≡ ok admitted
    → suc (length admitted.tickets) ≤ admitted.max_outstanding
unfolding issue_admit
admitted_room now b s h = ground arith

module _ (digest : List ℕ → List ℕ) where
  attempt-IsBounded :
      (now : ℕ) (b : TunnelTicketBinding) (ticket : List ℕ) (s : TicketStore)
      {r : TicketStore × (List ℕ × ℕ)}
      → suc (length s.tickets) ≤ s.max_outstanding
      → issue_attempt digest now b ticket s ≡ some r
      → IsBounded r.0
  unfolding issue_attempt
  attempt-IsBounded now b ticket s room e = ground (
    arith,
    length-set-le s.tickets (ticket_verifier digest ticket)
        (record { binding = b; expires_at = now + s.ttl_ms }),
  )

  loop-IsBounded :
      (attempts i : ℕ) (clock : ℕ → ℕ) (random : ℕ → List ℕ) (b : TunnelTicketBinding)
      (s s₀ : TicketStore)
      → suc (length s.tickets) ≤ s.max_outstanding
      → IsBounded s₀
      → IsBounded (after s₀ (issue_loop digest attempts i clock random b s))
  unfolding issue_loop
  loop-IsBounded zero i clock random b s s₀ room h = h
  loop-IsBounded (suc n) i clock random b s s₀ room h =
      elim (Option-cases (issue_attempt digest (clock i) b (random i) s)) [
        | inl e ↦ rw (e, after) (loop-IsBounded n (i + 1) clock random b s s₀ room h)
        | inr (r, e) ↦ rw (e, after) (attempt-IsBounded (clock i) b (random i) s room e)
      ]

  issue-IsBounded :
      (now : ℕ) (clock : ℕ → ℕ) (random : ℕ → List ℕ) (b : TunnelTicketBinding) (s : TicketStore)
      → IsBounded s
      → IsBounded (after (sweep_expired now s).0 (issue digest now clock random b s))
  unfolding issue
  issue-IsBounded now clock random b s h =
      let swept = (sweep_expired now s).0 in
      let fits : IsBounded swept = omega (arith, sweep-length now s, sweep-max now s) in
      elim (issue_admit_cases now b s) [
        | inl admitted ↦
            rw (admitted, after)
              (loop-IsBounded 4 0 clock random b swept swept (admitted_room now b s admitted) fits)
        | inr (k, refused) ↦ rw (refused, after) fits
      ]

  step-IsBounded : (s : TicketStore) (c : Call) → IsBounded s → IsBounded (step digest s c)
  unfolding step consume revoke_sandbox revoke_session sweep_expired
  step-IsBounded s (issues now clock random b) h = elim (Bool-cases (is_binding b)) [
    | inl good ↦ rw good (unfold sweep_expired in issue-IsBounded now clock random b s h)
    | inr bad ↦ rw bad h
  ]
  step-IsBounded s (consumes now ticket b) h =
      ground (arith, length-delete-le s.tickets (ticket_verifier digest ticket))
  step-IsBounded s (revokes_sandbox id) h =
      omega (arith, length-reject-le (λ t. t.binding.sandbox_id == id) s.tickets)
  step-IsBounded s (revokes_session id) h =
      omega (arith, length-reject-le (λ t. t.binding.session_id == id) s.tickets)
  step-IsBounded s (sweeps now) h = omega (arith, length-reject-le (is_expired now) s.tickets)

  -- While no two calls overlap, a store within `maxOutstanding` tickets stays within it.
  pub run-IsBounded : (s : TicketStore) (cs : List Call) → IsBounded s → IsBounded (run digest s cs)
  unfolding run
  run-IsBounded s [] h = h
  run-IsBounded s (c ∷ cs) h = run-IsBounded (step digest s c) cs (step-IsBounded s c h)

  attempt_grows :
      (now : ℕ) (b : TunnelTicketBinding) (ticket : List ℕ) (s : TicketStore)
      {r : TicketStore × (List ℕ × ℕ)}
      → issue_attempt digest now b ticket s ≡ some r
      → (length r.0.tickets ≡ suc (length s.tickets)) × (r.0.max_outstanding ≡ s.max_outstanding)
  unfolding issue_attempt
  attempt_grows now b ticket s e = ground (
    arith,
    get-has s.tickets (ticket_verifier digest ticket),
    length-set_new s.tickets (ticket_verifier digest ticket)
        (record { binding = b; expires_at = now + s.ttl_ms }),
  )

  -- Two calls of `issue` with valid bindings and unused verifiers that both check before either
  -- inserts are both admitted, and take a store with one free place beyond `maxOutstanding`.
  pub overlapping_issues_exceed :
      (now : ℕ) (first second : TunnelTicketBinding) (s one two : TicketStore)
      (ticket ticket' : List ℕ) (grant grant' : List ℕ × ℕ)
      → is_binding first ≡ true
      → is_binding second ≡ true
      → suc (length (sweep_expired now s).0.tickets) ≡ s.max_outstanding
      → issue_attempt digest now first ticket (sweep_expired now s).0 ≡ some (one, grant)
      → issue_attempt digest now second ticket' one ≡ some (two, grant')
      → (issue_admit now first s ≡ ok (sweep_expired now s).0)
        × (issue_admit now second (sweep_expired now s).0 ≡ ok (sweep_expired now s).0)
        × (two.max_outstanding < length two.tickets)
  overlapping_issues_exceed now first second s one two ticket ticket' grant grant' b b' full e e' =
      let swept = (sweep_expired now s).0 in
      let again : (sweep_expired now swept).0 ≡ swept = sweep_again now s in
      (
        admits now first s b (omega (arith, full, sweep-max now s)),
        (rw again at
            (admits now second swept b' (rw again (omega (arith, full, sweep-max now s))))),
        omega (
          arith,
          attempt_grows now first ticket swept e,
          attempt_grows now second ticket' one e',
          full,
          sweep-max now s,
        ),
      )

  -- What `issue` returns is stored under its verifier, with its binding and its expiry.
  pub record IsIssued (s : TicketStore) (ticket : List ℕ) (b : TunnelTicketBinding) (expires_at : ℕ)
      : Type 0 where
    pub checked : is_binding b ≡ true
    pub held :
        get s.tickets (ticket_verifier digest ticket)
        ≡ some (record { binding = b; expires_at = expires_at })

  attempt_held :
      (now : ℕ) (b : TunnelTicketBinding) (drawn : List ℕ) (s s' : TicketStore) (ticket : List ℕ)
      (expires_at : ℕ)
      → issue_attempt digest now b drawn s ≡ some (s', (ticket, expires_at))
      → get s'.tickets (ticket_verifier digest ticket)
        ≡ some (record { binding = b; expires_at = expires_at })
  unfolding issue_attempt
  attempt_held now b drawn s s' ticket expires_at e = ground (
    arith,
    get-set_self s.tickets (ticket_verifier digest drawn)
        (record { binding = b; expires_at = now + s.ttl_ms }),
  )

  loop_held :
      (attempts i : ℕ) (clock : ℕ → ℕ) (random : ℕ → List ℕ) (b : TunnelTicketBinding)
      (s s' : TicketStore) (ticket : List ℕ) (expires_at : ℕ)
      → issue_loop digest attempts i clock random b s ≡ ok (s', (ticket, expires_at))
      → get s'.tickets (ticket_verifier digest ticket)
        ≡ some (record { binding = b; expires_at = expires_at })
  unfolding issue_loop
  loop_held zero i clock random b s s' ticket expires_at h = cc
  loop_held (suc n) i clock random b s s' ticket expires_at h =
      elim (Option-cases (issue_attempt digest (clock i) b (random i) s)) [
        | inl e ↦ loop_held n (i + 1) clock random b s s' ticket expires_at (ground (arith, e, h))
        | inr (r, e) ↦
            attempt_held (clock i) b (random i) s s' ticket expires_at (ground (arith, e, h))
      ]

  issued_admitted :
      (now : ℕ) (clock : ℕ → ℕ) (random : ℕ → List ℕ) (b : TunnelTicketBinding) (s : TicketStore)
      → issue_admit now b s ≡ ok (sweep_expired now s).0
      → issue digest now clock random b s
        ≡ issue_loop digest 4 0 clock random b (sweep_expired now s).0
  unfolding issue
  issued_admitted now clock random b s e = rw (e, issue)

  issue-IsIssued :
      (now : ℕ) (clock : ℕ → ℕ) (random : ℕ → List ℕ) (b : TunnelTicketBinding) (s s' : TicketStore)
      (ticket : List ℕ) (expires_at : ℕ)
      → issue digest now clock random b s ≡ ok (s', (ticket, expires_at))
      → IsIssued s' ticket b expires_at
  unfolding issue issue_admit
  issue-IsIssued now clock random b s s' ticket expires_at h = record {
    checked = ground arith;
    held = elim (issue_admit_cases now b s) [
      | inl admitted ↦
          loop_held 4 0 clock random b (sweep_expired now s).0 s' ticket expires_at
            (rw (← issued_admitted now clock random b s admitted) h)
      | inr (k, refused) ↦ absurd (ground (arith, refused, h))
    ];
  }

  -- A ticket of 32 bytes just issued is accepted from its holder up to its expiry, and refused after
  -- it.
  pub consume-issue :
      (now : ℕ) (clock : ℕ → ℕ) (random : ℕ → List ℕ) (b : TunnelTicketBinding) (s s' : TicketStore)
      (ticket : List ℕ) (expires_at later : ℕ)
      → length ticket ≡ tunnel_ticket_bytes
      → issue digest now clock random b s ≡ ok (s', (ticket, expires_at))
      → (consume digest later ticket b s').1
        ≡ (if ltb expires_at later then err rejected else ok tt)
  unfolding consume is_expired
  consume-issue now clock random b s s' ticket expires_at later sized h =
      let i = issue-IsIssued now clock random b s s' ticket expires_at h in
      ground (arith, i.checked, i.held, sized, same_binding_refl b)
