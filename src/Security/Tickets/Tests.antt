-- ===== src/Security/Tickets/Tests.antt =====
-- Runs of the ticket store, and each theorem at an input that meets its hypotheses.
use studiobox.Common.{ℕ, ◌<◌, ◌≡◌, refl, ◌≢◌, List, [], ◌∷◌, arith, none, some, length, string_eq}
use studiobox.Common.JsNumber.{nat, safe_nat, safe_positive}
use studiobox.Common.Codes.{codes_eq, codes_beq, hex}
use studiobox.Common.Map.{get, set, has, reject}
use studiobox.Security.Tickets.{
  TunnelTicketBinding, StoredTicket, TicketStore, ok, err, rejected, is_binding, same_binding,
  is_expired, revoke_sandbox, sweep_expired, ticket_verifier, issue_admit, issue_attempt,
  issue_loop, issue, consume,
}
use studiobox.Common.{replicate}
use studiobox.Security.Tickets.{create_store, same_binding}
use studiobox.Security.Tickets.Revoke.{consume-revoke_sandbox}
use studiobox.Security.Tickets.History.{issues, sweeps, run, single_use}
use studiobox.Security.Tickets.Outstanding.{
  IsBounded, run-IsBounded, overlapping_issues_exceed, consume-issue,
}

-- A stand-in for SHA-256.
abbrev plain : List ℕ → List ℕ
plain bytes = bytes

abbrev empty_store : TicketStore
empty_store = record { ttl_ms = 15_000; max_outstanding = 1; tickets = [] }

create_store_run : create_store none (some (nat 1)) ≡ ok empty_store
unfolding create_store safe_positive
create_store_run = refl

abbrev bound : TunnelTicketBinding
bound = record { session_id = "s"; sandbox_id = "a"; boot_nonce = "n"; lease_generation = nat 1 }

abbrev foreign : TunnelTicketBinding
foreign = record { session_id = "s"; sandbox_id = "b"; boot_nonce = "n"; lease_generation = nat 1 }

abbrev sample : List ℕ
sample = replicate 32 7

abbrev other_sample : List ℕ
other_sample = replicate 32 8

abbrev stored : StoredTicket
stored = record { binding = bound; expires_at = 15_100 }

abbrev one_ticket : TicketStore
one_ticket = record empty_store { tickets = (ticket_verifier plain sample, stored) ∷ [] }

consumed : (consume plain 200 sample bound one_ticket).1 ≡ ok tt
unfolding consume get same_binding is_binding safe_nat is_expired codes_beq hex
consumed = refl

consume-revoke_sandbox_example :
    (consume plain 200 sample bound (revoke_sandbox "a" one_ticket).0).1 ≡ err rejected
unfolding get is_binding safe_nat
consume-revoke_sandbox_example =
    consume-revoke_sandbox plain 200 sample bound one_ticket "a" (refl, tt) refl refl

single_use_example :
    (consume plain 400 sample bound
      (run plain (consume plain 200 sample bound one_ticket).0 (sweeps 300 ∷ []))).1
    ≢ ok tt
single_use_example =
    single_use plain 200 sample bound one_ticket (sweeps 300 ∷ []) 400 bound (tt, tt) consumed

run-IsBounded_example :
    IsBounded (run plain empty_store (issues 0 (λ i. 0) (λ i. sample) bound ∷ []))
run-IsBounded_example =
    run-IsBounded plain empty_store (issues 0 (λ i. 0) (λ i. sample) bound ∷ []) (omega arith)

issued_one :
    issue plain 100 (λ i. 100) (λ i. sample) bound empty_store ≡ ok (one_ticket, (sample, 15_100))
unfolding issue issue_admit issue_loop issue_attempt reject has set safe_nat
issued_one = refl

consume-issue_example : (consume plain 15_101 sample bound one_ticket).1 ≡ err rejected
consume-issue_example =
    consume-issue plain 100 (λ i. 100) (λ i. sample) bound empty_store one_ticket sample 15_100
      15_101 refl issued_one

abbrev two_tickets : TicketStore
two_tickets = record empty_store {
  tickets =
      (ticket_verifier plain sample, stored) ∷ (ticket_verifier plain other_sample, stored) ∷ [];
}

overlapping_issues_exceed_example :
    (issue_admit 100 bound empty_store ≡ ok (sweep_expired 100 empty_store).0)
    × (issue_admit 100 bound (sweep_expired 100 empty_store).0
        ≡ ok (sweep_expired 100 empty_store).0)
    × (two_tickets.max_outstanding < length two_tickets.tickets)
unfolding is_binding safe_nat sweep_expired issue_attempt reject has set ticket_verifier codes_beq
    hex
overlapping_issues_exceed_example =
    overlapping_issues_exceed plain 100 bound bound empty_store one_ticket two_tickets sample
      other_sample (sample, 15_100) (other_sample, 15_100) refl refl refl refl refl
