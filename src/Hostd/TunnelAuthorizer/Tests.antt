-- ===== src/Hostd/TunnelAuthorizer/Tests.antt =====
-- The theorems on the tunnel gate at inputs that meet their hypotheses.
use studiobox.Common.{ℕ, ◌≡◌, refl, Option, some, false, List, [], ◌∷◌, replicate, string_eq}
use studiobox.Common.JsNumber.{nat, safe_nat}
use studiobox.Common.Codes.{codes_eq, codes_beq, hex}
use studiobox.Common.Map.{get}
use studiobox.Security.Tickets.{
  TicketStore, TunnelTicketBinding, consume, ticket_verifier, ok, same_binding, is_binding,
  is_expired,
}
use studiobox.Hostd.TunnelAuthorizer.{PrivilegedBridgeRequest, authorize_and_open, check_request}
use studiobox.Hostd.TunnelAuthorizer.Gate.{Opens, authorize_opens}

abbrev plain : List ℕ → List ℕ
plain bytes = bytes

abbrev bound : TunnelTicketBinding
bound = record { session_id = "s"; sandbox_id = "a"; boot_nonce = "n"; lease_generation = nat 1 }

abbrev sample : List ℕ
sample = replicate 32 7

abbrev one_ticket : TicketStore
one_ticket = record {
  ttl_ms = 15_000;
  max_outstanding = 1;
  tickets = (ticket_verifier plain sample, record { binding = bound; expires_at = 15_100 }) ∷ [];
}

abbrev target : PrivilegedBridgeRequest
target = record { sandbox_id = "a"; execution_id = b'e' ∷ []; guest_port = nat 8080 }

abbrev dialler : PrivilegedBridgeRequest → Option ℕ
dialler request = some 5

consumed : (consume plain 200 sample bound one_ticket).1 ≡ ok tt
unfolding consume get same_binding is_binding safe_nat is_expired codes_beq hex
consumed = refl

opened_lem :
    (authorize_and_open plain ℕ dialler 200 sample bound target false one_ticket).opened
    ≡ target ∷ []
unfolding authorize_and_open consume get same_binding is_binding safe_nat is_expired check_request
    codes_beq hex
opened_lem = refl

authorize_opens_example : Opens plain ℕ dialler 200 sample bound target false one_ticket
authorize_opens_example =
    authorize_opens plain ℕ dialler 200 sample bound target false one_ticket (λ e. cc opened_lem)
