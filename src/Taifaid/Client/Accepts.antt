-- ===== src/Taifaid/Client/Accepts.antt =====
-- About internal/taifaid/client.go: exactly the answers that the client accepts.
use Prim.Native.String.{◌++◌ as ◌⋯◌}
use taifa_exchange.Base.{
  test_of_ne, ap, sym, ◌∙◌, none, refl, Option, String, arith, false, ◌≡◌, ◌==◌, eq_iff, Bool-cases,
  inl, inr, true, ◌↔◌,
}
use taifa_exchange.Outcome.{◌>>=◌, bind-ok, ok, wrap, wrap-ok}
use taifa_exchange.Taifaid.Client.{
  Client, HttpRequest, HttpResponse, Network, base_of, check_status, correlation_header, get,
  is_configured, ready, exchange, failed, post_json, resolve_actor_context,
  list_organization_capabilities,
}
use taifa_exchange.Taifaid.Client.Laws.{
  Accepted, Resolved, Listed, exchange-ok, resolve_actor_context-ok,
  list_organization_capabilities-ok,
}
use taifa_exchange.Taifaid.Dto.{ActorContextResponse, CapabilitiesResponse, ReadyResponse}

module _ (network : Network) where
  accepted_passes :
      (request : HttpRequest) (r : HttpResponse) → Accepted network request r → failed r ≡ false
  accepted_passes request r a = let low = a.at_least in let high = a.below in ground arith

  exchange-Accepted :
      (creating calling failing : String) (request : HttpRequest) (response : HttpResponse)
      → Accepted network request response
      → exchange network creating calling failing request ≡ ok response
  unfolding exchange
  exchange-Accepted creating calling failing request response a =
      rw a.made rw a.answered rw (accepted_passes request response a) refl

  module _ (client : Option Client) (correlation_id : String) where
    resolve_actor_context-Resolved :
        (token organization_id : String) (a : ActorContextResponse)
        → Resolved network client correlation_id token organization_id a
        → resolve_actor_context network client token organization_id correlation_id ≡ ok a
    unfolding resolve_actor_context post_json
    resolve_actor_context-Resolved token organization_id a h =
        rw h.configured rw (test_of_ne _ _ h.has_token) rw (test_of_ne _ _ h.has_organization) rw
          (exchange-Accepted "create taifa-id request" "call taifa-id" "taifa-id request failed" _ _
            h.accepted)
          rw h.decoded refl

    list_organization_capabilities-Listed :
        (organization_id : String) (c : CapabilitiesResponse)
        → Listed network client correlation_id organization_id c
        → list_organization_capabilities network client organization_id correlation_id ≡ ok c
    unfolding list_organization_capabilities
    list_organization_capabilities-Listed organization_id c h =
        rw h.configured rw (test_of_ne _ _ h.has_organization) rw
          (exchange-Accepted "create taifa-id capabilities request" "call taifa-id capabilities"
            "taifa-id capabilities lookup failed" _ _ h.accepted)
          rw h.decoded refl

    abbrev pub ready_request : HttpRequest
    ready_request = record {
      method = get;
      url = base_of client ⋯ "/readyz";
      headers = correlation_header correlation_id;
      body = none;
    }

    -- The answer that Ready accepted.
    pub record SaidReady (r : ReadyResponse) : Type 0 where
      pub configured : is_configured client ≡ true
      pub response : HttpResponse
      pub accepted : Accepted network ready_request response
      pub decoded : response.body.as_ready ≡ ok r
      pub status : r.status ≡ "ok"

    check_status-ok :
        (x r : ReadyResponse) → check_status network x ≡ ok r → (x ≡ r) × (r.status ≡ "ok")
    check_status-ok x r h = elim (Bool-cases (x.status == "ok")) [
      | inl good ↦
          let same : x ≡ r = ground arith in
          (same, ap (λ (y : ReadyResponse). y.status) (sym same) ∙ (eq_iff _ _).0 good)
      | inr bad ↦ absurd (ground arith)
    ]

    ready-ok : (r : ReadyResponse) → ready network client correlation_id ≡ ok r → SaidReady r
    unfolding ready
    ready-ok r h = elim (Bool-cases (is_configured client)) [
      | inr off ↦ absurd (ground arith)
      | inl on ↦
          let sent : (do
            response ←
                exchange network "create taifa-id readiness request" "call taifa-id readiness"
                  "taifa-id readiness failed" ready_request
            decoded ← wrap "decode taifa-id readiness response" response.body.as_ready
            check_status network decoded)
              ≡ ok r =
            ground arith in
          let (response, answered, rest) = bind-ok (exchange network _ _ _ _) _ r sent in
          let (x, decoded, checked) = bind-ok (wrap _ response.body.as_ready) _ r rest in
          let (same, status) = check_status-ok x r checked in
          record {
            configured = on;
            response = response;
            accepted = exchange-ok network _ _ _ _ response answered;
            decoded = wrap-ok _ _ x decoded ∙ ap ok same;
            status = status;
          }
    ]

    ready-SaidReady : (r : ReadyResponse) → SaidReady r → ready network client correlation_id ≡ ok r
    unfolding ready
    ready-SaidReady r h =
        rw h.configured rw
          (exchange-Accepted "create taifa-id readiness request" "call taifa-id readiness"
            "taifa-id readiness failed" _ _ h.accepted)
          rw h.decoded rw h.status refl

    -- ResolveActorContext returns an actor context exactly if the client has a base URL, neither
    -- the token nor the organization is blank, and the network answers the POST request with the
    -- two, trimmed, with a status from 200 to 299 and a body that decodes to this context.
    pub resolve_actor_context_iff :
        (token organization_id : String) (a : ActorContextResponse)
        → (resolve_actor_context network client token organization_id correlation_id ≡ ok a)
          ↔ Resolved network client correlation_id token organization_id a
    resolve_actor_context_iff token organization_id a = (
      resolve_actor_context-ok network client correlation_id token organization_id a,
      resolve_actor_context-Resolved token organization_id a,
    )

    -- ListOrganizationCapabilities returns capabilities exactly if the client has a base URL, the
    -- organization is not blank, and the network answers the GET request for the organization,
    -- trimmed and escaped, with a status from 200 to 299 and a body that decodes to these
    -- capabilities.
    pub list_organization_capabilities_iff :
        (organization_id : String) (c : CapabilitiesResponse)
        → (list_organization_capabilities network client organization_id correlation_id ≡ ok c)
          ↔ Listed network client correlation_id organization_id c
    list_organization_capabilities_iff organization_id c = (
      list_organization_capabilities-ok network client correlation_id organization_id c,
      list_organization_capabilities-Listed organization_id c,
    )

    -- Ready returns an answer exactly if the client has a base URL, the network answers the GET
    -- request for /readyz with a status from 200 to 299 and a body that decodes to this answer, and
    -- its status is ok.
    pub ready_iff : (r : ReadyResponse) → (ready network client correlation_id ≡ ok r) ↔ SaidReady r
    ready_iff r = (ready-ok r, ready-SaidReady r)
