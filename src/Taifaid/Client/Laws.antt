-- ===== src/Taifaid/Client/Laws.antt =====
-- About internal/taifaid/client.go: the answers that the client accepts.
use Prim.Native.String.{◌++◌ as ◌⋯◌}
use taifa_exchange.Outcome.{◌>>=◌, bind-ok, ok, wrap, wrap-ok}
use taifa_exchange.Base.{
  Bool-cases, String, ◌≡◌, ◌≤◌, ◌<◌, ◌∙◌, arith, false, inl, inr, ap, subst, Option, ne_of_test,
  none, some, true, ◌==◌, ◌∷◌, ◌≢◌,
}
use taifa_exchange.Taifaid.Client.{
  HttpRequest, HttpResponse, Network, exchange, failed, Client, base_of, correlation_header, get,
  is_configured, list_organization_capabilities, post, post_json, resolve_actor_context,
}
use taifa_exchange.Taifaid.Dto.{ActorContextResponse, CapabilitiesResponse}
use taifa_exchange.Text.{trim_space}

module _ (network : Network) where
  -- The network answered the request with a status from 200 to 299.
  pub record Accepted (request : HttpRequest) (response : HttpResponse) : Type 0 where
    pub created : HttpRequest
    pub made : network.new_request request ≡ ok created
    pub answered : network.send created ≡ ok response
    pub at_least : 200 ≤ response.status_code
    pub below : response.status_code < 300

  accepted_status :
      (r : HttpResponse) → failed r ≡ false → (200 ≤ r.status_code) × (r.status_code < 300)
  accepted_status r h = (ground arith, ground arith)

  pub exchange-ok :
      (creating calling failing : String) (request : HttpRequest) (response : HttpResponse)
      → exchange network creating calling failing request ≡ ok response
      → Accepted request response
  unfolding exchange
  exchange-ok creating calling failing request response h =
      let (created, made, rest) =
        bind-ok (wrap creating (network.new_request request)) _ response h in
      let (answer, sent, tested) = bind-ok (wrap calling (network.send created)) _ response rest in
      elim (Bool-cases (failed answer)) [
        | inl bad ↦ absurd (ground arith)
        | inr good ↦
            let same : answer ≡ response = ground arith in
            let status = accepted_status response (subst (λ x. failed x ≡ false) same good) in
            record {
              created = created;
              made = wrap-ok creating _ created made;
              answered = wrap-ok calling _ answer sent ∙ ap ok same;
              at_least = status.0;
              below = status.1;
            }
      ]

  module _ (client : Option Client) (correlation_id : String) where
    abbrev pub resolve_request : String → String → HttpRequest
    resolve_request token organization_id = record {
      method = post;
      url = base_of client ⋯ "/api/v1/actor-context/resolve";
      headers =
          ("Content-Type", "application/json")
          ∷ ("Accept", "application/json")
          ∷ correlation_header correlation_id;
      body =
          some (record { token = trim_space token; organization_id = trim_space organization_id });
    }

    -- The answer that ResolveActorContext accepted.
    pub record Resolved (token organization_id : String) (a : ActorContextResponse) : Type 0 where
      pub configured : is_configured client ≡ true
      pub has_token : trim_space token ≢ ""
      pub has_organization : trim_space organization_id ≢ ""
      pub response : HttpResponse
      pub accepted : Accepted (resolve_request token organization_id) response
      pub decoded : response.body.as_actor_context ≡ ok a

    -- An actor context that ResolveActorContext returns was decoded from an answer with a status
    -- from 200 to 299 to the POST request with the trimmed token and organization; the client has a
    -- base URL, and neither of the two is blank.
    pub resolve_actor_context-ok :
        (token organization_id : String) (a : ActorContextResponse)
        → resolve_actor_context network client token organization_id correlation_id ≡ ok a
        → Resolved token organization_id a
    unfolding resolve_actor_context post_json
    resolve_actor_context-ok token organization_id a h = elim (Bool-cases (is_configured client)) [
      | inr off ↦ absurd (ground arith)
      | inl on ↦ elim (Bool-cases (trim_space token == "")) [
        | inl blank ↦ absurd (ground arith)
        | inr has_token ↦ elim (Bool-cases (trim_space organization_id == "")) [
          | inl blank ↦ absurd (ground arith)
          | inr has_organization ↦
              let sent : (do
                response ←
                    exchange network "create taifa-id request" "call taifa-id"
                      "taifa-id request failed" (resolve_request token organization_id)
                wrap "decode taifa-id response" response.body.as_actor_context)
                  ≡ ok a =
                ground arith in
              let (response, answered, decoded) = bind-ok (exchange network _ _ _ _) _ a sent in
              record {
                configured = on;
                has_token = ne_of_test _ _ has_token;
                has_organization = ne_of_test _ _ has_organization;
                response = response;
                accepted = exchange-ok _ _ _ _ response answered;
                decoded = wrap-ok _ _ a decoded;
              }
        ]
      ]
    ]

    abbrev pub capabilities_request : String → HttpRequest
    capabilities_request organization_id = record {
      method = get;
      url =
          base_of client
          ⋯ ("/api/v1/organizations/"
              ⋯ (network.path_escape (trim_space organization_id) ⋯ "/capabilities"));
      headers = correlation_header correlation_id;
      body = none;
    }

    -- The answer that ListOrganizationCapabilities accepted.
    pub record Listed (organization_id : String) (c : CapabilitiesResponse) : Type 0 where
      pub configured : is_configured client ≡ true
      pub has_organization : trim_space organization_id ≢ ""
      pub response : HttpResponse
      pub accepted : Accepted (capabilities_request organization_id) response
      pub decoded : response.body.as_capabilities ≡ ok c

    -- Capabilities that ListOrganizationCapabilities returns were decoded from an answer with a
    -- status from 200 to 299 to the GET request for the trimmed and escaped organization; the
    -- client has a base URL and the organization is not blank.
    pub list_organization_capabilities-ok :
        (organization_id : String) (c : CapabilitiesResponse)
        → list_organization_capabilities network client organization_id correlation_id ≡ ok c
        → Listed organization_id c
    unfolding list_organization_capabilities
    list_organization_capabilities-ok organization_id c h =
        elim (Bool-cases (is_configured client)) [
          | inr off ↦ absurd (ground arith)
          | inl on ↦ elim (Bool-cases (trim_space organization_id == "")) [
            | inl blank ↦ absurd (ground arith)
            | inr has_organization ↦
                let sent : (do
                  response ←
                      exchange network "create taifa-id capabilities request"
                        "call taifa-id capabilities" "taifa-id capabilities lookup failed"
                        (capabilities_request organization_id)
                  wrap "decode taifa-id capabilities response" response.body.as_capabilities)
                    ≡ ok c =
                  ground arith in
                let (response, answered, decoded) = bind-ok (exchange network _ _ _ _) _ c sent in
                record {
                  configured = on;
                  has_organization = ne_of_test _ _ has_organization;
                  response = response;
                  accepted = exchange-ok _ _ _ _ response answered;
                  decoded = wrap-ok _ _ c decoded;
                }
          ]
        ]
