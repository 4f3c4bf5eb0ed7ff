-- ===== src/Exchange/Handler/Laws.antt =====
-- About internal/exchange/handler.go, Handler.Authorize: its response and the result of the
-- service.
use taifa_exchange.Base.{
  Option, ℕ, [], ◌∷◌, ◌≡◌, ◌≢◌, ◌⊎◌, ◌∙◌, In, arith, inl, inr, none, some, refl, ap, sym, ◌↔◌,
  eq_iff, test_of_ne, true, ◌==◌,
}
use taifa_exchange.Database.Session.{Session}
use taifa_exchange.Exchange.Handler.{
  Handler, bearer_token_from_request, decode_json, handle, respond,
}
use taifa_exchange.Exchange.Model.{
  AuthorizeInput, AuthorizeRequest, AuthorizeResult, decision_allow,
}
use taifa_exchange.Exchange.Service.{Service, Surroundings, authorize}
use taifa_exchange.Exchange.Service.Decisions.{IsAllow, IsDeny, authorize_shape}
use taifa_exchange.Httpserver.Writer.{
  Context, Request, Sent, Writer, correlation_id_from_context, write_data, write_error,
}
use taifa_exchange.Outcome.{Result, err, ok, Result-cases, Error}
use taifa_exchange.Httpserver.Writer.Laws.{write_json-sent}
use taifa_exchange.Text.{Unicode}

-- The status that was sent, and 0 where nothing was.
abbrev pub status_of : Option Sent → ℕ
status_of none = 0
status_of (some x) = x.status

module _ ⦃u : Unicode⦄ (env : Surroundings) (service : Service) (r : Request) (context : Context)
    (w : Writer) (s : Session) where
  abbrev pub handler : Option Handler
  handler = some (record { service = some service })

  abbrev pub input_of : AuthorizeRequest → AuthorizeInput
  input_of request = record {
    token = bearer_token_from_request r;
    correlation_id = correlation_id_from_context context;
    request = request;
  }

  abbrev pub response : Writer
  response = (handle env handler r context w s).0

  -- Authorize came to this result for the request in the body.
  pub record Came (result : AuthorizeResult) : Type 0 where
    pub request : AuthorizeRequest
    pub decoded : decode_json r ≡ ok request
    pub returned : (authorize env (some service) (input_of request) s).0 ≡ ok result

  not_200 : (n : ℕ) → In n (400 ∷ 401 ∷ 403 ∷ 502 ∷ 503 ∷ []) → n ≢ 200
  not_200 n h e = ground arith

  not_500 : (let n : ℕ = 500 in n) ≢ 200
  not_500 h = ground arith

  not_400 : (let n : ℕ = 400 in n) ≢ 200
  not_400 h = ground arith

  respond-allow :
      (result : AuthorizeResult)
      → result.decision_record.decision ≡ decision_allow
      → w.sent ≡ none
      → status_of (respond context (ok result) w).sent ≡ 200
  unfolding respond write_data
  respond-allow result y new =
      let test : (result.decision_record.decision == decision_allow) ≡ true = (eq_iff _ _).1 y in
      rw test (ap status_of (write_json-sent 200 _ w new))

  respond-deny :
      (result : AuthorizeResult)
      → result.decision_record.decision ≢ decision_allow
      → w.sent ≡ none
      → status_of (respond context (ok result) w).sent ≡ result.http_status_code
  unfolding respond write_error
  respond-deny result n new =
      rw (test_of_ne _ _ n) (ap status_of (write_json-sent result.http_status_code _ w new))

  respond-err : (e : Error) → w.sent ≡ none → status_of (respond context (err e) w).sent ≡ 500
  unfolding respond write_error
  respond-err e new = ap status_of (write_json-sent 500 _ w new)

  respond_status :
      (input : AuthorizeInput) (x : Result AuthorizeResult)
      → w.sent ≡ none
      → ((result : AuthorizeResult)
          → x ≡ ok result
          → IsAllow env (some service) input s result ⊎ IsDeny env (some service) input s result)
      → (status_of (respond context x w).sent ≡ 200) ↔ (
          (result : AuthorizeResult) × (x ≡ ok result)
          × (result.decision_record.decision ≡ decision_allow))
  respond_status input (err e) new shaped =
      (λ h. absurd (not_500 (sym (respond-err e new) ∙ h)), λ (result, h, k). cc)
  respond_status input (ok result) new shaped = elim (shaped result refl) [
    | inl y ↦ (λ h. (result, refl, y.decision), λ _. respond-allow result y.decision new)
    | inr n ↦
        let no : result.decision_record.decision ≢ decision_allow =
          λ k. (let d = n.decision in cc) in
        (
          λ h. absurd (not_200 _ n.status (sym (respond-deny result no new) ∙ h)),
          λ (other, h, k). absurd (no (let k' = k in cc)),
        )
  ]

  pub handle-ok :
      (q : AuthorizeRequest)
      → decode_json r ≡ ok q
      → (handle env handler r context w s).0
        ≡ respond context (authorize env (some service) (input_of q) s).0 w
  unfolding handle
  handle-ok q h = rw (handle, h) refl

  pub handle-err :
      (e : Error)
      → decode_json r ≡ err e
      → (handle env handler r context w s).0
        ≡ write_error context 400 "INVALID_JSON" "Request body must be valid JSON." w
  unfolding handle
  handle-err e h = rw (handle, h) refl

  handle-bad_json :
      (e : Error) → decode_json r ≡ err e → w.sent ≡ none → status_of response.sent ≡ 400
  unfolding write_error
  handle-bad_json e h new =
      ap (λ (x : Writer). status_of x.sent) (handle-err e h)
      ∙ ap status_of (write_json-sent 400 _ w new)

  -- For a response writer with nothing sent, the handler sends the status 200 exactly if the body
  -- decodes to a request for which Authorize returns a result with the decision ALLOW.
  pub handle-allow_iff :
      w.sent ≡ none
      → (status_of response.sent ≡ 200) ↔ (
          (result : AuthorizeResult) × Came result
          × (result.decision_record.decision ≡ decision_allow))
  handle-allow_iff new = elim (Result-cases (decode_json r)) [
    | inl (e, h) ↦ (
      λ k. absurd (not_400 (sym (handle-bad_json e h new) ∙ k)),
      λ (result, came, k). (let decoded = came.decoded in cc),
    )
    | inr (q, h) ↦
        let same : status_of response.sent
            ≡ status_of (respond context (authorize env (some service) (input_of q) s).0 w).sent =
          ap (λ (x : Writer). status_of x.sent) (handle-ok q h) in
        let iff =
          respond_status (input_of q) (authorize env (some service) (input_of q) s).0 new
            (authorize_shape env (some service) (input_of q) s) in
        (
          λ k.
              (let (result, came, allow) = iff.0 (sym same ∙ k) in
                (result, record { request = q; decoded = h; returned = came }, allow)),
          λ (result, came, allow).
              (let same_request : q ≡ came.request = (let decoded = came.decoded in cc) in
                same
                ∙ iff.1 (
                  result,
                  ap (λ x. (authorize env (some service) (input_of x) s).0) same_request
                      ∙ came.returned,
                  allow,
                )),
        )
  ]
