-- ===== src/Exchange/Handler/Recorded.antt =====
-- About internal/exchange/handler.go, Handler.Authorize: its response, the tables and the log.
use taifa_exchange.Base.{
  none, some, ◌≡◌, ◌∙◌, ap, refl, Bool-cases, inl, inr, ℕ, ◌==◌, if◌then◌else◌, sym,
}
use taifa_exchange.Database.Session.{Session}
use taifa_exchange.Exchange.Handler.{decode_json, handle, respond}
use taifa_exchange.Exchange.Handler.Laws.{
  handle-allow_iff, handler, input_of, response, status_of, handle-err, handle-ok,
}
use taifa_exchange.Exchange.Model.{AuthorizeRequest, AuthorizeResult, decision_allow}
use taifa_exchange.Exchange.Service.{Service, Surroundings, authorize}
use taifa_exchange.Exchange.Service.Laws.{recorded}
use taifa_exchange.Exchange.Service.Outcomes.{authorize-ok}
use taifa_exchange.Exchange.Service.Decisions.{Granted, authorize-allow_iff}
use taifa_exchange.Httpserver.Writer.{Context, Request, Writer, write_data, write_error, write_json}
use taifa_exchange.Outcome.{ok, Result, Result-cases, err}
use taifa_exchange.Httpserver.Writer.{Payload, goes_through}
use taifa_exchange.Httpserver.Writer.Laws.{write_json-recorded, write_json-sent}
use taifa_exchange.Text.{Unicode}

module _ ⦃u : Unicode⦄ (env : Surroundings) (service : Service) (r : Request) (context : Context)
    (w : Writer) (s : Session) where
  handle-session :
      (q : AuthorizeRequest)
      → decode_json r ≡ ok q
      → (handle env (handler env service r context w s) r context w s).1
        ≡ (authorize env (some service) (input_of env service r context w s q) s).1
  unfolding handle
  handle-session q h = rw (handle, h) refl

  -- An authorization that was granted and that the tables hold.
  pub record GrantedAndKept : Type 0 where
    pub request : AuthorizeRequest
    pub decoded : decode_json r ≡ ok request
    pub granted : Granted env (some service) (input_of env service r context w s request) s
    pub result : AuthorizeResult
    pub allowed : result.decision_record.decision ≡ decision_allow
    pub rows :
        (handle env (handler env service r context w s) r context w s).1.tables
        ≡ recorded env result s.tables

  -- For a response writer with nothing sent, where the handler sends the status 200 the request in
  -- the body was granted, by both answers of the identity service and the policy in the tables, and
  -- the tables at the end have the rows of an ALLOW and of its audit event.
  pub handle-GrantedAndKept :
      w.sent ≡ none → status_of (response env service r context w s).sent ≡ 200 → GrantedAndKept
  handle-GrantedAndKept new status =
      let (result, came, allow) = (handle-allow_iff env service r context w s new).0 status in
      let input = input_of env service r context w s came.request in
      let kept = authorize-ok env (some service) input s result came.returned in
      record {
        request = came.request;
        decoded = came.decoded;
        granted = (authorize-allow_iff env (some service) input s result came.returned).0 allow;
        result = result;
        allowed = allow;
        rows =
            ap (λ (x : Session). x.tables) (handle-session came.request came.decoded) ∙ kept.rows;
      }

  -- The recorder holds the status that was sent, or 500 where the write of the body failed.
  abbrev pub IsRecorded : Writer → Type 0
  IsRecorded x = x.recorded ≡ (if goes_through w.writes then status_of x.sent else 500)

  write_json-IsRecorded :
      (status : ℕ) (payload : Payload) → w.sent ≡ none → IsRecorded (write_json status payload w)
  write_json-IsRecorded status payload new =
      write_json-recorded status payload w
      ∙ ap (λ (n : ℕ). if goes_through w.writes then n else 500)
          (sym (ap status_of (write_json-sent status payload w new)))

  respond-IsRecorded :
      (x : Result AuthorizeResult) → w.sent ≡ none → IsRecorded (respond context x w)
  unfolding respond write_error write_data
  respond-IsRecorded (err e) new = write_json-IsRecorded _ _ new
  respond-IsRecorded (ok result) new =
      elim (Bool-cases (result.decision_record.decision == decision_allow)) [
        | inl y ↦ rw y (write_json-IsRecorded _ _ new)
        | inr n ↦ rw n (write_json-IsRecorded _ _ new)
      ]

  pub handle-IsRecorded : w.sent ≡ none → IsRecorded (response env service r context w s)
  unfolding write_error
  handle-IsRecorded new = elim (Result-cases (decode_json r)) [
    | inl (e, h) ↦ rw (handle-err env service r context w s e h) (write_json-IsRecorded _ _ new)
    | inr (q, h) ↦ rw (handle-ok env service r context w s q h) (respond-IsRecorded _ new)
  ]
