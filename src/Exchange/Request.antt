-- ===== src/Exchange/Request.antt =====
-- internal/exchange/service.go: the request before any dependency is asked.
pub mod Laws
use taifa_exchange.Base.{String, if◌then◌else◌, not, ℕ, ◌==◌}
use taifa_exchange.Exchange.Model.{
  AuthorizeRequest, error_code_unauthorized, error_code_validation, is_known_method,
  is_known_target_system, missing_method, missing_operation, missing_organization_id, missing_route,
  missing_target_system, missing_token, unsupported_method, unsupported_target_system,
}
use taifa_exchange.Text.{Unicode, normal, trim_space}

-- `(denyReason, statusCode, errorCode)`; the empty reason stands for a valid request.
pub record Refusal : Type 0 where
  pub deny_reason : String
  pub status_code : ℕ
  pub error_code : String

abbrev pub accepted : Refusal
accepted = record { deny_reason = ""; status_code = 0; error_code = "" }

abbrev pub bad_request : String → Refusal
bad_request reason = record {
  deny_reason = reason;
  status_code = 400;
  error_code = error_code_validation;
}

module _ ⦃u : Unicode⦄ where
  -- `normalizeAuthorizeRequest`
  unfoldable pub normalize_authorize_request : AuthorizeRequest → AuthorizeRequest
  normalize_authorize_request r = record {
    organization_id = trim_space r.organization_id;
    target_system = normal r.target_system;
    route = trim_space r.route;
    method = normal r.method;
    operation = trim_space r.operation;
  }

  -- `validateRequestForAuthorization`
  unfoldable pub validate_request_for_authorization : AuthorizeRequest → String → Refusal
  validate_request_for_authorization request token =
      if trim_space token == ""
      then record {
        deny_reason = missing_token;
        status_code = 401;
        error_code = error_code_unauthorized;
      }
      else if trim_space request.organization_id == ""
      then bad_request missing_organization_id
      else if trim_space request.target_system == ""
      then bad_request missing_target_system
      else if not (is_known_target_system request.target_system)
      then bad_request unsupported_target_system
      else if trim_space request.method == ""
      then bad_request missing_method
      else if not (is_known_method request.method)
      then bad_request unsupported_method
      else if trim_space request.route == ""
      then bad_request missing_route
      else if trim_space request.operation == ""
      then bad_request missing_operation
      else accepted
