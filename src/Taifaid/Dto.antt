-- ===== src/Taifaid/Dto.antt =====
-- internal/taifaid/dto.go
use taifa_exchange.Base.{List, String}

pub record ActorMembership : Type 0 where
  pub id : String
  pub membership_id : String
  pub membership_type : String
  pub status : String
  pub roles : List String

pub record ActorContext : Type 0 where
  pub actor_context_id : String
  pub person_id : String
  pub credential_id : String
  pub username : String
  pub organization_id : String
  pub organization_name : String
  pub organization_type : String
  pub organization_status : String
  pub session_id : String
  pub roles : List String
  pub memberships : List ActorMembership

pub record ActorContextResponse : Type 0 where
  pub correlation_id : String
  pub content : ActorContext

pub record OrganizationCapability : Type 0 where
  pub id : String
  pub organization_id : String
  pub capability : String
  pub created_at : String

pub record CapabilitiesResponse : Type 0 where
  pub correlation_id : String
  pub content : List OrganizationCapability

pub record ReadyResponse : Type 0 where
  pub correlation_id : String
  pub status : String
  pub service : String
  pub environment : String
  pub dependencies : List (String × String)

pub record ResolveActorContextRequest : Type 0 where
  pub token : String
  pub organization_id : String

pub record ErrorBody : Type 0 where
  pub code : String
  pub correlation_id : String
  pub message : String

pub record ErrorEnvelope : Type 0 where
  pub correlation_id : String
  pub error : ErrorBody
