-- ===== src/Tests/Fixtures.antt =====
-- The data of the tests: an upper-case table, an identity service, tables with one policy, and a
-- request that it allows.
use taifa_exchange.Base.{Char, [], ◌∷◌, ◌≡◌, ◌≤◌, arith, code, refl, some, true, negsuc, pos}
use taifa_exchange.Database.Session.{Pool, Session}
use taifa_exchange.Database.Tables.{Tables, empty_tables}
use taifa_exchange.Exchange.Model.{AuthorizeInput, AuthorizeRequest}
use taifa_exchange.Exchange.Service as ExchangeService
use taifa_exchange.Exchange.Service.{Surroundings}
use taifa_exchange.Ids.{Draw}
use taifa_exchange.Outcome.{err, ok, plain}
use taifa_exchange.Policy.Service as PolicyService
use taifa_exchange.Taifaid.Client.{Body, Client, Network}
use taifa_exchange.Taifaid.Dto.{ActorContextResponse, CapabilitiesResponse, ReadyResponse}
use taifa_exchange.Text.{Unicode, upper_by}
use taifa_exchange.Config.{Config}
use taifa_exchange.Database.Driver.{Driver, PoolConfig}

same_above : (c : Char) → 128 ≤ code c → upper_by (λ d. d) c ≡ c
unfolding upper_by
same_above c h = ground arith

instance pub ascii_only : Unicode
ascii_only = record { upper = λ c. c; upper_stable = same_above; upper_space = λ c h. refl }

abbrev pub pool : Pool
pool = record { collate = λ a b. true }

abbrev pub draw : Draw
draw = record {
  now = 7;
  stamp = "20260101000000";
  random = some (1 ∷ 2 ∷ 3 ∷ 4 ∷ 5 ∷ 6 ∷ 7 ∷ 255 ∷ []);
}

abbrev pub actor_answer : ActorContextResponse
actor_answer = record {
  correlation_id = "corr-id";
  content = record {
    actor_context_id = "AC-1";
    person_id = "P-1";
    credential_id = "C-1";
    username = "asha";
    organization_id = "ORG-1";
    organization_name = "Hospital";
    organization_type = "PROVIDER";
    organization_status = "ACTIVE";
    session_id = "S-1";
    roles = "CITIZEN" ∷ [];
    memberships =
        record {
          id = "M-1";
          membership_id = "";
          membership_type = "STAFF";
          status = "ACTIVE";
          roles = " provider_clinician" ∷ "CITIZEN" ∷ [];
        }
        ∷ [];
  };
}

abbrev pub capabilities_answer : CapabilitiesResponse
capabilities_answer = record {
  correlation_id = "corr-id";
  content =
      record {
        id = "OC-1";
        organization_id = "ORG-1";
        capability = "CAN_PROVIDE_HEALTH_SERVICES";
        created_at = "2026-01-01";
      }
      ∷ [];
}

abbrev pub ready_answer : ReadyResponse
ready_answer = record {
  correlation_id = "corr-id";
  status = "ok";
  service = "taifa-id";
  environment = "test";
  dependencies = [];
}

abbrev pub body : Body
body = record {
  content = ok "";
  as_ready = ok ready_answer;
  as_actor_context = ok actor_answer;
  as_capabilities = ok capabilities_answer;
  as_error = err (plain "not an error");
}

abbrev pub network : Network
network = record {
  new_request = λ r. ok r;
  send = λ r. ok (record { status_code = 200; body = body });
  path_escape = λ s. s;
}

abbrev pub client : Client
client = record { base_url = "http://id"; timeout = pos 1 }

abbrev pub environment : Surroundings
environment = record {
  network = network;
  decision_draw = draw;
  created_at = 7;
  event_draw = draw;
  insert_draw = draw;
}

abbrev pub policies_service : PolicyService.Service
policies_service = record { repository = some (some pool) }

abbrev pub service : ExchangeService.Service
service = record {
  repository = some (some pool);
  policy_service = some policies_service;
  taifa_id_client = some client;
}

abbrev pub tables : Tables
tables = record empty_tables {
  policies =
      record {
        id = "POL-1";
        target_system = "TAIFA_CARE";
        route_pattern = "/claims";
        method = "POST";
        operation = "claim";
        effect = "ALLOW";
        status = "ACTIVE";
        description = "";
      }
      ∷ [];
  roles = record { id = "PR-1"; policy_id = "POL-1"; role = "PROVIDER_CLINICIAN" } ∷ [];
  capabilities =
      record { id = "PC-1"; policy_id = "POL-1"; capability = "CAN_PROVIDE_HEALTH_SERVICES" } ∷ [];
}

abbrev pub session : Session
session = record { tables = tables; faults = [] }

abbrev pub claim : AuthorizeRequest
claim = record {
  organization_id = " ORG-1 ";
  target_system = "taifa_care";
  route = "/claims";
  method = "post";
  operation = "claim";
}

abbrev pub input : AuthorizeInput
input = record { token = "secret"; correlation_id = "corr-1"; request = claim }

abbrev pub config : Config
config = record {
  service_name = "taifa-exchange";
  environment = "test";
  http = record {
    addr = ":8081";
    read_timeout = pos 5;
    write_timeout = pos 10;
    idle_timeout = pos 60;
    shutdown_timeout = pos 10;
  };
  database = record {
    dsn = "postgres://";
    min_conns = pos 9;
    max_conns = negsuc 0;
    connect_timeout = pos 5;
  };
  taifa_id = record { base_url = "http://id/"; timeout = pos 0 };
  seed = record { timeout = pos 7 };
}

abbrev pub parsed : PoolConfig
parsed = record { min_conns = pos 0; max_conns = pos 4; connect_timeout = pos 0 }

abbrev pub driver : Driver
driver = record { parse_config = λ s. ok parsed; new_pool = λ c. ok pool; ping_pool = λ p. ok tt }
