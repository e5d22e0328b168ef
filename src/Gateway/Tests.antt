-- ===== src/Gateway/Tests.antt =====
-- The gateway on concrete tables, and the theorems at inputs that meet their hypotheses.
use developer_platform_backe.Redis.{map_redis}
use developer_platform_backe.Gateway.Logging.{IsLogged, serve-IsLogged}
use developer_platform_backe.Gateway.Traffic.{answered, answered-le_limit, serve_all}
use developer_platform_backe.RateLimit.Window.{IsCoherent}
use developer_platform_backe.Enums.{enterprise, subscriber}
use developer_platform_backe.Orm.ListTable.{list_tables}
use developer_platform_backe.Applications.{Application}
use developer_platform_backe.ApiKeys.{ApiKey, KeyEnv, find_valid_by_plaintext, record_usage}
use developer_platform_backe.ApiKeys.Guard.{can_activate as key_guard, presented, single}
use developer_platform_backe.RateLimit.{
  can_activate as limit_guard, consume, get_limit, result_of, guard_result,
}
use developer_platform_backe.Organizations.{get_rate_limit, Organization}
use developer_platform_backe.Gateway.{
  GatewayState, Route, GatewayRequest, serve, to_service, pipeline, to_whoami, dispatch, route,
  row_of,
}
use developer_platform_backe.Prelude.{
  ℕ, ◌+◌, ◌≤◌, String, ◌≡◌, refl, true, false, Option, none, some, List, [], ◌∷◌, map, arith,
}
use developer_platform_backe.Orm.{list_orm}

abbrev plain_hash : KeyEnv
plain_hash = record { sha256 = λ t. t; is_production = false }

abbrev acme : Organization
acme = record {
  id = 7;
  name = "Acme";
  slug = "acme";
  type = subscriber;
  plan = enterprise;
  requests_per_minute = 1;
}

abbrev web_app : Application
web_app = record { id = 3; name = "Web"; description = none; organization_id = 7; is_active = true }

abbrev server_key : ApiKey
server_key = record {
  id = 5;
  name = "Server";
  prefix = "dk_test";
  last4 = "wxyz";
  key_hash = "dk_test_wxyz";
  application_id = 3;
  organization_id = 7;
  expires_at = none;
  revoked_at = none;
  last_used_at = none;
  usage_count = 8;
  created_at = 1;
}

abbrev start : GatewayState list_orm map_redis
start = record {
  keys = record { apps_state = record { apps = web_app ∷ [] }; keys = server_key ∷ [] };
  limiter = record {
    org_state = record { orgs = acme ∷ []; members = []; users = []; redis_store = λ k. none };
    events = [];
  };
  logs = [];
}

abbrev call_of : String → Route → ℕ → GatewayRequest String
call_of key route now = record {
  api_key = single key;
  route = route;
  method = "GET";
  endpoint = "/api/gateway";
  ip_address = none;
  user_agent = none;
  body = none;
  request_id = "r";
  now = now;
  ended = now + 3;
}

-- Two requests in one minute with a limit of one, one of them routed, and one with a wrong key.
abbrev traffic : List (GatewayRequest String)
traffic =
    call_of "dk_test_wxyz" (to_service "orders" none) 10
    ∷ call_of "wrong" to_whoami 20
    ∷ call_of "dk_test_wxyz" to_whoami 30
    ∷ []

statuses :
    map {B = ℕ × Option ℕ}
      (λ r. (r.status_code, r.organization_id))
      (serve_all plain_hash traffic start).logs
    ≡ (429, some 7) ∷ (401, none) ∷ (200, some 7) ∷ []
unfolding serve pipeline key_guard limit_guard consume get_limit get_rate_limit result_of
    guard_result dispatch route row_of presented find_valid_by_plaintext record_usage list_tables
statuses = refl

start-IsCoherent : IsCoherent start.limiter.org_state
start-IsCoherent o e row stored g = ground arith

answered-le_limit_example : answered plain_hash 7 0 traffic start ≤ 1
unfolding list_tables
answered-le_limit_example =
    answered-le_limit plain_hash 7 0 acme traffic start start-IsCoherent refl refl

serve-IsLogged_example :
    IsLogged plain_hash
      (call_of "dk_test_wxyz" (to_service "orders" none) 10)
      start
      (serve plain_hash (call_of "dk_test_wxyz" (to_service "orders" none) 10) start).0
      (serve plain_hash (call_of "dk_test_wxyz" (to_service "orders" none) 10) start).1
serve-IsLogged_example =
    serve-IsLogged plain_hash (call_of "dk_test_wxyz" (to_service "orders" none) 10) start
