-- ===== src/RateLimit/Tests.antt =====
-- The limiter on concrete tables, and the theorems at inputs that meet their hypotheses.
use Prim.Native.Nat.{min}
use developer_platform_backe.Prelude.{ℕ, ◌≡◌, refl, some, none, arith, List, [], ◌∷◌}
use developer_platform_backe.Prelude.Action.{ok}
use developer_platform_backe.Enums.{pro, enterprise, subscriber, plan_rate_limits}
use developer_platform_backe.Orm.{list_orm}
use developer_platform_backe.Orm.ListTable.{list_tables}
use developer_platform_backe.Redis.{map_redis}
use developer_platform_backe.Organizations.{
  Organization, OrgState, UpdateRateLimitDto, update_rate_limit, get_rate_limit,
}
use developer_platform_backe.RateLimit.{LimiterState, consume, can_activate, get_limit, result_of}
use developer_platform_backe.RateLimit.Window.{IsCoherent}
use developer_platform_backe.RateLimit.Schedule.{
  Arrival, admitted, notices, admitted-eq-min, notices-eq-one,
}
use developer_platform_backe.RateLimit.Cache.{get_limit-update_rate_limit}

abbrev acme : Organization
acme = record {
  id = 7;
  name = "Acme";
  slug = "acme";
  type = subscriber;
  plan = enterprise;
  requests_per_minute = 2;
}

abbrev tables : OrgState list_orm map_redis
tables = record { orgs = acme ∷ []; members = []; users = []; redis_store = λ k. none }

abbrev start : LimiterState list_orm map_redis
start = record { org_state = tables; events = [] }

abbrev at : ℕ → Arrival
at now = record { now = now; organization_id = 7 }

-- Three requests in the first minute, one in the second, one by an unknown organization.
abbrev schedule : List Arrival
schedule = at 100 ∷ at 59_000 ∷ at 61_000 ∷ record { now = 5; organization_id = 8 } ∷ at 2_000 ∷ []

schedule_runs : admitted 7 0 schedule start ≡ 2
unfolding admitted can_activate consume get_limit get_rate_limit result_of list_tables
schedule_runs = refl

start-IsCoherent : IsCoherent tables
start-IsCoherent o e row stored g = ground arith

admitted-eq-min_example : admitted 7 0 schedule start ≡ min 3 2
unfolding list_tables
admitted-eq-min_example = admitted-eq-min 7 0 acme schedule start start-IsCoherent refl refl

notices-eq-one_example : notices 7 0 schedule start ≡ 1
unfolding list_tables
notices-eq-one_example = notices-eq-one 7 0 acme schedule start start-IsCoherent refl refl

abbrev to_pro : UpdateRateLimitDto
to_pro = record { plan = some pro; requests_per_minute = none }

get_limit-update_rate_limit_example :
    (get_limit 90 7 (record start { org_state = (update_rate_limit 7 to_pro tables).1 })).0
    ≡ ok 5000
unfolding update_rate_limit plan_rate_limits list_tables
get_limit-update_rate_limit_example =
    get_limit-update_rate_limit 90 7 to_pro start pro 5000 start-IsCoherent refl
