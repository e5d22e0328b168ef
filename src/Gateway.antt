-- ===== src/Gateway.antt =====
-- gateway/: the way of a client application's request through the logging middleware, the two guards,
-- the timing interceptor and the handler; and api-logs/api-logs.service.ts, the row for each request.
pub mod Traffic
pub mod Handling
pub mod Logging
mod Tests
use developer_platform_backe.ApiKeys.{KeysState, KeyEnv}
use developer_platform_backe.Redis.{Redis}
use Prim.Native.String.{◌++◌ as text_append}
use developer_platform_backe.RateLimit.{can_activate as limit_guard, LimiterState}
use developer_platform_backe.ApiKeys.Guard.{can_activate as key_guard, Header, ApiKeyContext}
use developer_platform_backe.Prelude.{
  ℕ, ◌-◌, String, not, Option, none, some, List, [], ◌∷◌, if◌then◌else◌, any,
}
use developer_platform_backe.Prelude.Action.{
  Result, ok, err, HttpError, bad_request, unauthorized, forbidden, not_found, conflict, failure,
  bad_gateway, not_implemented, too_many_requests,
}
use developer_platform_backe.Orm.{Orm}
use text.Mathlib.Text.{◌==◌ as str_eq}

-- What the handler is asked for: `whoami`, `upstreams`, or `services/:service(/:resource)`.
pub data Route : Type 0 where
  to_whoami to_upstreams : Route
  to_service : (service : String) → (resource : Option String) → Route

-- What the code reads of a request; `now` and `ended` are the times of its start and its end, and
-- `request_id` is the random id that the middleware gives it.
pub record GatewayRequest (Body : Type 0) : Type 0 where
  pub api_key : Header
  pub route : Route
  pub method : String
  pub endpoint : String
  pub ip_address : Option String
  pub user_agent : Option String
  pub body : Option Body
  pub request_id : String
  pub now : ℕ
  pub ended : ℕ

-- api-logs/entities/api-log.entity.ts
pub record LogRow : Type 0 where
  pub request_id : String
  pub organization_id : Option ℕ
  pub application_id : Option ℕ
  pub api_key_id : Option ℕ
  pub method : String
  pub endpoint : String
  pub status_code : ℕ
  pub response_time_ms : ℕ
  pub ip_address : Option String
  pub user_agent : Option String

-- The object that `route` returns.
pub record Routed (Body : Type 0) : Type 0 where
  pub routed_to : String
  pub resource : Option String
  pub method : String
  pub handled_by : String
  pub organization_id : ℕ
  pub application_id : ℕ
  pub body : Option Body

-- The data of a response.
pub data Answered (Body : Type 0) : Type 0 where
  identity : ApiKeyContext → Answered Body
  services : List String → Answered Body
  routed : Routed Body → Answered Body

-- The interceptor's envelope `{ data, meta }`, with the header X-Response-Time-Ms.
pub record Envelope (Body : Type 0) : Type 0 where
  pub answer : Answered Body
  pub request_id : String
  pub response_time_ms : ℕ
  pub timestamp : ℕ

-- `upstreams`
abbrev pub upstreams : List String
upstreams = "users" ∷ "orders" ∷ "payments" ∷ []

abbrev pub unknown_upstream : String → HttpError
unknown_upstream service =
    bad_gateway (text_append "Unknown upstream service \"" (text_append service "\""))

module _ {Body : Type 0} where
  -- `GatewayService.route`
  unfoldable pub route :
      (service : String)
      → (resource : Option String) → (method : String) → Option Body
      → ApiKeyContext
      → Result (Routed Body)
  route service resource method body caller =
      if not (any (str_eq service) upstreams)
      then err (unknown_upstream service)
      else ok (record {
        routed_to = service;
        resource = resource;
        method = method;
        handled_by = text_append "mock-" (text_append service "-service");
        organization_id = caller.organization_id;
        application_id = caller.application_id;
        body = body;
      })

  -- The methods of GatewayController
  unfoldable pub dispatch : GatewayRequest Body → ApiKeyContext → Result (Answered Body)
  unfolding route
  dispatch q caller = elim q.route [
    | to_whoami ↦ ok (identity caller)
    | to_upstreams ↦ ok (services upstreams)
    | to_service service resource ↦ elim (route service resource q.method q.body caller) [
      | ok found ↦ ok (routed found)
      | err e ↦ err e
    ]
  ]

  -- `GatewayTimingInterceptor.intercept`
  abbrev pub intercept : GatewayRequest Body → Answered Body → Envelope Body
  intercept q answer = record {
    answer = answer;
    request_id = q.request_id;
    response_time_ms = q.ended - q.now;
    timestamp = q.now;
  }

  -- The row that the middleware writes on `finish`; the clock is taken not to go back between the start
  -- and the end of a request.
  unfoldable pub row_of : GatewayRequest Body → Option ApiKeyContext → (status : ℕ) → LogRow
  row_of q context status = record {
    request_id = q.request_id;
    organization_id = elim context [ some c ↦ some c.organization_id | none ↦ none ];
    application_id = elim context [ some c ↦ some c.application_id | none ↦ none ];
    api_key_id = elim context [ some c ↦ some c.key_id | none ↦ none ];
    method = q.method;
    endpoint = q.endpoint;
    status_code = status;
    response_time_ms = q.ended - q.now;
    ip_address = q.ip_address;
    user_agent = q.user_agent;
  }

-- The status of an exception's response.
abbrev pub http_status : HttpError → ℕ
http_status (bad_request m) = 400
http_status (unauthorized m) = 401
http_status (forbidden m) = 403
http_status (not_found m) = 404
http_status (conflict m) = 409
http_status (not_implemented m) = 501
http_status (bad_gateway m) = 502
http_status (too_many_requests after limit) = 429
http_status (failure m) = 500

abbrev pub status_of : {A : Type 0} → Result A → ℕ
status_of (ok a) = 200
status_of (err e) = http_status e

pub record GatewayState (orm : Orm) (redis : Redis) : Type 0 where
  pub keys : KeysState orm
  pub limiter : LimiterState orm redis
  -- the rows of api_logs, the newest first
  pub logs : List LogRow

module _ {orm : Orm} {redis : Redis} where
  -- `ApiLogsService.record`
  abbrev pub record_log : LogRow → GatewayState orm redis → GatewayState orm redis
  record_log row s = record s { logs = row ∷ s.logs }

module _ {orm : Orm} {redis : Redis} {Body : Type 0} where
  -- The guards and the handler, with the context that the first guard attached to the request. Where a
  -- guard answers false the framework throws.
  unfoldable pub pipeline :
      KeyEnv
      → GatewayRequest Body
      → GatewayState orm redis
      → (Result (Envelope Body) × Option ApiKeyContext) × GatewayState orm redis
  unfolding dispatch
  pipeline env q s =
      let (first, keys) = key_guard env q.now q.api_key s.keys in
      elim first [
        | err e ↦ ((err e, none), record s { keys = keys })
        | ok caller ↦
            let (second, limiter) = limit_guard q.now (some caller.organization_id) s.limiter in
            let after = record s { keys = keys; limiter = limiter } in
            elim second.0 [
              | err e ↦ ((err e, some caller), after)
              | ok passed ↦ (
                (
                  if passed
                      then elim (dispatch q caller) [
                        | ok found ↦ ok (intercept q found)
                        | err e ↦ err e
                      ]
                      else err (forbidden "Forbidden resource"),
                  some caller,
                ),
                after,
              )
            ]
      ]

  -- `GatewayLoggingMiddleware.use` around them
  unfoldable pub serve :
      KeyEnv
      → GatewayRequest Body
      → GatewayState orm redis
      → Result (Envelope Body) × GatewayState orm redis
  unfolding pipeline row_of
  serve env q s =
      let (answer, s') = pipeline env q s in
      (answer.0, record_log (row_of q answer.1 (status_of answer.0)) s')
