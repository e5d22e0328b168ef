-- ===== src/RateLimit.antt =====
-- rate-limit/rate-limit.service.ts and rate-limit.guard.ts: a fixed window counter for each
-- organization in Redis. `now` is the time of the request, in milliseconds.
pub mod Window
pub mod Counting
pub mod Steps
pub mod Schedule
pub mod Cache
mod Tests
use developer_platform_backe.Prelude.{
  ℕ, ◌+◌, ◌-◌, ◌*◌, ◌/◌, Bool, true, not, Option, none, some, List, [], ◌∷◌, ◌++◌, ◌==◌, leb,
  if◌then◌else◌,
}
use developer_platform_backe.Prelude.Action.{
  Result, ok, err, too_many_requests, Action, pure, gets, modify, call, ◌>>=◌, ◌>>◌,
}
use developer_platform_backe.Orm.{Orm}
use developer_platform_backe.Redis.{Redis, limit_key, count_key}
use developer_platform_backe.Organizations.{OrgState, get_rate_limit}

pub record RateLimitResult : Type 0 where
  pub limit : ℕ
  pub count : ℕ
  pub remaining : ℕ
  pub allowed : Bool
  pub reset_at_epoch : ℕ
  pub retry_after : ℕ

-- The payload of RATELIMIT_EXCEEDED_EVENT.
pub record Exceeded : Type 0 where
  pub organization_id : ℕ
  pub limit : ℕ

abbrev pub window_seconds : ℕ
window_seconds = 60

abbrev pub window_of : ℕ → ℕ
window_of now = now / (window_seconds * 1000)

-- The response headers that the guard sets.
pub record Headers : Type 0 where
  pub limit : ℕ
  pub remaining : ℕ
  pub reset : ℕ
  pub retry_after : Option ℕ

-- The value that `consume` returns for a request at `now`.
unfoldable pub result_of : ℕ → ℕ → ℕ → RateLimitResult
result_of now limit count =
    let reset = (window_of now + 1) * window_seconds in
    record {
      limit = limit;
      count = count;
      remaining = limit - count;
      allowed = leb count limit;
      reset_at_epoch = reset;
      retry_after = reset - now / 1000;
    }

-- The headers of an answer, and what the guard does with the result.
unfoldable pub guard_result : RateLimitResult → Result Bool × Headers
guard_result r = (
  if not r.allowed then err (too_many_requests r.retry_after r.limit) else ok true,
  record {
    limit = r.limit;
    remaining = r.remaining;
    reset = r.reset_at_epoch;
    retry_after = if not r.allowed then some r.retry_after else none;
  },
)

module _ (orm : Orm) (redis : Redis) where
  pub record LimiterState : Type 0 where
    pub org_state : OrgState orm redis
    -- what was emitted, the newest last
    pub events : List Exceeded

module _ {orm : Orm} {redis : Redis} where
  abbrev in_orgs : {A : Type 0} → Action (OrgState orm redis) A → Action (LimiterState orm redis) A
  in_orgs = call (λ s. s.org_state) (λ t s. record s { org_state = t })

  abbrev redis_command :
      {A : Type 0} → (redis.Store → A × redis.Store) → Action (LimiterState orm redis) A
  redis_command f s =
      let (a, r) = f s.org_state.redis_store in
      (ok a, record s { org_state = record (s.org_state) { redis_store = r } })

  -- `getLimit`
  unfoldable pub get_limit : ℕ → ℕ → Action (LimiterState orm redis) ℕ
  get_limit now org_id = do
    cached ← gets (λ s. redis.get now (limit_key org_id) s.org_state.redis_store)
    elim cached [
      | some limit ↦ pure limit
      | none ↦ do
        limit ← in_orgs (get_rate_limit org_id)
        redis_command (λ r. (tt, redis.set_ex now (limit_key org_id) limit window_seconds r))
        pure limit
    ]

  -- `this.events.emit(RATELIMIT_EXCEEDED_EVENT, …)`
  abbrev emit : Exceeded → LimiterState orm redis → LimiterState orm redis
  emit e s = record s { events = s.events ++ e ∷ [] }

  -- `consume`
  unfoldable pub consume : ℕ → ℕ → Action (LimiterState orm redis) RateLimitResult
  consume now org_id = do
    limit ← get_limit now org_id
    let key = count_key org_id (window_of now)
    count ← redis_command (redis.incr now key)
    redis_command (λ r. (tt, if count == 1 then redis.expire now key window_seconds r else r))
    modify (λ s.
        if count == limit + 1
        then emit (record { organization_id = org_id; limit = limit }) s
        else s)
    pure (result_of now limit count)

  -- `RateLimitGuard.canActivate`, on the organization of the request's API key.
  unfoldable pub can_activate :
      ℕ
      → Option ℕ
      → LimiterState orm redis
      → (Result Bool × Option Headers) × LimiterState orm redis
  unfolding consume guard_result
  can_activate now none s = ((ok true, none), s)
  can_activate now (some org_id) s =
      let (r, s') = consume now org_id s in
      elim r [
        | err e ↦ ((err e, none), s')
        | ok result ↦ let (verdict, headers) = guard_result result in ((verdict, some headers), s')
      ]
