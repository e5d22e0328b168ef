-- ===== src/RateLimit/Window.antt =====
-- What one request does to the limiter: the cached limit agrees with the table, and the counter of a
-- window counts its requests.
use developer_platform_backe.Organizations.Limits.{find_row, find_no_row}
use developer_platform_backe.Prelude.{
  ℕ, zero, suc, ◌+◌, ◌*◌, ◌≤◌, ◌≡◌, refl, inl, inr, none, some, arith, Option-cases,
}
use developer_platform_backe.Prelude.Action.{ok, err}
use developer_platform_backe.Orm.{Orm}
use developer_platform_backe.Prelude.{
  ℕ, zero, suc, ◌+◌, ◌*◌, ◌≤◌, none, some, ◌≡◌, refl, inl, inr, arith, Option-cases,
}
use developer_platform_backe.Redis.{Redis, Key, Entry, limit_key, count_key}
use developer_platform_backe.Organizations.{
  Organization, organization_entity, OrgState, no_org, get_rate_limit,
}
use developer_platform_backe.RateLimit.{LimiterState, get_limit}

module _ (redis : Redis) where
  -- A cached value comes from an entry, live or not.
  cached_entry :
      (now : ℕ) (k : Key) (r : redis.Store) (v : ℕ)
      → redis.get now k r ≡ some v
      → (e : Entry) × (redis.entry k r ≡ some e) × (e.value ≡ v)
  cached_entry now k r v h = elim (Option-cases (redis.entry k r)) [
    | inl absent ↦ ground (arith, redis.get_lem now k r)
    | inr (e, present) ↦ (e, present, ground (arith, redis.get_lem now k r))
  ]

module _ {orm : Orm} {redis : Redis} where
  -- A cached limit is the limit of the organization's row.
  abbrev pub IsCoherent : OrgState orm redis → Type 0
  IsCoherent s =
      (o : ℕ) (e : Entry) (row : Organization)
      → redis.entry (limit_key o) s.redis_store ≡ some e
      → orm.get o s.orgs ≡ some row
      → e.value ≡ row.requests_per_minute

  -- `c` requests of `o` were counted in window `w`; the counter outlives the window.
  abbrev pub Counted : ℕ → ℕ → ℕ → OrgState orm redis → Type 0
  Counted o w zero s = redis.entry (count_key o w) s.redis_store ≡ none
  Counted o w (suc c) s =
      (d : ℕ) × (redis.entry (count_key o w) s.redis_store
        ≡ some (record { value = suc c; deadline = some d }))
      × ((w + 1) * 60000 ≤ d)

  abbrev with_store : redis.Store → LimiterState orm redis → LimiterState orm redis
  with_store r s = record s { org_state = record (s.org_state) { redis_store = r } }

  abbrev caching : ℕ → ℕ → ℕ → LimiterState orm redis → LimiterState orm redis
  caching now o limit s =
      with_store (redis.set_ex now (limit_key o) limit 60 s.org_state.redis_store) s

  get_limit-miss :
      (now o : ℕ) (s : LimiterState orm redis) (row : Organization)
      → orm.get o s.org_state.orgs ≡ some row
      → redis.get now (limit_key o) s.org_state.redis_store ≡ none
      → get_limit now o s ≡ (ok row.requests_per_minute, caching now o row.requests_per_minute s)
  unfolding get_limit get_rate_limit
  get_limit-miss now o s row h m = ground (arith, find_row o s.org_state row h)

  get_limit-hit :
      (now o : ℕ) (s : LimiterState orm redis) (v : ℕ)
      → redis.get now (limit_key o) s.org_state.redis_store ≡ some v
      → get_limit now o s ≡ (ok v, s)
  unfolding get_limit
  get_limit-hit now o s v h = rw h

  get_limit-absent :
      (now o : ℕ) (s : LimiterState orm redis)
      → orm.get o s.org_state.orgs ≡ none
      → redis.get now (limit_key o) s.org_state.redis_store ≡ none
      → get_limit now o s ≡ (err no_org, s)
  unfolding get_limit get_rate_limit
  get_limit-absent now o s h m = ground (arith, find_no_row o s.org_state h)

  -- What reading a limit may change: nothing but the cached limit, which stays coherent.
  pub record Keeps (s s' : LimiterState orm redis) : Type 0 where
    pub orgs : s'.org_state.orgs ≡ s.org_state.orgs
    pub events : s'.events ≡ s.events
    pub counters :
        (p w : ℕ)
        → redis.entry (count_key p w) s'.org_state.redis_store
          ≡ redis.entry (count_key p w) s.org_state.redis_store
    pub coherent : IsCoherent s'.org_state

  caching-Keeps :
      (now o : ℕ) (s : LimiterState orm redis) (row : Organization)
      → IsCoherent s.org_state
      → orm.get o s.org_state.orgs ≡ some row
      → Keeps s (caching now o row.requests_per_minute s)
  caching-Keeps now o s row c h =
      let L : ℕ = row.requests_per_minute in
      let r : redis.Store = s.org_state.redis_store in
      record {
        orgs = refl;
        events = refl;
        counters =
            λ p w. ground (arith, redis.entry-set_ex now (count_key p w) (limit_key o) L 60 r);
        coherent = λ p e x stored g.
            ground (arith, redis.entry-set_ex now (limit_key p) (limit_key o) L 60 r, c p e x);
      }

  pub get_limit_row :
      (now o : ℕ) (s : LimiterState orm redis) (row : Organization)
      → IsCoherent s.org_state
      → orm.get o s.org_state.orgs ≡ some row
      → (s' : LimiterState orm redis) × (get_limit now o s ≡ (ok row.requests_per_minute, s'))
        × Keeps s s'
  get_limit_row now o s row c h =
      elim (Option-cases (redis.get now (limit_key o) s.org_state.redis_store)) [
        | inl m ↦ (
          caching now o row.requests_per_minute s,
          get_limit-miss now o s row h m,
          caching-Keeps now o s row c h,
        )
        | inr (v, hit) ↦
            let (e, stored, same) =
              cached_entry redis now (limit_key o) s.org_state.redis_store v hit in
            let agrees : e.value ≡ row.requests_per_minute = c o e row stored h in
            (
              s,
              ground (arith, get_limit-hit now o s v hit),
              record { orgs = refl; events = refl; counters = λ p w. refl; coherent = c },
            )
      ]

  -- With no row, the limit can only come from a stale cache entry; nothing is written either way.
  pub get_limit_no_row :
      (now o : ℕ) (s : LimiterState orm redis)
      → orm.get o s.org_state.orgs ≡ none
      → (get_limit now o s).1 ≡ s
  get_limit_no_row now o s h =
      elim (Option-cases (redis.get now (limit_key o) s.org_state.redis_store)) [
        | inl m ↦ ground (arith, get_limit-absent now o s h m)
        | inr (v, hit) ↦ ground (arith, get_limit-hit now o s v hit)
      ]
