-- ===== src/RateLimit/Cache.antt =====
-- The cached limit: an update takes effect at the next request, and the cache never disagrees.
use developer_platform_backe.Organizations.Limits.{
  updated, apply_update-id, update_rate_limit-found, update_rate_limit-missing,
}
use developer_platform_backe.Prelude.{ℕ, ◌≡◌, inl, inr, some, arith, Option-cases}
use developer_platform_backe.Prelude.Action.{ok}
use developer_platform_backe.Orm.{Orm}
use developer_platform_backe.Redis.{Redis, limit_key}
use developer_platform_backe.Prelude.{ℕ, ◌≡◌, some, arith, inl, inr, Option-cases}
use developer_platform_backe.Enums.{Plan}
use developer_platform_backe.Organizations.{
  UpdateRateLimitDto, Organization, organization_entity, OrgState, apply_update, update_rate_limit,
}
use developer_platform_backe.RateLimit.{LimiterState, get_limit}
use developer_platform_backe.RateLimit.Window.{IsCoherent, get_limit_row}

module _ {orm : Orm} {redis : Redis} where
  updated-IsCoherent :
      (o : ℕ) (dto : UpdateRateLimitDto) (s : OrgState orm redis) (row : Organization)
      → IsCoherent s
      → orm.get o s.orgs ≡ some row
      → IsCoherent (updated o dto row s)
  updated-IsCoherent o dto s row c h p e x stored g = ground (
    arith,
    redis.entry-del (limit_key p) (limit_key o) s.redis_store,
    orm.get-save p (apply_update dto row) s.orgs,
    apply_update-id dto row,
    orm.get_key o s.orgs row h,
    c p e x,
  )

  -- Changing a plan or a limit keeps the cached limits in agreement with the table, whether the
  -- organization exists or not.
  update_rate_limit-IsCoherent :
      (o : ℕ) (dto : UpdateRateLimitDto) (s : OrgState orm redis)
      → IsCoherent s
      → IsCoherent (update_rate_limit o dto s).1
  update_rate_limit-IsCoherent o dto s c = elim (Option-cases (orm.get o s.orgs)) [
    | inl absent ↦ rw (update_rate_limit-missing o dto s absent) c
    | inr (row, present) ↦
        rw (update_rate_limit-found o dto s row present) (updated-IsCoherent o dto s row c present)
  ]

  -- After a successful update of organization `o` the next request is judged by the limit that the
  -- update returned, at whatever time it comes and whatever the cache held.
  pub get_limit-update_rate_limit :
      (now o : ℕ) (dto : UpdateRateLimitDto) (s : LimiterState orm redis) (plan : Plan) (limit : ℕ)
      → IsCoherent s.org_state
      → (update_rate_limit o dto s.org_state).0 ≡ ok (plan, limit)
      → (get_limit now o (record s { org_state = (update_rate_limit o dto s.org_state).1 })).0
        ≡ ok limit
  get_limit-update_rate_limit now o dto s plan limit c done =
      elim (Option-cases (orm.get o s.org_state.orgs)) [
        | inl absent ↦ ground (arith, update_rate_limit-missing o dto s.org_state absent)
        | inr (row, present) ↦
            let found = update_rate_limit-found o dto s.org_state row present in
            let same : (apply_update dto row).requests_per_minute ≡ limit = ground (arith, found) in
            let stored : orm.get o (updated o dto row s.org_state).orgs
                ≡ some (apply_update dto row) =
              ground (
                arith,
                orm.get-save o (apply_update dto row) s.org_state.orgs,
                apply_update-id dto row,
                orm.get_key o s.org_state.orgs row present,
              ) in
            let (s', e, k) =
              get_limit_row now o (record s { org_state = updated o dto row s.org_state })
                (apply_update dto row) (updated-IsCoherent o dto s.org_state row c present)
                stored in
            rw (found) (ground (arith, e))
      ]
