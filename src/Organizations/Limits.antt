-- ===== src/Organizations/Limits.antt =====
-- Looking up an organization's row, and what an update of its plan or limit does to the state.
use developer_platform_backe.Prelude.{ℕ, ◌≡◌, none, some, arith, ◌==◌}
use developer_platform_backe.Prelude.Action.{ok, err}
use developer_platform_backe.Orm.{Orm}
use developer_platform_backe.Orm.Laws.{find_one-eq-some, find_one-eq-none}
use developer_platform_backe.Redis.{Redis, limit_key}
use developer_platform_backe.Organizations.{
  UpdateRateLimitDto, Organization, organization_entity, OrgState, apply_update, update_rate_limit,
  no_org,
}

pub apply_update-id :
    (dto : UpdateRateLimitDto) (row : Organization) → (apply_update dto row).id ≡ row.id
unfolding apply_update
apply_update-id dto row = ground arith

module _ {orm : Orm} {redis : Redis} where
  pub find_row :
      (o : ℕ) (s : OrgState orm redis) (row : Organization)
      → orm.get o s.orgs ≡ some row
      → orm.find_one (λ r. r.id == o) s.orgs ≡ some row
  find_row o s row h =
      find_one-eq-some orm (λ r. r.id == o) s.orgs o row h
        (ground (arith, orm.get_key o s.orgs row h)) (λ x t _. ground arith)

  pub find_no_row :
      (o : ℕ) (s : OrgState orm redis)
      → orm.get o s.orgs ≡ none
      → orm.find_one (λ r. r.id == o) s.orgs ≡ none
  find_no_row o s h = find_one-eq-none orm (λ r. r.id == o) s.orgs (λ x stored. ground arith)

  -- The row that an update of `row` leaves, and the state after it.
  abbrev pub updated :
      ℕ → UpdateRateLimitDto → Organization → OrgState orm redis → OrgState orm redis
  updated o dto row s = record s {
    orgs = orm.save (apply_update dto row) s.orgs;
    redis_store = redis.del (limit_key o) s.redis_store;
  }

  pub update_rate_limit-found :
      (o : ℕ) (dto : UpdateRateLimitDto) (s : OrgState orm redis) (row : Organization)
      → orm.get o s.orgs ≡ some row
      → update_rate_limit o dto s ≡ (
        ok ((apply_update dto row).plan, (apply_update dto row).requests_per_minute),
        updated o dto row s,
      )
  unfolding update_rate_limit
  update_rate_limit-found o dto s row h = ground (arith, find_row o s row h)

  pub update_rate_limit-missing :
      (o : ℕ) (dto : UpdateRateLimitDto) (s : OrgState orm redis)
      → orm.get o s.orgs ≡ none
      → update_rate_limit o dto s ≡ (err no_org, s)
  unfolding update_rate_limit
  update_rate_limit-missing o dto s h = ground (arith, find_no_row o s h)
