-- ===== src/Organizations.antt =====
-- organizations/organizations.service.ts: organizations, memberships, and the rate limit with its
-- cached copy in Redis.
pub mod Guard
pub mod Access
pub mod Members
pub mod Limits
pub mod Creation
pub mod Founding
pub mod Listing
mod Tests
use developer_platform_backe.Prelude.{
  ℕ, Bool, not, ◌&&◌, Option, none, some, String, ◌==◌, if◌then◌else◌, is_some, or_default,
}
use developer_platform_backe.Prelude.Action.{
  HttpError, forbidden, not_found, conflict, Action, pure, gets, or_throw, throw_if, modify, ◌>>=◌,
  ◌>>◌,
}
use developer_platform_backe.Orm.{Entity, Orm}
use developer_platform_backe.Redis.{Redis, limit_key}
use developer_platform_backe.Enums.{
  Plan, plan_rate_limits, is_enterprise, OrganizationType, publisher, subscriber, same_type, Role,
  is_owner,
}
use developer_platform_backe.Users.{User, user_entity, find_by_email}

-- organizations/entities/organization.entity.ts
pub record Organization : Type 0 where
  pub id : ℕ
  pub name : String
  pub slug : String
  pub type : OrganizationType
  pub plan : Plan
  pub requests_per_minute : ℕ

instance abbrev pub organization_entity : Entity Organization
organization_entity = record { id_of = λ o. o.id }

-- organizations/entities/organization-member.entity.ts
pub record Member : Type 0 where
  pub id : ℕ
  pub organization_id : ℕ
  pub user_id : ℕ
  pub role : Role

instance abbrev pub member_entity : Entity Member
member_entity = record { id_of = λ m. m.id }

-- organizations/dto/update-rate-limit.dto.ts
pub record UpdateRateLimitDto : Type 0 where
  pub plan : Option Plan
  pub requests_per_minute : Option ℕ

abbrev pub no_org : HttpError
no_org = not_found "Organization not found"

abbrev pub wrong_type : OrganizationType → HttpError
wrong_type publisher = forbidden "This action requires a publisher organization."
wrong_type subscriber = forbidden "This action requires a subscriber organization."

-- The view that `addMember` returns.
pub record MemberView : Type 0 where
  pub membership_id : ℕ
  pub role : Role
  pub user_id : ℕ
  pub email : String
  pub first_name : Option String
  pub last_name : Option String

-- The condition of both lookups of a membership.
abbrev pub is_membership : ℕ → ℕ → Member → Bool
is_membership org_id user_id m = m.organization_id == org_id && m.user_id == user_id

abbrev pub member_view : Member → User → MemberView
member_view m u = record {
  membership_id = m.id;
  role = m.role;
  user_id = u.id;
  email = u.email;
  first_name = u.first_name;
  last_name = u.last_name;
}

-- The plan and the limit that an update leaves in the row.
unfoldable pub apply_update : UpdateRateLimitDto → Organization → Organization
apply_update dto org = elim dto.plan [
  | some plan ↦
      if not (is_enterprise plan)
      then record org { plan = plan; requests_per_minute = plan_rate_limits plan }
      else record org {
        plan = plan;
        requests_per_minute = or_default dto.requests_per_minute org.requests_per_minute;
      }
  | none ↦ record org {
    requests_per_minute = or_default dto.requests_per_minute org.requests_per_minute;
  }
]

module _ (orm : Orm) (redis : Redis) where
  pub record OrgState : Type 0 where
    pub orgs : orm.Table Organization
    pub members : orm.Table Member
    pub users : orm.Table User
    pub redis_store : redis.Store

module _ {orm : Orm} {redis : Redis} where
  -- `findOne`
  unfoldable pub find_one : ℕ → Action (OrgState orm redis) Organization
  find_one org_id = do
    org ← gets (λ s. orm.find_one (λ o. o.id == org_id) s.orgs)
    or_throw org no_org

  -- `assertType`
  unfoldable pub assert_type : ℕ → OrganizationType → Action (OrgState orm redis) (Unit {0})
  unfolding find_one
  assert_type org_id expected = do
    org ← find_one org_id
    throw_if (not (same_type org.type expected)) (wrong_type expected)

  -- `addMember`
  unfoldable pub add_member : ℕ → String → Role → Action (OrgState orm redis) MemberView
  unfolding find_by_email
  add_member org_id email role = do
    throw_if (is_owner role) (forbidden "Cannot assign the OWNER role")
    found ← gets (λ s. find_by_email orm email s.users)
    invitee ←
        or_throw found (not_found "No registered user with that email. They must sign up first.")
    already ← gets (λ s. orm.find_one (is_membership org_id invitee.id) s.members)
    throw_if (is_some already) (conflict "User is already a member of this org")
    id ← gets (λ s. orm.fresh s.members)
    let membership : Member = record {
      id = id;
      organization_id = org_id;
      user_id = invitee.id;
      role = role;
    }
    modify (λ s. record s { members = orm.save membership s.members })
    pure (member_view membership invitee)

  -- `getMembershipOrThrow`
  unfoldable pub get_membership_or_throw : ℕ → ℕ → Action (OrgState orm redis) Member
  get_membership_or_throw org_id user_id = do
    membership ← gets (λ s. orm.find_one (is_membership org_id user_id) s.members)
    or_throw membership (forbidden "You are not a member of this organization")

  -- `getRateLimit`
  unfoldable pub get_rate_limit : ℕ → Action (OrgState orm redis) ℕ
  get_rate_limit org_id = do
    found ← gets (λ s. orm.find_one (λ o. o.id == org_id) s.orgs)
    org ← or_throw found no_org
    pure org.requests_per_minute

  -- `updateRateLimit`
  unfoldable pub update_rate_limit : ℕ → UpdateRateLimitDto → Action (OrgState orm redis) (Plan × ℕ)
  unfolding find_one apply_update
  update_rate_limit org_id dto = do
    found ← find_one org_id
    let org = apply_update dto found
    modify (λ s. record s { orgs = orm.save org s.orgs })
    modify (λ s. record s { redis_store = redis.del (limit_key org_id) s.redis_store })
    pure (org.plan, org.requests_per_minute)
