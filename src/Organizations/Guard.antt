-- ===== src/Organizations/Guard.antt =====
-- organizations/guards/org-roles.guard.ts: the check of `@Roles(...)` on organization routes.
use Prim.Native.Nat.{min}
use Prim.Native.String.{◌++◌ as text_append}
use text.Mathlib.Text.{◌==◌ as str_eq}
use developer_platform_backe.Prelude.{
  ℕ, Option, none, some, List, [], ◌∷◌, String, ltb, if◌then◌else◌, ◌==◌,
}
use developer_platform_backe.Prelude.Action.{
  Action, pure, or_throw, throw_if, ◌>>=◌, ◌>>◌, bad_request, forbidden,
}
use developer_platform_backe.Orm.{Orm}
use developer_platform_backe.Redis.{Redis}
use developer_platform_backe.Enums.{Role, admin, developer, viewer, role_rank}
use developer_platform_backe.Organizations.{Member, OrgState, get_membership_or_throw, HttpError}

-- What the guard reads of a request: the user that JwtAuthGuard attached, the route parameters
-- `organizationId`, `orgId` and `id`, and the body's `organizationId` if that is a string.
pub record GuardRequest : Type 0 where
  pub user : Option ℕ
  pub organization_id_param : Option String
  pub org_id_param : Option String
  pub id_param : Option String
  pub organization_id_body : Option String

-- A text that is neither missing nor empty.
abbrev pub truthy : Option String → Option String
truthy none = none
truthy (some t) = if str_eq t "" then none else some t

abbrev pub or_else : Option String → Option String → Option String
or_else none b = b
or_else (some a) b = some a

-- `extractOrgId`
unfoldable pub extract_org_id : GuardRequest → Option String
extract_org_id req =
    or_else (truthy req.organization_id_param)
      (or_else (truthy req.org_id_param) (or_else (truthy req.id_param) req.organization_id_body))

-- `Math.min(...)` of the ranks of a role and of others
unfoldable pub lowest_rank : ℕ → List Role → ℕ
lowest_rank n [] = n
lowest_rank n (r ∷ rs) = lowest_rank (min n (role_rank r)) rs

-- `roleForRank`: the first role of `ROLE_RANK` with the rank, as its text
unfoldable pub role_for_rank : ℕ → String
role_for_rank rank =
    if rank == role_rank viewer
    then "viewer"
    else if rank == role_rank developer
    then "developer"
    else if rank == role_rank admin
    then "admin"
    else "owner"

abbrev pub too_low : ℕ → HttpError
too_low rank =
    forbidden (text_append "Requires at least the '" (text_append (role_for_rank rank) "' role"))

-- `uuid` is class-validator's `isUUID`, with the key that a valid text stands for.
module _ {orm : Orm} {redis : Redis} (uuid : String → Option ℕ) where
  -- `canActivate`, with the membership that it attaches to the request.
  unfoldable pub can_activate :
      Option (List Role) → GuardRequest → Action (OrgState orm redis) (Option Member)
  can_activate none req = pure none
  can_activate (some []) req = pure none
  can_activate (some (role ∷ roles)) req = do
    user ← or_throw req.user (forbidden "Authentication required")
    text ←
        or_throw (truthy (extract_org_id req))
          (bad_request "Organization id is required for this route")
    org_id ← or_throw (uuid text) (bad_request "Invalid organization id")
    membership ← get_membership_or_throw org_id user
    let required = lowest_rank (role_rank role) roles
    throw_if (ltb (role_rank membership.role) required) (too_low required)
    pure (some membership)
