-- ===== src/Organizations/Creation.antt =====
-- organizations/organizations.service.ts, `create` and `generateUniqueSlug`.
use developer_platform_backe.Slug.{Texts, base_of, free_slug}
use developer_platform_backe.Redis.{Redis}
use developer_platform_backe.Organizations.{
  organization_entity, member_entity, Organization, OrgState, Member,
}
use developer_platform_backe.Enums.{free, owner, OrganizationType}
use developer_platform_backe.Prelude.{ℕ, ◌+◌, String, Bool, true, is_some, length}
use developer_platform_backe.Prelude.Action.{
  failure, Action, pure, gets, or_throw, ◌>>=◌, ◌>>◌, modify,
}
use developer_platform_backe.Orm.{Orm}
use text.Mathlib.Text.{◌==◌ as str_eq}

-- A row that `manager.create(Organization, …)` makes, with the defaults of the columns.
abbrev pub new_organization : ℕ → String → String → OrganizationType → Organization
new_organization id name slug type = record {
  id = id;
  name = name;
  slug = slug;
  type = type;
  plan = free;
  requests_per_minute = 100;
}

module _ {orm : Orm} {redis : Redis} (texts : Texts) where
  -- `exists({ where: { slug } })`
  abbrev pub slug_exists : OrgState orm redis → String → Bool
  slug_exists s slug = is_some (orm.find_one (λ o. str_eq o.slug slug) s.orgs)

  -- `generateUniqueSlug`, with a round for each organization and one more
  unfoldable pub generate_unique_slug : String → Action (OrgState orm redis) String
  generate_unique_slug name = do
    let base = base_of texts "org" name
    rows ← gets (λ s. length (orm.find (λ o. true) s.orgs))
    found ← gets (λ s. free_slug texts (slug_exists s) base (rows + 1) base 2)
    or_throw found (failure "no round is left")

  -- `create`; the transaction saves both rows.
  unfoldable pub create :
      (user_id : ℕ) → String → OrganizationType → Action (OrgState orm redis) Organization
  create user_id name type = do
    slug ← generate_unique_slug name
    id ← gets (λ s. orm.fresh s.orgs)
    let org = new_organization id name slug type
    modify (λ s. record s { orgs = orm.save org s.orgs })
    member_id ← gets (λ s. orm.fresh s.members)
    let membership : Member = record {
      id = member_id;
      organization_id = org.id;
      user_id = user_id;
      role = owner;
    }
    modify (λ s. record s { members = orm.save membership s.members })
    pure org
