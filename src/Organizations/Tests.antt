-- ===== src/Organizations/Tests.antt =====
-- Members and the role guard on concrete tables, and the theorems at inputs that meet their
-- hypotheses.
use developer_platform_backe.Organizations.Listing.{
  HasKnownUsers, list_members, find_my_organizations, MyOrganization, map_joined, my_organization,
  IsMine, null_relation, HasRole, IsOnTeam, lists-AreMutual,
}
use developer_platform_backe.Slug.Shape.{is_slug}
use developer_platform_backe.Slug.Instances.{plain_texts}
use developer_platform_backe.Organizations.Founding.{HasKnownOrgs, generate_unique_slug_total}
use developer_platform_backe.Prelude.{
  ℕ, String, ◌≡◌, refl, inl, true, Option, none, some, [], ◌∷◌, arith, if◌then◌else◌, false, List,
  Any, ◌↔◌,
}
use developer_platform_backe.Prelude.Action.{ok, err, forbidden}
use text.Mathlib.Text.{◌==◌ as str_eq}
use developer_platform_backe.Enums.{owner, admin, developer, viewer, free, subscriber, role_rank}
use developer_platform_backe.Orm.{list_orm}
use developer_platform_backe.Orm.ListTable.{list_tables}
use developer_platform_backe.Redis.{map_redis}
use developer_platform_backe.Users.{User}
use developer_platform_backe.Organizations.{
  Member, Organization, OrgState, add_member, get_membership_or_throw, MemberView, member_view,
}
use developer_platform_backe.Organizations.Guard.{
  GuardRequest, can_activate, extract_org_id, lowest_rank,
}
use developer_platform_backe.Organizations.Access.{
  HasUniqueMembers, IsEntitled, can_activate-IsEntitled, IsEntitled-can_activate,
}
use developer_platform_backe.Organizations.Creation.{generate_unique_slug, slug_exists}
use developer_platform_backe.Slug.{base_of, free_slug, squeeze, drop_dashes, strip_end}
use developer_platform_backe.Organizations.Members.{AddOutcome, add_member-AddOutcome}

abbrev ann : User
ann = record {
  id = 1;
  email = "ann@x";
  password_hash = "h";
  first_name = some "Ann";
  last_name = none;
  is_active = true;
}

abbrev bob : User
bob = record {
  id = 2;
  email = "bob@x";
  password_hash = "h";
  first_name = none;
  last_name = none;
  is_active = true;
}

abbrev acme : Organization
acme = record {
  id = 7;
  name = "Acme";
  slug = "acme";
  type = subscriber;
  plan = free;
  requests_per_minute = 100;
}

abbrev ann_owns : Member
ann_owns = record { id = 5; organization_id = 7; user_id = 1; role = owner }

abbrev tables : OrgState list_orm map_redis
tables = record {
  orgs = acme ∷ [];
  members = ann_owns ∷ [];
  users = bob ∷ ann ∷ [];
  redis_store = λ k. none;
}

tables-HasUniqueMembers : HasUniqueMembers tables
unfolding list_tables
tables-HasUniqueMembers a b ga gb same_org same_user = ground arith

abbrev uuid : String → Option ℕ
uuid t = if str_eq t "org-7" then some 7 else none

abbrev request : Option ℕ → GuardRequest
request user = record {
  user = user;
  organization_id_param = none;
  org_id_param = some "";
  id_param = some "org-7";
  organization_id_body = none;
}

guard_runs :
    ((can_activate uuid (some (admin ∷ [])) (request (some 1)) tables).0 ≡ ok (some ann_owns))
    × ((can_activate uuid (some (viewer ∷ [])) (request (some 2)) tables).0
        ≡ err (forbidden "You are not a member of this organization"))
    × ((can_activate uuid none (request none) tables).0 ≡ ok none)
unfolding can_activate extract_org_id lowest_rank role_rank get_membership_or_throw list_tables
guard_runs = (refl, refl, refl)

can_activate-IsEntitled_example :
    (m : Member) × (◌≡◌ {A = Option Member} (some ann_owns) (some m))
    × IsEntitled uuid (admin ∷ developer ∷ []) (request (some 1)) tables m
unfolding can_activate extract_org_id lowest_rank role_rank get_membership_or_throw list_tables
can_activate-IsEntitled_example =
    can_activate-IsEntitled uuid admin (developer ∷ []) (request (some 1)) tables (some ann_owns)
      refl

ann-IsEntitled : IsEntitled uuid (admin ∷ []) (request (some 1)) tables ann_owns
unfolding extract_org_id role_rank list_tables
ann-IsEntitled = record {
  stored = refl;
  user = refl;
  text = "org-7";
  named = refl;
  organization = refl;
  admitted = inl (omega arith);
}

IsEntitled-can_activate_example :
    can_activate uuid (some (admin ∷ [])) (request (some 1)) tables ≡ (ok (some ann_owns), tables)
IsEntitled-can_activate_example =
    IsEntitled-can_activate uuid admin [] (request (some 1)) tables ann_owns tables-HasUniqueMembers
      ann-IsEntitled

add_member-AddOutcome_example :
    AddOutcome 7 "bob@x" owner tables (add_member 7 "bob@x" owner tables)
add_member-AddOutcome_example = add_member-AddOutcome 7 "bob@x" owner tables

tables-HasKnownOrgs : HasKnownOrgs tables
unfolding list_tables
tables-HasKnownOrgs m stored = ground arith

-- A name whose slug is taken gets a number.
slug_runs : generate_unique_slug plain_texts "acme!" tables ≡ (ok "acme-111", tables)
unfolding generate_unique_slug free_slug base_of squeeze drop_dashes strip_end list_tables
slug_runs = refl

generate_unique_slug_total_example :
    (slug : String) × (generate_unique_slug plain_texts "acme!" tables ≡ (ok slug, tables))
    × (slug_exists plain_texts tables slug ≡ false)
    × (is_slug slug ≡ true)
generate_unique_slug_total_example = generate_unique_slug_total plain_texts "acme!" tables

tables-HasKnownUsers : HasKnownUsers tables
unfolding list_tables
tables-HasKnownUsers m stored = ground arith

lists_run :
    ((list_members 7 tables).0 ≡ ok (member_view ann_owns ann ∷ []))
    × ((find_my_organizations 1 tables).0 ≡ ok (my_organization ann_owns acme ∷ []))
    × ((find_my_organizations 2 tables).0 ≡ ok [])
    × ((find_my_organizations 1 (record tables { orgs = [] })).0 ≡ err null_relation)
unfolding list_members find_my_organizations map_joined list_tables
lists_run = (refl, refl, refl, refl)

lists-AreMutual_example :
    (mine : List MyOrganization) × (team : List MemberView) × (find_my_organizations 1 tables
      ≡ (ok mine, tables))
    × (list_members 7 tables ≡ (ok team, tables))
    × (Any (IsMine 7 1 owner tables) mine ↔ HasRole 7 1 owner tables)
    × (Any (IsMine 7 1 owner tables) mine ↔ Any (IsOnTeam 7 1 owner tables) team)
lists-AreMutual_example = lists-AreMutual 7 1 owner tables tables-HasKnownOrgs tables-HasKnownUsers
