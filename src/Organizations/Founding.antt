-- ===== src/Organizations/Founding.antt =====
-- Creating an organization always ends, with a slug of its own and with an owner.
use developer_platform_backe.Slug.Table.{HasDistinctSlugs, search_slug, save-HasDistinctSlugs}
use developer_platform_backe.Organizations.Members.{found_new_member}
use developer_platform_backe.Orm.Laws.{find_one-eq-none, get-save_self}
use developer_platform_backe.Slug.Shape.{is_slug}
use developer_platform_backe.Organizations.Creation.{
  slug_exists, generate_unique_slug, create, new_organization,
}
use developer_platform_backe.Slug.{Texts}
use developer_platform_backe.Redis.{Redis}
use developer_platform_backe.Organizations.{
  organization_entity, member_entity, OrgState, Organization, Member, is_membership,
  get_membership_or_throw,
}
use developer_platform_backe.Enums.{owner, OrganizationType}
use developer_platform_backe.Prelude.{
  ℕ, String, ◌≡◌, refl, ap, ◌∙◌, ◌≢◌, inl, inr, true, false, none, some, arith, Bool-cases,
}
use developer_platform_backe.Prelude.Action.{ok}
use developer_platform_backe.Orm.{Orm}

module _ {orm : Orm} {redis : Redis} where
  -- The unique index on the slug.
  abbrev pub HasUniqueSlugs : OrgState orm redis → Type 0
  HasUniqueSlugs s = HasDistinctSlugs orm (λ o. o.slug) s.orgs

  -- A membership is of a stored organization (the foreign key of the table).
  abbrev pub HasKnownOrgs : OrgState orm redis → Type 0
  HasKnownOrgs s =
      (m : Member) → orm.get m.id s.members ≡ some m → orm.get m.organization_id s.orgs ≢ none

  module _ (texts : Texts) (name : String) (s : OrgState orm redis) where
    -- The search for a slug ends with one that is well formed and that no organization has, and changes
    -- nothing.
    pub generate_unique_slug_total :
        (slug : String) × (generate_unique_slug texts name s ≡ (ok slug, s))
        × (slug_exists texts s slug ≡ false)
        × (is_slug slug ≡ true)
    unfolding generate_unique_slug
    generate_unique_slug_total =
        let (slug, found, unused, shape) =
          search_slug orm (λ o. o.slug) texts "org" name s.orgs refl in
        (slug, rw found refl, unused, shape)

  -- What a creation wrote and returned.
  pub record IsFounded (texts : Texts) (user : ℕ) (name : String) (type : OrganizationType)
      (s s' : OrgState orm redis) (org : Organization) : Type 0 where
    pub columns : org ≡ new_organization (orm.fresh s.orgs) name org.slug type
    pub well_formed : is_slug org.slug ≡ true
    pub accounts : s'.users ≡ s.users
    pub untaken : slug_exists texts s org.slug ≡ false
    pub stored : orm.get org.id s'.orgs ≡ some org
    pub others : (k : ℕ) (o : Organization) → orm.get k s.orgs ≡ some o → orm.get k s'.orgs ≡ some o
    pub owned : get_membership_or_throw org.id user s' ≡ (
      ok (record {
        id = orm.fresh s.members;
        organization_id = org.id;
        user_id = user;
        role = owner;
      }),
      s',
    )

  -- The new organization has no members yet.
  no_members :
      (user : ℕ) (s : OrgState orm redis)
      → HasKnownOrgs s
      → orm.find_one (is_membership (orm.fresh s.orgs) user) s.members ≡ none
  no_members user s known =
      find_one-eq-none orm (is_membership (orm.fresh s.orgs) user) s.members (λ m stored.
        elim (Bool-cases (is_membership (orm.fresh s.orgs) user m)) [
          | inr other ↦ other
          | inl same ↦
              let here : m.organization_id ≡ orm.fresh s.orgs = ground arith in
              absurd (known m stored (ap (λ k. orm.get k s.orgs) here ∙ orm.get-fresh s.orgs))
        ])

  abbrev founded : ℕ → Organization → OrgState orm redis → OrgState orm redis
  founded user org s = record s {
    orgs = orm.save org s.orgs;
    members =
        orm.save
          (record {
            id = orm.fresh s.members;
            organization_id = org.id;
            user_id = user;
            role = owner;
          })
          s.members;
  }

  pub create_lem :
      (texts : Texts) (user : ℕ) (name slug : String) (type : OrganizationType)
      (s : OrgState orm redis)
      → generate_unique_slug texts name s ≡ (ok slug, s)
      → create texts user name type s ≡ (
        ok (new_organization (orm.fresh s.orgs) name slug type),
        founded user (new_organization (orm.fresh s.orgs) name slug type) s,
      )
  unfolding create
  create_lem texts user name slug type s run = ground (arith, run)

  -- Creating an organization succeeds whatever the name and the organizations there are: a row under a
  -- new key with the name and type, the FREE plan and its limit, and a well-formed slug that no
  -- organization had; the user is its OWNER, and every organization that was stored still is.
  pub create-IsFounded :
      (texts : Texts) (user : ℕ) (name : String) (type : OrganizationType) (s : OrgState orm redis)
      → HasKnownOrgs s
      → (org : Organization) × ((create texts user name type s).0 ≡ ok org)
        × IsFounded texts user name type s (create texts user name type s).1 org
  unfolding get_membership_or_throw
  create-IsFounded texts user name type s known =
      let (slug, run, unused, shape) = generate_unique_slug_total texts name s in
      let org : Organization = new_organization (orm.fresh s.orgs) name slug type in
      rw (create_lem texts user name slug type s run) (
        org,
        refl,
        record {
          columns = refl;
          well_formed = shape;
          accounts = refl;
          untaken = unused;
          stored = get-save_self orm org s.orgs;
          others = λ k o h. ground (arith, orm.get-save k org s.orgs, orm.get-fresh s.orgs);
          owned = rw (found_new_member org.id user owner s (no_members user s known)) refl;
        },
      )

  -- Creating an organization keeps the slugs of the stored organizations distinct.
  pub create-HasUniqueSlugs :
      (texts : Texts) (user : ℕ) (name : String) (type : OrganizationType) (s : OrgState orm redis)
      → HasUniqueSlugs s
      → HasUniqueSlugs (create texts user name type s).1
  create-HasUniqueSlugs texts user name type s unique =
      let (slug, run, unused, shape) = generate_unique_slug_total texts name s in
      let org : Organization = new_organization (orm.fresh s.orgs) name slug type in
      rw (create_lem texts user name slug type s run)
        (save-HasDistinctSlugs orm (λ o. o.slug) org s.orgs unused unique)
