-- ===== src/Organizations/Listing.antt =====
-- organizations/organizations.service.ts: the organizations of a user and the members of an
-- organization, two lists that join memberships with other rows.
use developer_platform_backe.Prelude.{
  ℕ, String, ◌≡◌, refl, sym, ◌∙◌, ◌≢◌, ◌↔◌, inl, inr, Bool, true, Option, none, some, List, [], ◌∷◌,
  arith, ◌==◌, Option-cases, All, Any, All-weaken,
}
use developer_platform_backe.Prelude.Action.{ok, HttpError, failure, Action, gets, or_throw, ◌>>=◌}
use developer_platform_backe.Orm.{Orm}
use developer_platform_backe.Organizations.{
  Organization, organization_entity, Member, member_entity, MemberView, member_view, OrgState,
}
use developer_platform_backe.Users.{User, user_entity}
use developer_platform_backe.Enums.{OrganizationType, Role}
use developer_platform_backe.Redis.{Redis}
use developer_platform_backe.Organizations.Founding.{HasKnownOrgs}
use mathlib.Core.Path.{subst}

-- An entry of `findMyOrganizations`.
pub record MyOrganization : Type 0 where
  pub id : ℕ
  pub name : String
  pub slug : String
  pub type : OrganizationType
  pub role : Role

abbrev pub my_organization : Member → Organization → MyOrganization
my_organization m org = record {
  id = org.id;
  name = org.name;
  slug = org.slug;
  type = org.type;
  role = m.role;
}

-- Reading a relation that was not found, which is null.
abbrev pub null_relation : HttpError
null_relation = failure "Cannot read properties of null"

module _ {R E : Type 0} (relation : Member → Option R) (view : Member → R → E) where
  -- An entry in front of the others, if its relation was found.
  abbrev pub add_entry : Member → Option R → Option (List E) → Option (List E)
  add_entry m none rest = none
  add_entry m (some row) none = none
  add_entry m (some row) (some rest) = some (view m row ∷ rest)

  -- `members.map((m) => …)`, where the view reads a relation of `m`.
  unfoldable pub map_joined : List Member → Option (List E)
  map_joined [] = some []
  map_joined (m ∷ ms) = add_entry m (relation m) (map_joined ms)

  pub map_joined_lem :
      (W : E → Type 0) (V : Member → Type 0)
      → ((m : Member) (r : R) → relation m ≡ some r → W (view m r) ↔ V m)
      → (ms : List Member) → All (λ m. (r : R) × (relation m ≡ some r)) ms
      → (es : List E) × (map_joined ms ≡ some es) × (Any W es ↔ Any V ms)
  unfolding map_joined
  map_joined_lem W V same [] known = ([], refl, (λ h. h, λ h. h))
  map_joined_lem W V same (m ∷ ms) ((row, found), known) =
      let rest = map_joined_lem W V same ms known in
      let here = same m row found in
      (
        view m row ∷ rest.0,
        rw (found, rest.1) refl,
        (
          λ h. elim h [ inl w ↦ inl (here.0 w) | inr k ↦ inr (rest.2.0 k) ],
          λ h. elim h [ inl v ↦ inl (here.1 v) | inr k ↦ inr (rest.2.1 k) ],
        ),
      )

eqb_eq : {a b : ℕ} → (a == b) ≡ true → a ≡ b
eqb_eq h = ground arith

eq_eqb : {a b : ℕ} → a ≡ b → (a == b) ≡ true
eq_eqb h = ground arith

Any-equal :
    (V : Member → Type 0) (m : Member) (ms : List Member) → V m → Any (λ x. x ≡ m) ms → Any V ms
Any-equal V m [] v h = elim h [ ]
Any-equal V m (x ∷ ms) v (inl e) = inl (subst V (sym e) v)
Any-equal V m (x ∷ ms) v (inr h) = inr (Any-equal V m ms v h)

module _ (orm : Orm) where
  Any-stored :
      (p : Member → Bool) (V : Member → Type 0) (t : orm.Table Member) (ms : List Member)
      → All (λ m. (p m ≡ true) × (orm.get m.id t ≡ some m)) ms
      → Any V ms
      → (m : Member) × (orm.get m.id t ≡ some m) × (p m ≡ true) × V m
  Any-stored p V t [] all h = elim h [ ]
  Any-stored p V t (m ∷ ms) (here, all) (inl v) = (m, here.1, here.0, v)
  Any-stored p V t (m ∷ ms) (here, all) (inr h) = Any-stored p V t ms all h

  -- What some found row satisfies is what some stored row of the condition satisfies.
  Any-find_iff :
      (p : Member → Bool) (V : Member → Type 0) (t : orm.Table Member)
      → Any V (orm.find p t) ↔ ((m : Member) × (orm.get m.id t ≡ some m) × (p m ≡ true) × V m)
  Any-find_iff p V t = (
    Any-stored p V t (orm.find p t) (orm.find_sound p t),
    λ h. Any-equal V h.0 (orm.find p t) h.3 (orm.find_complete p t h.0.id h.0 h.1 h.2),
  )

  -- The relations of the found memberships are all found.
  All-known :
      {R : Type 0} (relation : Member → Option R) (p : Member → Bool) (t : orm.Table Member)
      → ((m : Member) → orm.get m.id t ≡ some m → relation m ≢ none)
      → All (λ m. (r : R) × (relation m ≡ some r)) (orm.find p t)
  All-known {R} relation p t known =
      All-weaken
        (λ (m : Member) (h : (p m ≡ true) × (orm.get m.id t ≡ some m)).
          elim (Option-cases (relation m)) [
            | inl missing ↦ elim (known m h.1 missing) [ ]
            | inr found ↦ found
          ])
        (orm.find p t) (orm.find_sound p t)

module _ {orm : Orm} {redis : Redis} where
  -- `findMyOrganizations`
  unfoldable pub find_my_organizations : ℕ → Action (OrgState orm redis) (List MyOrganization)
  unfolding map_joined
  find_my_organizations user_id = do
    memberships ← gets (λ s. orm.find (λ (m : Member). m.user_id == user_id) s.members)
    entries ←
        gets (λ s. map_joined (λ m. orm.get m.organization_id s.orgs) my_organization memberships)
    or_throw entries null_relation

  -- `listMembers`
  unfoldable pub list_members : ℕ → Action (OrgState orm redis) (List MemberView)
  unfolding map_joined
  list_members org_id = do
    members ← gets (λ s. orm.find (λ (m : Member). m.organization_id == org_id) s.members)
    entries ← gets (λ s. map_joined (λ m. orm.get m.user_id s.users) member_view members)
    or_throw entries null_relation

  -- A membership is of a stored user (the foreign key of the table).
  abbrev pub HasKnownUsers : OrgState orm redis → Type 0
  HasKnownUsers s =
      (m : Member) → orm.get m.id s.members ≡ some m → orm.get m.user_id s.users ≢ none

  -- The user is stored as a member of the organization in the role.
  abbrev pub HasRole : (org user : ℕ) → Role → OrgState orm redis → Type 0
  HasRole org user role s =
      (m : Member) × (orm.get m.id s.members ≡ some m)
      × (m.organization_id ≡ org)
      × (m.user_id ≡ user)
      × (m.role ≡ role)

  module _ (org user : ℕ) (role : Role) (s : OrgState orm redis) where
    abbrev pub IsMine : MyOrganization → Type 0
    IsMine e = (e.id ≡ org) × (e.role ≡ role)

    abbrev pub IsOnTeam : MemberView → Type 0
    IsOnTeam v = (v.user_id ≡ user) × (v.role ≡ role)

    mine_lem :
        HasKnownOrgs s
        → (es : List MyOrganization) × (find_my_organizations user s ≡ (ok es, s))
          × (Any IsMine es ↔ HasRole org user role s)
    unfolding find_my_organizations
    mine_lem known =
        let relation : Member → Option Organization = λ m. orm.get m.organization_id s.orgs in
        let p : Member → Bool = λ m. m.user_id == user in
        let V : Member → Type 0 = λ m. (m.organization_id ≡ org) × (m.role ≡ role) in
        let joined =
          map_joined_lem relation my_organization IsMine V
            (λ m r found.
              let keys = orm.get_key m.organization_id s.orgs r found in
              (λ h. (sym keys ∙ h.0, h.1), λ h. (keys ∙ h.0, h.1)))
            (orm.find p s.members) (All-known orm relation p s.members known) in
        let stored = Any-find_iff orm p V s.members in
        (
          joined.0,
          rw joined.1 refl,
          (
            λ h. let f = stored.0 (joined.2.0 h) in (f.0, f.1, f.3.0, eqb_eq (f.2), f.3.1),
            λ h. joined.2.1 (stored.1 (h.0, h.1, eq_eqb h.3, (h.2, h.4))),
          ),
        )

    team_lem :
        HasKnownUsers s
        → (es : List MemberView) × (list_members org s ≡ (ok es, s))
          × (Any IsOnTeam es ↔ HasRole org user role s)
    unfolding list_members
    team_lem known =
        let relation : Member → Option User = λ m. orm.get m.user_id s.users in
        let p : Member → Bool = λ m. m.organization_id == org in
        let V : Member → Type 0 = λ m. (m.user_id ≡ user) × (m.role ≡ role) in
        let joined =
          map_joined_lem relation member_view IsOnTeam V
            (λ m r found.
              let keys = orm.get_key m.user_id s.users r found in
              (λ h. (sym keys ∙ h.0, h.1), λ h. (keys ∙ h.0, h.1)))
            (orm.find p s.members) (All-known orm relation p s.members known) in
        let stored = Any-find_iff orm p V s.members in
        (
          joined.0,
          rw joined.1 refl,
          (
            λ h. let f = stored.0 (joined.2.0 h) in (f.0, f.1, eqb_eq (f.2), f.3.0, f.3.1),
            λ h. joined.2.1 (stored.1 (h.0, h.1, eq_eqb h.2, (h.3, h.4))),
          ),
        )

    -- With every stored membership of a stored organization and a stored user, both lists succeed and
    -- change nothing. The user's list has the organization with a role exactly when a membership of the
    -- user in it with that role is stored, and exactly when the organization's list has the user with
    -- that role.
    pub lists-AreMutual :
        HasKnownOrgs s
        → HasKnownUsers s
        → (mine : List MyOrganization) × (team : List MemberView) × (find_my_organizations user s
            ≡ (ok mine, s))
          × (list_members org s ≡ (ok team, s))
          × (Any IsMine mine ↔ HasRole org user role s)
          × (Any IsMine mine ↔ Any IsOnTeam team)
    lists-AreMutual orgs users =
        let mine = mine_lem orgs in
        let team = team_lem users in
        (
          mine.0,
          team.0,
          mine.1,
          team.1,
          mine.2,
          (λ h. team.2.1 (mine.2.0 h), λ h. mine.2.1 (team.2.0 h)),
        )
