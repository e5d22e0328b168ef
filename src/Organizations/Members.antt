-- ===== src/Organizations/Members.antt =====
-- Inviting a member: what `addMember` checks and what it writes.
use developer_platform_backe.Orm.Laws.{find_one-eq-some, get-save_self}
use developer_platform_backe.Prelude.{
  ℕ, String, ◌≡◌, refl, inl, inr, false, none, some, arith, Bool-cases, Option-cases,
}
use developer_platform_backe.Prelude.Action.{Result, ok, err}
use developer_platform_backe.Orm.{Orm}
use text.Mathlib.Text.{◌==◌ as str_eq}
use text.Mathlib.TextEquality.{eq_iff}
use developer_platform_backe.Organizations.Access.{HasUniqueMembers}
use developer_platform_backe.Prelude.{
  ℕ, String, ◌≡◌, refl, inl, inr, false, none, some, Bool-cases, Option-cases,
}
use developer_platform_backe.Redis.{Redis}
use developer_platform_backe.Enums.{Role, is_owner}
use developer_platform_backe.Users.{User, user_entity}
use developer_platform_backe.Organizations.{
  Member, member_entity, MemberView, OrgState, is_membership, add_member, get_membership_or_throw,
}

module _ {orm : Orm} {redis : Redis} where
  abbrev pub new_member : ℕ → ℕ → Role → OrgState orm redis → Member
  new_member org user role s = record {
    id = orm.fresh s.members;
    organization_id = org;
    user_id = user;
    role = role;
  }

  abbrev with_member : Member → OrgState orm redis → OrgState orm redis
  with_member m s = record s { members = orm.save m s.members }

  -- What a successful invitation returned and wrote.
  pub record IsAdded (org : ℕ) (email : String) (role : Role) (s s' : OrgState orm redis)
      (view : MemberView) : Type 0 where
    pub not_owner : is_owner role ≡ false
    pub invitee : User
    pub account : orm.get invitee.id s.users ≡ some invitee
    pub address : invitee.email ≡ email
    pub newcomer : orm.find_one (is_membership org invitee.id) s.members ≡ none
    pub view_role : view.role ≡ role
    pub view_user : view.user_id ≡ invitee.id
    pub view_id : view.membership_id ≡ orm.fresh s.members
    pub written : s' ≡ with_member (new_member org invitee.id role s) s

  abbrev pub AddOutcome :
      ℕ → String → Role → OrgState orm redis → Result MemberView × OrgState orm redis → Type 0
  AddOutcome org email role s (ok view, s') = IsAdded org email role s s' view
  AddOutcome org email role s (err e, s') = s' ≡ s

  -- `addMember` lets a registered user in who is not yet a member, in any role but OWNER, and writes
  -- one new row. Otherwise it throws and changes nothing.
  pub add_member-AddOutcome :
      (org : ℕ) (email : String) (role : Role) (s : OrgState orm redis)
      → AddOutcome org email role s (add_member org email role s)
  unfolding add_member
  add_member-AddOutcome org email role s = elim (Bool-cases (is_owner role)) [
    | inl owner ↦ rw owner refl
    | inr lower ↦ elim (Option-cases (orm.find_one (λ u. str_eq u.email email) s.users)) [
      | inl unknown ↦ rw (lower, unknown) refl
      | inr (u, found) ↦ elim (Option-cases (orm.find_one (is_membership org u.id) s.members)) [
        | inr (m, already) ↦ rw (lower, found, already) refl
        | inl newcomer ↦
            rw (lower, found, newcomer)
              (let (same, stored) =
                  orm.find_one_sound (λ u. str_eq u.email email) s.users u found in
                record {
                  not_owner = lower;
                  invitee = u;
                  account = stored;
                  address = (eq_iff u.email email).0 same;
                  newcomer = newcomer;
                  view_role = refl;
                  view_user = refl;
                  view_id = refl;
                  written = refl;
                })
      ]
    ]
  ]

  with_member-HasUniqueMembers :
      (org user : ℕ) (role : Role) (s : OrgState orm redis)
      → HasUniqueMembers s
      → orm.find_one (is_membership org user) s.members ≡ none
      → HasUniqueMembers (with_member (new_member org user role s) s)
  with_member-HasUniqueMembers org user role s unique newcomer a b ga gb same_org same_user =
      let m : Member = new_member org user role s in
      ground (
        arith,
        orm.get-save a.id m s.members,
        orm.get-save b.id m s.members,
        orm.find_one_none (is_membership org user) s.members a.id a newcomer,
        orm.find_one_none (is_membership org user) s.members b.id b newcomer,
        unique a b,
      )

  -- Whatever the invitation, no user becomes a member of an organization twice: the constraint on
  -- the table is never violated by `addMember`.
  pub add_member-HasUniqueMembers :
      (org : ℕ) (email : String) (role : Role) (s : OrgState orm redis)
      → HasUniqueMembers s
      → HasUniqueMembers (add_member org email role s).1
  add_member-HasUniqueMembers org email role s unique =
      go (add_member org email role s) (add_member-AddOutcome org email role s)
    where
      go :
          (r : Result MemberView × OrgState orm redis)
          → AddOutcome org email role s r
          → HasUniqueMembers r.1
      go (ok view, s') added =
          rw (added.written)
            (with_member-HasUniqueMembers org added.invitee.id role s unique added.newcomer)
      go (err e, s') same = rw same unique

  pub found_new_member :
      (org user : ℕ) (role : Role) (s : OrgState orm redis)
      → orm.find_one (is_membership org user) s.members ≡ none
      → orm.find_one (is_membership org user) (orm.save (new_member org user role s) s.members)
        ≡ some (new_member org user role s)
  found_new_member org user role s newcomer =
      let m : Member = new_member org user role s in
      find_one-eq-some orm (is_membership org user) (orm.save m s.members) m.id m
        (get-save_self orm m s.members) (ground arith)
        (λ x same stored. ground (
          arith,
          orm.get-save x.id m s.members,
          orm.find_one_none (is_membership org user) s.members x.id x newcomer,
        ))

  -- The new member is found with the invitation's role, and no stored membership is touched.
  abbrev pub IsMemberNow : ℕ → ℕ → Role → (s s' : OrgState orm redis) → ℕ → Type 0
  IsMemberNow org user role s s' id =
      (get_membership_or_throw org user s'
        ≡ (ok (record { id = id; organization_id = org; user_id = user; role = role }), s'))
      × ((k : ℕ) (x : Member) → orm.get k s.members ≡ some x → orm.get k s'.members ≡ some x)

  with_member-IsMemberNow :
      (org user : ℕ) (role : Role) (s : OrgState orm redis)
      → orm.find_one (is_membership org user) s.members ≡ none
      → IsMemberNow org user role s
          (with_member (new_member org user role s) s)
          (orm.fresh s.members)
  unfolding get_membership_or_throw
  with_member-IsMemberNow org user role s newcomer = (
    rw (found_new_member org user role s newcomer),
    λ k x stored.
        ground
          (arith, orm.get-save k (new_member org user role s) s.members, orm.get-fresh s.members),
  )

  -- After a successful invitation the membership lookup finds the invited user with the role of the
  -- invitation, and every membership that was stored before is still stored unchanged.
  add_member-IsMemberNow :
      (org : ℕ) (email : String) (role : Role) (s : OrgState orm redis) (view : MemberView)
      → (add_member org email role s).0 ≡ ok view
      → IsMemberNow org view.user_id role s (add_member org email role s).1 view.membership_id
  add_member-IsMemberNow org email role s view done =
      go (add_member org email role s) done (add_member-AddOutcome org email role s)
    where
      go :
          (r : Result MemberView × OrgState orm redis)
          → r.0 ≡ ok view
          → AddOutcome org email role s r
          → IsMemberNow org view.user_id role s r.1 view.membership_id
      go (err e, s') h same = cc
      go (ok v, s') h added =
          let here = with_member-IsMemberNow org added.invitee.id role s added.newcomer in
          let same_view : v ≡ view = cc in
          rw (← same_view, added.written, added.view_user, added.view_id) here
