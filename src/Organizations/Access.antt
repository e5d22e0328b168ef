-- ===== src/Organizations/Access.antt =====
-- Who gets past the role guard.
use developer_platform_backe.Prelude.{
  ℕ, ◌≤◌, String, ◌≡◌, ◌⊎◌, inl, inr, Option, some, List, [], ◌∷◌, arith, ltb, if◌then◌else◌,
  Option-cases, Any,
}
use developer_platform_backe.Prelude.Action.{ok, err}
use developer_platform_backe.Orm.{Orm}
use Prim.Native.Nat.{min}
use developer_platform_backe.Orm.Laws.{find_one-eq-some}
use developer_platform_backe.Redis.{Redis}
use developer_platform_backe.Enums.{Role, role_rank}
use developer_platform_backe.Organizations.{
  Member, member_entity, OrgState, is_membership, get_membership_or_throw,
}
use developer_platform_backe.Organizations.Guard.{
  GuardRequest, truthy, extract_org_id, lowest_rank, can_activate, too_low,
}

-- Some listed role asks for no more than the rank.
abbrev pub Admits : ℕ → List Role → Type 0
Admits rank roles = Any (λ r. role_rank r ≤ rank) roles

lowest_rank-le :
    (n rank : ℕ) (rs : List Role) → lowest_rank n rs ≤ rank → (n ≤ rank) ⊎ Admits rank rs
unfolding lowest_rank
lowest_rank-le n rank [] h = inl h
lowest_rank-le n rank (r ∷ rs) h = ground (arith, lowest_rank-le (min n (role_rank r)) rank rs h)

lowest_rank-bound : (n rank : ℕ) (rs : List Role) → n ≤ rank → lowest_rank n rs ≤ rank
unfolding lowest_rank
lowest_rank-bound n rank [] h = h
lowest_rank-bound n rank (r ∷ rs) h = lowest_rank-bound (min n (role_rank r)) rank rs (omega arith)

lowest_rank-Admits : (n rank : ℕ) (rs : List Role) → Admits rank rs → lowest_rank n rs ≤ rank
unfolding lowest_rank
lowest_rank-Admits n rank [] h = absurd h
lowest_rank-Admits n rank (r ∷ rs) (inl h) =
    lowest_rank-bound (min n (role_rank r)) rank rs (omega arith)
lowest_rank-Admits n rank (r ∷ rs) (inr h) = lowest_rank-Admits (min n (role_rank r)) rank rs h

lowest_rank-Admits_cons :
    (rank : ℕ) (role : Role) (roles : List Role)
    → Admits rank (role ∷ roles)
    → lowest_rank (role_rank role) roles ≤ rank
lowest_rank-Admits_cons rank role roles (inl h) = lowest_rank-bound (role_rank role) rank roles h
lowest_rank-Admits_cons rank role roles (inr h) = lowest_rank-Admits (role_rank role) rank roles h

module _ {orm : Orm} {redis : Redis} where
  -- No two memberships of one user in one organization (the table's unique constraint).
  abbrev pub HasUniqueMembers : OrgState orm redis → Type 0
  HasUniqueMembers s =
      (a b : Member)
      → orm.get a.id s.members ≡ some a
      → orm.get b.id s.members ≡ some b
      → a.organization_id ≡ b.organization_id
      → a.user_id ≡ b.user_id
      → a.id ≡ b.id

module _ {orm : Orm} {redis : Redis} (uuid : String → Option ℕ) where
  -- The caller `user` is a member of the organization that the request names, with a rank that one
  -- of the roles asks for.
  pub record IsEntitled (roles : List Role) (req : GuardRequest) (s : OrgState orm redis)
      (m : Member) : Type 0 where
    pub stored : orm.get m.id s.members ≡ some m
    pub user : req.user ≡ some m.user_id
    pub text : String
    pub named : truthy (extract_org_id req) ≡ some text
    pub organization : uuid text ≡ some m.organization_id
    pub admitted : Admits (role_rank m.role) roles

  -- The guard's answer once the membership is found.
  answer :
      (role : Role) (roles : List Role) (req : GuardRequest) (s : OrgState orm redis) (user org : ℕ)
      (text : String) (m : Member)
      → req.user ≡ some user
      → truthy (extract_org_id req) ≡ some text
      → uuid text ≡ some org
      → orm.find_one (is_membership org user) s.members ≡ some m
      → let required = lowest_rank (role_rank role) roles in
        can_activate uuid (some (role ∷ roles)) req s
        ≡ (if ltb (role_rank m.role) required then err (too_low required) else ok (some m), s)
  unfolding can_activate get_membership_or_throw
  answer role roles req s user org text m who named parsed member = ground arith

  entitled :
      (role : Role) (roles : List Role) (req : GuardRequest) (s : OrgState orm redis) (user org : ℕ)
      (text : String) (m : Member)
      → req.user ≡ some user
      → truthy (extract_org_id req) ≡ some text
      → uuid text ≡ some org
      → orm.find_one (is_membership org user) s.members ≡ some m
      → lowest_rank (role_rank role) roles ≤ role_rank m.role
      → IsEntitled (role ∷ roles) req s m
  entitled role roles req s user org text m who named parsed member high =
      let (same, stored) = orm.find_one_sound (is_membership org user) s.members m member in
      record {
        stored = stored;
        user = ground arith;
        text = text;
        named = named;
        organization = ground arith;
        admitted = lowest_rank-le (role_rank role) (role_rank m.role) roles high;
      }

  -- When the guard passes a request on a route with roles, it attaches the membership of the caller
  -- in the organization that the request names, and that membership's rank reaches a listed role.
  pub can_activate-IsEntitled :
      (role : Role) (roles : List Role) (req : GuardRequest) (s : OrgState orm redis)
      (found : Option Member)
      → (can_activate uuid (some (role ∷ roles)) req s).0 ≡ ok found
      → (m : Member) × (found ≡ some m) × IsEntitled (role ∷ roles) req s m
  unfolding can_activate get_membership_or_throw
  can_activate-IsEntitled role roles req s found h = elim (Option-cases req.user) [
    | inl anonymous ↦ ground arith
    | inr (user, who) ↦ elim (Option-cases (truthy (extract_org_id req))) [
      | inl missing ↦ ground arith
      | inr (text, named) ↦ elim (Option-cases (uuid text)) [
        | inl malformed ↦ ground arith
        | inr (org, parsed) ↦
            elim (Option-cases (orm.find_one (is_membership org user) s.members)) [
              | inl stranger ↦ ground arith
              | inr (m, member) ↦ (
                m,
                ground arith,
                entitled role roles req s user org text m who named parsed member (ground arith),
              )
            ]
      ]
    ]
  ]

  -- The other way round: while no user is twice a member of an organization, every caller with a
  -- membership of sufficient rank in the organization that the request names gets past the guard,
  -- and it is this membership that is attached.
  pub IsEntitled-can_activate :
      (role : Role) (roles : List Role) (req : GuardRequest) (s : OrgState orm redis) (m : Member)
      → HasUniqueMembers s
      → IsEntitled (role ∷ roles) req s m
      → can_activate uuid (some (role ∷ roles)) req s ≡ (ok (some m), s)
  IsEntitled-can_activate role roles req s m unique h =
      let member =
        find_one-eq-some orm (is_membership m.organization_id m.user_id) s.members m.id m h.stored
          (ground arith)
          (λ x same stored. unique x m stored h.stored (ground arith) (ground arith)) in
      let high = lowest_rank-Admits_cons (role_rank m.role) role roles h.admitted in
      ground (
        arith,
        answer role roles req s m.user_id m.organization_id h.text m h.user h.named h.organization
            member,
      )
