-- ===== src/Billing/Plans.antt =====
-- Changing a plan: the subscription, the organization's plan and its rate limit.
use developer_platform_backe.Prelude.{ℕ, ◌≡◌, ◌∙◌, inl, inr, none, some, arith, Option-cases}
use developer_platform_backe.Prelude.Action.{ok, err}
use developer_platform_backe.Orm.{Orm}
use developer_platform_backe.Redis.{Redis}
use developer_platform_backe.Enums.{Plan}
use developer_platform_backe.Organizations.{
  Organization, organization_entity, UpdateRateLimitDto, no_org,
}
use developer_platform_backe.Organizations.Limits.{
  updated, update_rate_limit-found, update_rate_limit-missing,
}
use developer_platform_backe.Billing.Interface.{StripeSdk, Calendar}
use developer_platform_backe.Billing.{
  Subscription, subscription_entity, BillingState, with_terms, of_org, found_or_blank, apply_plan,
}
use developer_platform_backe.Orm.Laws.{find_one-eq-some, get-save_self}

abbrev pub to_plan : Plan → UpdateRateLimitDto
to_plan plan = record { plan = some plan; requests_per_minute = none }

module _ {orm : Orm} {redis : Redis} {sdk : StripeSdk} where
  -- One subscription per organization (the unique index of the table).
  abbrev pub HasUniqueSubs : BillingState orm redis sdk → Type 0
  HasUniqueSubs s =
      (a b : Subscription)
      → orm.get a.id s.subs ≡ some a
      → orm.get b.id s.subs ≡ some b
      → a.organization_id ≡ b.organization_id
      → a.id ≡ b.id

  -- The row that `applyPlan` saves.
  abbrev pub next_sub : Calendar → ℕ → ℕ → Plan → BillingState orm redis sdk → Subscription
  next_sub calendar now org plan s =
      with_terms calendar now plan (found_or_blank org (orm.find_one (of_org org) s.subs) s)

  abbrev pub with_sub : Subscription → BillingState orm redis sdk → BillingState orm redis sdk
  with_sub sub s = record s { subs = orm.save sub s.subs }

  -- Saving a row keeps the index unique if every stored row of its organization is that row.
  pub save-HasUniqueSubs :
      (n : Subscription) (s : BillingState orm redis sdk)
      → ((x : Subscription)
          → orm.get x.id s.subs ≡ some x
          → x.organization_id ≡ n.organization_id
          → x.id ≡ n.id)
      → HasUniqueSubs s
      → HasUniqueSubs (with_sub n s)
  save-HasUniqueSubs n s fits unique a b ga gb same =
      ground
        (arith, orm.get-save a.id n s.subs, orm.get-save b.id n s.subs, fits a, fits b, unique a b)

  module _ (calendar : Calendar) (now org : ℕ) (plan : Plan) (s : BillingState orm redis sdk) where
    pub apply_plan-known :
        (o : Organization)
        → orm.get org s.org_state.orgs ≡ some o
        → apply_plan calendar now org plan s ≡ (
          ok (next_sub calendar now org plan s),
          record (with_sub (next_sub calendar now org plan s) s) {
            org_state = updated org (to_plan plan) o s.org_state;
          },
        )
    unfolding apply_plan
    apply_plan-known o h =
        ground (arith, update_rate_limit-found org (to_plan plan) s.org_state o h)

    pub apply_plan-unknown :
        orm.get org s.org_state.orgs ≡ none
        → apply_plan calendar now org plan s
          ≡ (err no_org, with_sub (next_sub calendar now org plan s) s)
    unfolding apply_plan
    apply_plan-unknown h =
        ground (arith, update_rate_limit-missing org (to_plan plan) s.org_state h)

    pub next_sub-org : (next_sub calendar now org plan s).organization_id ≡ org
    unfolding with_terms
    next_sub-org = elim (Option-cases (orm.find_one (of_org org) s.subs)) [
      | inl absent ↦ rw absent
      | inr (sub, found) ↦
          let (same, stored) = orm.find_one_sound (of_org org) s.subs sub found in
          rw found (ground arith)
    ]

    -- A stored subscription of the organization is the one that is saved over.
    next_sub-id :
        (x : Subscription)
        → HasUniqueSubs s
        → orm.get x.id s.subs ≡ some x
        → x.organization_id ≡ org
        → x.id ≡ (next_sub calendar now org plan s).id
    unfolding with_terms
    next_sub-id x unique stored same = elim (Option-cases (orm.find_one (of_org org) s.subs)) [
      | inl absent ↦ ground (arith, orm.find_one_none (of_org org) s.subs x.id x absent stored)
      | inr (sub, found) ↦
          let (same_org, there) = orm.find_one_sound (of_org org) s.subs sub found in
          rw found (unique x sub stored there (ground arith))
    ]

    pub next_sub-HasUniqueSubs :
        HasUniqueSubs s → HasUniqueSubs (with_sub (next_sub calendar now org plan s) s)
    next_sub-HasUniqueSubs unique =
        save-HasUniqueSubs (next_sub calendar now org plan s) s
          (λ x stored same. next_sub-id x unique stored (same ∙ next_sub-org)) unique

    -- Once saved, it is what a lookup by organization finds.
    pub find-next_sub :
        HasUniqueSubs s
        → orm.find_one (of_org org) (orm.save (next_sub calendar now org plan s) s.subs)
          ≡ some (next_sub calendar now org plan s)
    find-next_sub unique =
        let sub : Subscription = next_sub calendar now org plan s in
        find_one-eq-some orm (of_org org) (orm.save sub s.subs) sub.id sub
          (get-save_self orm sub s.subs) (ground (arith, next_sub-org))
          (λ x same stored.
            next_sub-HasUniqueSubs unique x sub stored (get-save_self orm sub s.subs)
              (ground (arith, next_sub-org)))
