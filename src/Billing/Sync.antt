-- ===== src/Billing/Sync.antt =====
-- A plan change keeps subscription, organization and rate limit in step.
use developer_platform_backe.Prelude.{
  ℕ, ◌≤◌, ◌<◌, ◌≡◌, refl, ◌≢◌, inl, inr, some, arith, if◌then◌else◌, Option-cases,
}
use developer_platform_backe.Prelude.Action.{ok}
use developer_platform_backe.Orm.{Orm}
use developer_platform_backe.Orm.Laws.{get-save_ne}
use developer_platform_backe.Redis.{Redis}
use developer_platform_backe.Enums.{Plan, free, pro, enterprise, is_enterprise, plan_rate_limits}
use developer_platform_backe.Organizations.{Organization, organization_entity, apply_update}
use developer_platform_backe.Organizations.Limits.{updated, apply_update-id}
use developer_platform_backe.Billing.Terms.{plan_terms}
use developer_platform_backe.Billing.Interface.{StripeSdk, Calendar}
use developer_platform_backe.Billing.{
  Subscription, active, subscription_entity, BillingState, with_terms, of_org, found_or_blank,
  apply_plan,
}
use developer_platform_backe.Billing.Plans.{
  HasUniqueSubs, to_plan, next_sub, with_sub, apply_plan-known, apply_plan-unknown, find-next_sub,
}

-- The two tables of limits agree where a plan fixes the limit.
plan_terms-requests_per_minute :
    (plan : Plan) → (plan_terms plan).requests_per_minute ≡ plan_rate_limits plan
unfolding plan_terms plan_rate_limits
plan_terms-requests_per_minute free = refl
plan_terms-requests_per_minute pro = refl
plan_terms-requests_per_minute enterprise = refl

-- The columns that a plan decides.
pub record HasTerms (calendar : Calendar) (now : ℕ) (plan : Plan) (sub : Subscription)
    : Type 0 where
  pub plan_set : sub.plan ≡ plan
  pub is_active : sub.status ≡ active
  pub quota : sub.monthly_quota ≡ (plan_terms plan).monthly_quota
  pub price : sub.price_per_month ≡ (plan_terms plan).price_per_month
  pub rate : sub.overage_per_thousand ≡ (plan_terms plan).overage_per_thousand
  pub begun : sub.current_period_start ≤ now
  pub open_until : now < sub.current_period_end

-- The links to Stripe, which a plan change leaves alone.
pub record SameLinks (a b : Subscription) : Type 0 where
  pub id : a.id ≡ b.id
  pub customer : a.stripe_customer_id ≡ b.stripe_customer_id
  pub subscription : a.stripe_subscription_id ≡ b.stripe_subscription_id
  pub account : a.stripe_connect_account_id ≡ b.stripe_connect_account_id
  pub payouts : a.payouts_enabled ≡ b.payouts_enabled

with_terms-HasTerms :
    (calendar : Calendar) (now : ℕ) (plan : Plan) (row : Subscription)
    → HasTerms calendar now plan (with_terms calendar now plan row)
unfolding with_terms
with_terms-HasTerms calendar now plan row = record {
  plan_set = refl;
  is_active = refl;
  quota = refl;
  price = refl;
  rate = refl;
  begun = calendar.start_le now;
  open_until = calendar.lt_end now;
}

with_terms-SameLinks :
    (calendar : Calendar) (now : ℕ) (plan : Plan) (row : Subscription)
    → SameLinks (with_terms calendar now plan row) row
unfolding with_terms
with_terms-SameLinks calendar now plan row = record {
  id = refl;
  customer = refl;
  subscription = refl;
  account = refl;
  payouts = refl;
}

-- The limit that a plan change leaves: that of the plan, but an enterprise plan keeps the old one.
abbrev pub limit_after : Plan → Organization → ℕ
limit_after plan o =
    if is_enterprise plan then o.requests_per_minute else (plan_terms plan).requests_per_minute

apply_update-to_plan :
    (plan : Plan) (o : Organization)
    → apply_update (to_plan plan) o
      ≡ record o { plan = plan; requests_per_minute = limit_after plan o }
unfolding apply_update
apply_update-to_plan plan o = ground (arith, plan_terms-requests_per_minute plan)

module _ {orm : Orm} {redis : Redis} {sdk : StripeSdk} where
  pub record IsOnPlan (calendar : Calendar) (now org : ℕ) (plan : Plan) (sub : Subscription)
      (s s' : BillingState orm redis sdk) : Type 0 where
    pub found : orm.find_one (of_org org) s'.subs ≡ some sub
    pub terms : HasTerms calendar now plan sub
    pub links :
        (old : Subscription) → orm.find_one (of_org org) s.subs ≡ some old → SameLinks sub old
    pub before : Organization
    pub had : orm.get org s.org_state.orgs ≡ some before
    pub organization :
        orm.get org s'.org_state.orgs
        ≡ some (record before { plan = plan; requests_per_minute = limit_after plan before })
    pub other_subs : (k : ℕ) → k ≢ sub.id → orm.get k s'.subs ≡ orm.get k s.subs
    pub other_orgs : (k : ℕ) → k ≢ org → orm.get k s'.org_state.orgs ≡ orm.get k s.org_state.orgs

  -- The organization's row after a plan change.
  pub updated-to_plan :
      (org : ℕ) (plan : Plan) (s : BillingState orm redis sdk) (o : Organization)
      → orm.get org s.org_state.orgs ≡ some o
      → orm.get org (updated org (to_plan plan) o s.org_state).orgs
        ≡ some (record o { plan = plan; requests_per_minute = limit_after plan o })
  updated-to_plan org plan s o present =
      let o' : Organization = apply_update (to_plan plan) o in
      rw (← apply_update-to_plan plan o) (
        ground (
          arith,
          orm.get-save org o' s.org_state.orgs,
          apply_update-id (to_plan plan) o,
          orm.get_key org s.org_state.orgs o present,
        ))

  on_plan :
      (calendar : Calendar) (now org : ℕ) (plan : Plan) (s : BillingState orm redis sdk)
      (o : Organization)
      → HasUniqueSubs s
      → orm.get org s.org_state.orgs ≡ some o
      → IsOnPlan calendar now org plan
          (next_sub calendar now org plan s)
          s
          (record (with_sub (next_sub calendar now org plan s) s) {
            org_state = updated org (to_plan plan) o s.org_state;
          })
  on_plan calendar now org plan s o unique present =
      let sub : Subscription = next_sub calendar now org plan s in
      let o' : Organization = apply_update (to_plan plan) o in
      record {
        found = find-next_sub calendar now org plan s unique;
        terms =
            with_terms-HasTerms calendar now plan
              (found_or_blank org (orm.find_one (of_org org) s.subs) s);
        links = λ old e. rw e (with_terms-SameLinks calendar now plan old);
        before = o;
        had = present;
        organization = updated-to_plan org plan s o present;
        other_subs = λ k ne. get-save_ne orm k sub s.subs ne;
        other_orgs = λ k ne. ground (
          arith,
          orm.get-save k o' s.org_state.orgs,
          apply_update-id (to_plan plan) o,
          orm.get_key org s.org_state.orgs o present,
        );
      }

  -- When a plan change succeeds, the organization's one subscription has the terms of the plan, for a
  -- period that contains the present, and keeps its links to Stripe; the organization has the plan,
  -- with the plan's limit or, on an enterprise plan, the limit it had before; and no other
  -- subscription or organization changes.
  pub apply_plan-IsOnPlan :
      (calendar : Calendar) (now org : ℕ) (plan : Plan) (s : BillingState orm redis sdk)
      (sub : Subscription)
      → HasUniqueSubs s
      → (apply_plan calendar now org plan s).0 ≡ ok sub
      → IsOnPlan calendar now org plan sub s (apply_plan calendar now org plan s).1
  apply_plan-IsOnPlan calendar now org plan s sub unique done =
      elim (Option-cases (orm.get org s.org_state.orgs)) [
        | inl absent ↦ ground (arith, apply_plan-unknown calendar now org plan s absent)
        | inr (o, present) ↦
            let e = apply_plan-known calendar now org plan s o present in
            let same : next_sub calendar now org plan s ≡ sub = ground (arith, e) in
            rw (e, ← same) (on_plan calendar now org plan s o unique present)
      ]
