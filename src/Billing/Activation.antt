-- ===== src/Billing/Activation.antt =====
-- What a completed payment leaves: `activateFromStripe`, and the two ways that lead to it,
-- `confirmCheckout` and the webhook.
use developer_platform_backe.Organizations.Limits.{updated}
use developer_platform_backe.Orm.Laws.{find_one-eq-some, get-save_self}
use developer_platform_backe.Billing.Sync.{HasTerms, limit_after, updated-to_plan}
use developer_platform_backe.Organizations.{Organization, no_org, OrgState}
use developer_platform_backe.Billing.Plans.{
  HasUniqueSubs, with_sub, next_sub, save-HasUniqueSubs, apply_plan-unknown, to_plan,
  apply_plan-known, next_sub-HasUniqueSubs, next_sub-org,
}
use developer_platform_backe.Billing.Payments.{activate_from_stripe, with_payment}
use developer_platform_backe.Billing.{Subscription, BillingState, of_org, with_terms}
use developer_platform_backe.Billing.Interface.{StripeSdk, Calendar}
use developer_platform_backe.Prelude.{
  ℕ, String, ◌≡◌, refl, inl, inr, Bool, Option, none, some, arith, Option-cases,
}
use developer_platform_backe.Prelude.Action.{ok, err}
use developer_platform_backe.Orm.{Orm}
use developer_platform_backe.Redis.{Redis}
use mathlib.Core.Path.{subst}
use developer_platform_backe.Organizations.{organization_entity}
use developer_platform_backe.Billing.{subscription_entity}
use developer_platform_backe.Enums.{Plan}

module _ {orm : Orm} {redis : Redis} {sdk : StripeSdk} where
  -- A stored row may be saved again under its id and organization.
  pub resave-HasUniqueSubs :
      (n old : Subscription) (s : BillingState orm redis sdk)
      → HasUniqueSubs s
      → orm.get n.id s.subs ≡ some old
      → old.organization_id ≡ n.organization_id
      → HasUniqueSubs (with_sub n s)
  resave-HasUniqueSubs n old s unique stored same =
      save-HasUniqueSubs n s
        (λ x there org. ground (arith, unique x old there, orm.get_key n.id s.subs old stored))
        unique

  -- A saved row is the one that a lookup by its organization finds.
  pub find-saved :
      (n : Subscription) (s : BillingState orm redis sdk)
      → HasUniqueSubs (with_sub n s)
      → orm.find_one (of_org n.organization_id) (orm.save n s.subs) ≡ some n
  find-saved n s unique =
      find_one-eq-some orm (of_org n.organization_id) (orm.save n s.subs) n.id n
        (get-save_self orm n s.subs) (ground arith)
        (λ x same stored. unique x n stored (get-save_self orm n s.subs) (ground arith))

  pub record IsActivated (calendar : Calendar) (now org : ℕ) (plan : Plan)
      (customer subscription : Option ℕ) (sub : Subscription) (s : OrgState orm redis)
      (s' : BillingState orm redis sdk) : Type 0 where
    pub found : orm.find_one (of_org org) s'.subs ≡ some sub
    pub terms : HasTerms calendar now plan sub
    pub pays : (c : ℕ) → customer ≡ some c → sub.stripe_customer_id ≡ some c
    pub billed : (i : ℕ) → subscription ≡ some i → sub.stripe_subscription_id ≡ some i
    pub before : Organization
    pub had : orm.get org s.orgs ≡ some before
    pub organization :
        orm.get org s'.org_state.orgs
        ≡ some (record before { plan = plan; requests_per_minute = limit_after plan before })
    pub stays_unique : HasUniqueSubs s'

  module _ (calendar : Calendar) (enabled : Bool) (url : String) (now org : ℕ) (plan : Plan)
      (customer subscription : Option ℕ) where
    -- The state and the row after an activation.
    abbrev pub paid_row : BillingState orm redis sdk → Subscription
    paid_row s = with_payment customer subscription (next_sub calendar now org plan s)

    pub activate-known :
        (s : BillingState orm redis sdk) (o : Organization)
        → orm.get org s.org_state.orgs ≡ some o
        → activate_from_stripe calendar enabled url now org plan customer subscription s ≡ (
          ok (paid_row s),
          with_sub (paid_row s) (record (with_sub (next_sub calendar now org plan s) s) {
            org_state = updated org (to_plan plan) o s.org_state;
          }),
        )
    unfolding activate_from_stripe
    activate-known s o h = ground (arith, apply_plan-known calendar now org plan s o h)

    pub activate-unknown :
        (s : BillingState orm redis sdk)
        → orm.get org s.org_state.orgs ≡ none
        → activate_from_stripe calendar enabled url now org plan customer subscription s
          ≡ (err no_org, with_sub (next_sub calendar now org plan s) s)
    unfolding activate_from_stripe
    activate-unknown s h = ground (arith, apply_plan-unknown calendar now org plan s h)

    paid_row-organization_id : (s : BillingState orm redis sdk) → (paid_row s).organization_id ≡ org
    unfolding with_payment
    paid_row-organization_id s = next_sub-org calendar now org plan s

    -- The payment's ids go into the row that the plan change saved.
    paid_row-HasUniqueSubs :
        (s : BillingState orm redis sdk)
        → HasUniqueSubs s
        → HasUniqueSubs (with_sub (paid_row s) (with_sub (next_sub calendar now org plan s) s))
    unfolding with_payment
    paid_row-HasUniqueSubs s unique =
        let sub : Subscription = next_sub calendar now org plan s in
        resave-HasUniqueSubs (paid_row s) sub (with_sub sub s)
          (next_sub-HasUniqueSubs calendar now org plan s unique) (get-save_self orm sub s.subs)
          refl

    find-paid_row :
        (s : BillingState orm redis sdk)
        → HasUniqueSubs s
        → orm.find_one
            (of_org org)
            (orm.save (paid_row s) (orm.save (next_sub calendar now org plan s) s.subs))
          ≡ some (paid_row s)
    find-paid_row s unique =
        let found =
          find-saved (paid_row s) (with_sub (next_sub calendar now org plan s) s)
            (paid_row-HasUniqueSubs s unique) in
        subst
          (λ k.
            orm.find_one (of_org k)
              (orm.save (paid_row s) (orm.save (next_sub calendar now org plan s) s.subs))
            ≡ some (paid_row s))
          (paid_row-organization_id s) found

    pub activate-HasUniqueSubs :
        (s : BillingState orm redis sdk)
        → HasUniqueSubs s
        → HasUniqueSubs
            (activate_from_stripe calendar enabled url now org plan customer subscription s).1
    unfolding with_payment
    activate-HasUniqueSubs s unique = elim (Option-cases (orm.get org s.org_state.orgs)) [
      | inl absent ↦
          rw (activate-unknown s absent) (next_sub-HasUniqueSubs calendar now org plan s unique)
      | inr (o, present) ↦ rw (activate-known s o present) (paid_row-HasUniqueSubs s unique)
    ]

    -- The terms do not depend on the ids of the payment.
    paid_row-HasTerms : (s : BillingState orm redis sdk) → HasTerms calendar now plan (paid_row s)
    unfolding with_payment with_terms
    paid_row-HasTerms s = record {
      plan_set = refl;
      is_active = refl;
      quota = refl;
      price = refl;
      rate = refl;
      begun = calendar.start_le now;
      open_until = calendar.lt_end now;
    }

    paid_row-customer :
        (s : BillingState orm redis sdk) (c : ℕ)
        → customer ≡ some c
        → (paid_row s).stripe_customer_id ≡ some c
    unfolding with_payment
    paid_row-customer s c h = rw h refl

    paid_row-subscription :
        (s : BillingState orm redis sdk) (i : ℕ)
        → subscription ≡ some i
        → (paid_row s).stripe_subscription_id ≡ some i
    unfolding with_payment
    paid_row-subscription s i h = rw h refl

    activated :
        (s : BillingState orm redis sdk) (o : Organization)
        → HasUniqueSubs s
        → orm.get org s.org_state.orgs ≡ some o
        → IsActivated calendar now org plan customer subscription (paid_row s) s.org_state (
            with_sub (paid_row s) (record (with_sub (next_sub calendar now org plan s) s) {
              org_state = updated org (to_plan plan) o s.org_state;
            }))
    activated s o unique present = record {
      found = find-paid_row s unique;
      terms = paid_row-HasTerms s;
      pays = paid_row-customer s;
      billed = paid_row-subscription s;
      before = o;
      had = present;
      organization = updated-to_plan org plan s o present;
      stays_unique = paid_row-HasUniqueSubs s unique;
    }

    -- An activation that succeeds leaves the organization's one subscription on the plan, with the ids
    -- of the payment, and the organization with the plan and its limit.
    pub activate-IsActivated :
        (s : BillingState orm redis sdk) (sub : Subscription)
        → HasUniqueSubs s
        → (activate_from_stripe calendar enabled url now org plan customer subscription s).0
          ≡ ok sub
        → IsActivated calendar now org plan customer subscription sub s.org_state
            (activate_from_stripe calendar enabled url now org plan customer subscription s).1
    activate-IsActivated s sub unique done = elim (Option-cases (orm.get org s.org_state.orgs)) [
      | inl absent ↦ ground (arith, activate-unknown s absent)
      | inr (o, present) ↦
          let e = activate-known s o present in
          let same : paid_row s ≡ sub = ground (arith, e) in
          rw (e, ← same) (activated s o unique present)
    ]
