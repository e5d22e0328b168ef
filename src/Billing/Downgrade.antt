-- ===== src/Billing/Downgrade.antt =====
-- `createCheckout` with the FREE plan.
use developer_platform_backe.Organizations.Limits.{updated}
use developer_platform_backe.Billing.Cancellation.{IsDowngraded, unlinked, unlinked-IsDowngraded}
use developer_platform_backe.Billing.Plans.{
  HasUniqueSubs, next_sub, with_sub, to_plan, apply_plan-known,
}
use developer_platform_backe.Billing.Stripe.{cancel_subscription}
use developer_platform_backe.Billing.Payments.{create_checkout, BillingActor}
use developer_platform_backe.Billing.Interface.{StripeSdk, Calendar}
use developer_platform_backe.Prelude.{
  ℕ, String, ◌≡◌, refl, inl, inr, Bool, true, none, some, arith, Option-cases,
}
use developer_platform_backe.Prelude.Action.{ok}
use developer_platform_backe.Orm.{Orm}
use developer_platform_backe.Redis.{Redis}
use developer_platform_backe.Enums.{free}
use developer_platform_backe.Organizations.{organization_entity, Organization}
use developer_platform_backe.Billing.{
  subscription_entity, ensure_subscription, BillingState, Subscription, of_org,
}

module _ {orm : Orm} {redis : Redis} {sdk : StripeSdk} (calendar : Calendar) (enabled : Bool)
    (url : String) (now : ℕ) where
  -- The state after Stripe was asked to cancel, if there is something to cancel.
  abbrev asked : Subscription → BillingState orm redis sdk → BillingState orm redis sdk
  asked sub s = record s {
    stripe = elim sub.stripe_subscription_id [
      | some id ↦ (cancel_subscription sdk enabled id s.stripe).1
      | none ↦ s.stripe
    ];
  }

  downgrade-known :
      (org : ℕ) (actor : BillingActor) (s : BillingState orm redis sdk) (sub : Subscription)
      (o : Organization)
      → orm.find_one (of_org org) s.subs ≡ some sub
      → orm.get org s.org_state.orgs ≡ some o
      → let t : BillingState orm redis sdk = asked sub s in
        let next : Subscription = next_sub calendar now org free t in
        create_checkout calendar enabled url now org actor free s ≡ (
          ok (record { url = none; downgraded = true }),
          with_sub
              (unlinked next)
              (record (with_sub next t) { org_state = updated org (to_plan free) o t.org_state }),
        )
  unfolding create_checkout ensure_subscription cancel_subscription
  downgrade-known org actor s sub o found present = elim (Option-cases sub.stripe_subscription_id) [
    | inl unpaid ↦
        ground
          (arith, found, unpaid, apply_plan-known calendar now org free (asked sub s) o present)
    | inr (id, linked) ↦
        ground
          (arith, found, linked, apply_plan-known calendar now org free (asked sub s) o present)
  ]

  -- With at most one subscription per organization stored, and for a stored organization that has
  -- one, the change to the FREE plan succeeds, whatever Stripe answers to the cancellation: the
  -- organization is on the FREE plan with its limit, and its one subscription has the terms of that
  -- plan and no Stripe subscription.
  pub create_checkout-IsDowngraded :
      (org : ℕ) (actor : BillingActor) (s : BillingState orm redis sdk) (sub : Subscription)
      (o : Organization)
      → HasUniqueSubs s
      → orm.find_one (of_org org) s.subs ≡ some sub
      → orm.get org s.org_state.orgs ≡ some o
      → ((create_checkout calendar enabled url now org actor free s).0
          ≡ ok (record { url = none; downgraded = true }))
        × IsDowngraded calendar now org s.org_state
            (create_checkout calendar enabled url now org actor free s).1
  create_checkout-IsDowngraded org actor s sub o unique found present =
      rw (downgrade-known org actor s sub o found present)
        (refl, unlinked-IsDowngraded calendar enabled url now org (asked sub s) o unique present)
