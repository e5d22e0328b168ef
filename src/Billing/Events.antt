-- ===== src/Billing/Events.antt =====
-- billing/billing.service.ts, `handleStripeEvent`: what a verified Stripe webhook changes.
use developer_platform_backe.Prelude.{
  ℕ, String, Bool, true, false, Option, none, some, if◌then◌else◌, or_default, same_id,
}
use developer_platform_backe.Prelude.Action.{Action, pure, gets, ◌>>=◌, ◌>>◌, modify}
use developer_platform_backe.Orm.{Orm}
use developer_platform_backe.Redis.{Redis}
use developer_platform_backe.Enums.{free}
use developer_platform_backe.Billing.Interface.{
  StripeSdk, Calendar, Session, Kind, marketplace, Reference,
}
use developer_platform_backe.Billing.{
  Subscription, subscription_entity, Status, active, past_due, BillingRecord, billing_record_entity,
  paid, BillingState, find_sub, save_sub, apply_plan,
}
use developer_platform_backe.Billing.Payments.{id_of, activate_from_stripe}

-- The status that Stripe reports for a subscription, as far as the handler tells it apart.
pub data RemoteStatus : Type 0 where
  remote_active remote_past_due remote_other : RemoteStatus

pub data StripeEvent : Type 0 where
  checkout_completed : Session → StripeEvent
  subscription_deleted : ℕ → StripeEvent
  subscription_updated : ℕ → RemoteStatus → StripeEvent
  invoice_paid : Reference → (amount_paid : Option ℕ) → StripeEvent
  invoice_payment_failed : Reference → StripeEvent
  account_updated : ℕ → (transfers_active : Bool) → StripeEvent
  other_event : StripeEvent

abbrev pub is_marketplace : Option Kind → Bool
is_marketplace (some marketplace) = true
is_marketplace _ = false

-- `where: { stripeSubscriptionId: id }` and `where: { stripeConnectAccountId: id }`
abbrev pub has_subscription_id : ℕ → Subscription → Bool
has_subscription_id id sub = same_id sub.stripe_subscription_id id

abbrev pub has_account_id : ℕ → Subscription → Bool
has_account_id id sub = same_id sub.stripe_connect_account_id id

abbrev pub status_after : RemoteStatus → Status → Status
status_after remote_active old = active
status_after remote_past_due old = past_due
status_after remote_other old = old

-- `recordPaidInvoice`'s row; the amount is in cents.
unfoldable pub paid_record : ℕ → Subscription → Option ℕ → BillingRecord
paid_record id sub amount_paid = record {
  id = id;
  organization_id = sub.organization_id;
  plan = sub.plan;
  period_start = sub.current_period_start;
  period_end = sub.current_period_end;
  included_requests = sub.monthly_quota;
  used_requests = 0;
  overage_requests = 0;
  base_cost = or_default amount_paid 0;
  overage_cost = 0;
  total_cost = or_default amount_paid 0;
  status = paid;
}

module _ {orm : Orm} {redis : Redis} {sdk : StripeSdk} where
  -- `if (sub) { … }`
  abbrev pub if_found :
      Option Subscription
      → (Subscription → Action (BillingState orm redis sdk) (Unit {0}))
      → Action (BillingState orm redis sdk) (Unit {0})
  if_found none body = pure tt
  if_found (some sub) body = body sub

  -- `recordPaidInvoice`
  unfoldable pub record_paid_invoice :
      Reference → Option ℕ → Action (BillingState orm redis sdk) (Unit {0})
  unfolding id_of paid_record
  record_paid_invoice subscription amount_paid = elim (id_of subscription) [
    | none ↦ pure tt
    | some sub_id ↦ do
      found ← find_sub (has_subscription_id sub_id)
      if_found found (λ sub. do
        id ← gets (λ s. orm.fresh s.records)
        modify (λ s. record s { records = orm.save (paid_record id sub amount_paid) s.records }))
  ]

  module _ (calendar : Calendar) (enabled : Bool) (frontend_url : String) (now : ℕ) where
    -- The branch `checkout.session.completed`
    unfoldable pub on_checkout_completed : Session → Action (BillingState orm redis sdk) (Unit {0})
    unfolding id_of
    on_checkout_completed session =
        if is_marketplace session.metadata.kind then pure tt else elim session.metadata.org_id [
          | none ↦ pure tt
          | some org_id ↦ elim session.metadata.plan [
            | none ↦ pure tt
            | some plan ↦ do
              activate_from_stripe calendar enabled frontend_url now org_id plan
                  (id_of session.customer) (id_of session.subscription)
              pure tt
          ]
        ]

    -- The branch `customer.subscription.deleted`
    unfoldable pub on_subscription_deleted : ℕ → Action (BillingState orm redis sdk) (Unit {0})
    on_subscription_deleted id = do
      found ← find_sub (has_subscription_id id)
      if_found found (λ sub. do
        downgraded ← apply_plan calendar now sub.organization_id free
        save_sub (record downgraded { stripe_subscription_id = none }))

    -- `handleStripeEvent`
    unfoldable pub handle_event : StripeEvent → Action (BillingState orm redis sdk) (Unit {0})
    handle_event (checkout_completed session) = on_checkout_completed session
    handle_event (subscription_deleted id) = on_subscription_deleted id
    handle_event (subscription_updated id remote) = do
      found ← find_sub (has_subscription_id id)
      if_found found (λ sub. save_sub (record sub { status = status_after remote sub.status }))
    handle_event (invoice_paid subscription amount_paid) =
        record_paid_invoice subscription amount_paid
    handle_event (invoice_payment_failed subscription) = elim (id_of subscription) [
      | none ↦ pure tt
      | some sub_id ↦ do
        found ← find_sub (has_subscription_id sub_id)
        if_found found (λ sub. save_sub (record sub { status = past_due }))
    ]
    handle_event (account_updated id transfers_active) = do
      found ← find_sub (has_account_id id)
      if_found found (λ sub. save_sub (record sub { payouts_enabled = transfers_active }))
    handle_event other_event = pure tt
