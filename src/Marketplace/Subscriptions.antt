-- ===== src/Marketplace/Subscriptions.antt =====
-- marketplace/marketplace.service.ts: subscribing to an API, the payment, and leaving it again.
use developer_platform_backe.Prelude.Sorting.{sort_desc}
use developer_platform_backe.Enums.{subscriber, publisher}
use developer_platform_backe.Organizations.{assert_type}
use developer_platform_backe.Billing.Events.{
  StripeEvent, checkout_completed, is_marketplace, subscription_deleted,
}
use developer_platform_backe.Billing.Payments.{
  BillingActor, ConnectStatus, id_of, get_connect_status, ensure_stripe_customer,
  get_connect_onboarding_link,
}
use developer_platform_backe.Billing.{BillingState}
use developer_platform_backe.Billing.Interface.{StripeSdk, marketplace, Calendar}
use developer_platform_backe.Billing.Stripe.{
  CheckoutParams, cancel_subscription, retrieve_checkout_session, create_subscription_checkout,
}
use developer_platform_backe.Redis.{Redis}
use developer_platform_backe.Marketplace.{
  MarketplaceSubscription, ApiView, SubscriptionStatus, MarketplaceApi, active, MarketState,
  marketplace_subscription_entity, in_organizations, find_published, canceled, view,
  marketplace_api_entity,
}
use developer_platform_backe.Prelude.{
  ℕ, String, Bool, not, ◌&&◌, ◌||◌, Option, none, some, List, map, ◌==◌, if◌then◌else◌, is_some,
  same_id,
}
use developer_platform_backe.Prelude.Action.{
  HttpError, bad_request, not_found, conflict, failure, Action, pure, gets, or_throw, ◌>>=◌, ◌>>◌,
  throw_if, modify, call,
}
use developer_platform_backe.Orm.{Orm}
use Prim.Native.String.{◌++◌ as text_append}

-- `where: { subscriberOrganizationId: orgId, apiId }`; a key of value undefined is left out.
abbrev pub is_sub : ℕ → Option ℕ → MarketplaceSubscription → Bool
is_sub org_id none sub = sub.subscriber_organization_id == org_id
is_sub org_id (some api_id) sub = sub.subscriber_organization_id == org_id && sub.api_id == api_id

-- `where: { stripeSubscriptionId }`
abbrev pub has_stripe_id : ℕ → MarketplaceSubscription → Bool
has_stripe_id id sub = same_id sub.stripe_subscription_id id

-- A row of `subRepo.create(…)` with the columns' defaults.
abbrev pub new_sub : (now id org_id api_id : ℕ) → MarketplaceSubscription
new_sub now id org_id api_id = record {
  id = id;
  subscriber_organization_id = org_id;
  api_id = api_id;
  status = active;
  stripe_subscription_id = none;
  created_at = now;
}

-- `if (!sub) sub = create(…)`; a new row without an API violates the column's constraint.
abbrev pub found_or_new :
    (now id org_id : ℕ) → Option ℕ → Option MarketplaceSubscription → Option MarketplaceSubscription
found_or_new now id org_id api_id (some sub) = some sub
found_or_new now id org_id (some api_id) none = some (new_sub now id org_id api_id)
found_or_new now id org_id none none = none

pub data SubscribeAnswer : Type 0 where
  subscribed : (subscription_id : ℕ) → ApiView → SubscribeAnswer
  checkout : (url : Option String) → SubscribeAnswer

-- `api ? this.view(api) : null`
abbrev pub view_or_null : Option MarketplaceApi → Option ApiView
view_or_null none = none
view_or_null (some api) = some (view api)

-- One entry of `listSubscriptions`.
pub record SubscriptionView : Type 0 where
  pub subscription_id : ℕ
  pub status : SubscriptionStatus
  pub api : Option ApiView
  pub subscribed_at : ℕ

abbrev pub no_payouts : HttpError
no_payouts =
    bad_request
      "This API's publisher hasn't finished setting up payouts yet, so it can't be subscribed to."

-- PLATFORM_FEE_PERCENT
abbrev pub platform_fee_percent : ℕ
platform_fee_percent = 10

-- The parameters of the Checkout Session for a paid API.
abbrev pub api_checkout :
    (frontend_url : String)
    → (customer org_id : ℕ) → MarketplaceApi
    → (account : ℕ) → CheckoutParams
api_checkout frontend_url customer org_id api account = record {
  customer = customer;
  amount_cents = api.price_per_month;
  product_name = text_append "Marketplace — " api.name;
  metadata = record {
    kind = some marketplace;
    org_id = none;
    plan = none;
    subscriber_org_id = some org_id;
    api_id = some api.id;
  };
  success_url = text_append frontend_url "/marketplace";
  cancel_url = text_append frontend_url "/marketplace";
  transfer_destination = some account;
  application_fee_percent = some platform_fee_percent;
}

module _ {orm : Orm} {redis : Redis} {sdk : StripeSdk} where
  abbrev pub in_billing :
      {A : Type 0} → Action (BillingState orm redis sdk) A → Action (MarketState orm redis sdk) A
  in_billing = call (λ s. s.billing) (λ t s. record s { billing = t })

  abbrev pub to_stripe : {A : Type 0} → Action sdk.Server A → Action (MarketState orm redis sdk) A
  to_stripe =
      call (λ s. s.billing.stripe) (λ t s. record s { billing = record (s.billing) { stripe = t } })

  abbrev pub save_row : MarketplaceSubscription → Action (MarketState orm redis sdk) (Unit {0})
  save_row sub = modify (λ s. record s { subs = orm.save sub s.subs })

  -- `activateSubscription`
  unfoldable pub activate_subscription :
      (now org_id : ℕ)
      → Option ℕ
      → Option ℕ
      → Action (MarketState orm redis sdk) MarketplaceSubscription
  activate_subscription now org_id api_id stripe_id = do
    found ← gets (λ s. orm.find_one (is_sub org_id api_id) s.subs)
    id ← gets (λ s. orm.fresh s.subs)
    sub ← or_throw (found_or_new now id org_id api_id found) (failure "QueryFailedError")
    let paid = record sub { status = active; stripe_subscription_id = stripe_id }
    save_row paid
    pure paid

  -- `unsubscribe`, with the key that it returns
  unfoldable pub unsubscribe : (enabled : Bool) → ℕ → ℕ → Action (MarketState orm redis sdk) ℕ
  unsubscribe enabled org_id subscription_id = do
    found ← gets (λ s.
        orm.find_one (λ x. x.id == subscription_id && x.subscriber_organization_id == org_id)
          s.subs)
    sub ← or_throw found (not_found "Subscription not found")
    elim sub.stripe_subscription_id [
      | some id ↦ to_stripe (cancel_subscription sdk enabled id)
      | none ↦ pure tt
    ]
    modify (λ s. record s { subs = orm.remove sub s.subs })
    pure subscription_id

  -- `handleStripeEvent`
  unfoldable pub handle_stripe_event :
      (now : ℕ) → StripeEvent → Action (MarketState orm redis sdk) (Unit {0})
  unfolding id_of
  handle_stripe_event now (checkout_completed session) =
      if not (is_marketplace session.metadata.kind)
      then pure tt
      else elim session.metadata.subscriber_org_id [
        | none ↦ pure tt
        | some org_id ↦ elim session.metadata.api_id [
          | none ↦ pure tt
          | some api_id ↦ do
            activate_subscription now org_id (some api_id) (id_of session.subscription)
            pure tt
        ]
      ]
  handle_stripe_event now (subscription_deleted id) = do
    found ← gets (λ s. orm.find_one (has_stripe_id id) s.subs)
    elim found [ some sub ↦ save_row (record sub { status = canceled }) | none ↦ pure tt ]
  handle_stripe_event now _ = pure tt

  -- `listSubscriptions`
  unfoldable pub list_subscriptions : ℕ → Action (MarketState orm redis sdk) (List SubscriptionView)
  list_subscriptions org_id = gets (λ s.
      map
        (λ sub. record {
          subscription_id = sub.id;
          status = sub.status;
          api = view_or_null (orm.find_one (λ a. a.id == sub.api_id) s.apis);
          subscribed_at = sub.created_at;
        })
        (sort_desc (λ sub. sub.created_at)
          (orm.find (λ sub. sub.subscriber_organization_id == org_id) s.subs)))

  module _ (calendar : Calendar) (enabled : Bool) (frontend_url : String) (now : ℕ) where
    -- The paid branch of `subscribe`
    unfoldable pub begin_checkout :
        ℕ → BillingActor → MarketplaceApi → Action (MarketState orm redis sdk) SubscribeAnswer
    begin_checkout org_id actor api = do
      payout ←
          in_billing
            (get_connect_status calendar enabled frontend_url now api.owner_organization_id)
      throw_if (not payout.payouts_ready) no_payouts
      account ← or_throw payout.account_id no_payouts
      customer ← in_billing (ensure_stripe_customer calendar enabled frontend_url now org_id actor)
      session ← to_stripe (
          create_subscription_checkout sdk enabled
            (api_checkout frontend_url customer org_id api account))
      pure (checkout session.url)

    -- `subscribe`
    unfoldable pub subscribe :
        ℕ → BillingActor → ℕ → Action (MarketState orm redis sdk) SubscribeAnswer
    subscribe org_id actor api_id = do
      in_organizations (assert_type org_id subscriber)
      api ← find_published api_id (not_found "Published API not found")
      existing ← gets (λ s. orm.find_one (is_sub org_id (some api_id)) s.subs)
      throw_if (is_some existing) (conflict "Already subscribed to this API")
      if api.price_per_month == 0 || not enabled
          then (do
            id ← gets (λ s. orm.fresh s.subs)
            save_row (new_sub now id org_id api_id)
            pure (subscribed id (view api)))
          else begin_checkout org_id actor api

    -- `connectOnboard`
    unfoldable pub connect_onboard : ℕ → BillingActor → Action (MarketState orm redis sdk) String
    connect_onboard org_id actor = do
      in_organizations (assert_type org_id publisher)
      in_billing (get_connect_onboarding_link calendar enabled frontend_url now org_id actor)

    -- `connectStatus`
    unfoldable pub connect_status : ℕ → Action (MarketState orm redis sdk) ConnectStatus
    connect_status org_id = in_billing (get_connect_status calendar enabled frontend_url now org_id)

    -- `confirmSubscription`
    unfoldable pub confirm_subscription :
        ℕ → String → Action (MarketState orm redis sdk) MarketplaceSubscription
    unfolding id_of
    confirm_subscription org_id session_id = do
      session ← to_stripe (retrieve_checkout_session sdk enabled session_id)
      throw_if
          (not (is_marketplace session.metadata.kind)
            || not (same_id session.metadata.subscriber_org_id org_id))
          (bad_request "Checkout session does not belong to this organization.")
      throw_if (not session.paid && not session.complete) (bad_request "Payment not completed.")
      activate_subscription now org_id session.metadata.api_id (id_of session.subscription)
