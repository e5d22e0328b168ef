-- ===== src/Billing/Payments.antt =====
-- billing/billing.service.ts, the calls that go to Stripe: checkout, the billing portal, publisher
-- payouts, and the activation of a paid plan.
use developer_platform_backe.Prelude.{
  ℕ, String, Bool, true, false, not, ◌&&◌, Option, none, some, if◌then◌else◌, same_id,
}
use developer_platform_backe.Prelude.Action.{
  ok, err, bad_request, failure, Action, pure, or_throw, ◌>>=◌, ◌>>◌, throw_if, call,
}
use developer_platform_backe.Orm.{Orm}
use text.Mathlib.Text.{◌==◌ as str_eq}
use Prim.Native.String.{◌++◌ as text_append}
use developer_platform_backe.Redis.{Redis}
use developer_platform_backe.Enums.{Plan, free, is_free}
use developer_platform_backe.Billing.Interface.{
  StripeSdk, Calendar, Reference, absent, plain, expanded,
}
use developer_platform_backe.Billing.{
  Subscription, subscription_entity, active, BillingState, of_org, find_sub, save_sub, apply_plan,
  ensure_subscription,
}
use developer_platform_backe.Billing.Stripe.{
  ensure_customer, create_checkout_session, create_connected_account, create_account_link,
  retrieve_account, create_portal_session, retrieve_checkout_session, cancel_subscription,
}

pub record BillingActor : Type 0 where
  pub email : String
  pub first_name : Option String
  pub last_name : Option String

abbrev pub text_or_none : Option String → Option String
text_or_none none = none
text_or_none (some t) = if str_eq t "" then none else some t

-- `[firstName, lastName].filter(Boolean).join(' ')`
abbrev pub joined : Option String → Option String → String
joined none none = ""
joined none (some l) = l
joined (some f) none = f
joined (some f) (some l) = text_append f (text_append " " l)

-- … `|| email`
unfoldable pub display_name : BillingActor → String
display_name a =
    let full = joined (text_or_none a.first_name) (text_or_none a.last_name) in
    if str_eq full "" then a.email else full

-- `idOf`
unfoldable pub id_of : Reference → Option ℕ
id_of absent = none
id_of (plain id) = some id
id_of (expanded id) = some id

-- The answer of `createCheckout`.
pub record CheckoutAnswer : Type 0 where
  pub url : Option String
  pub downgraded : Bool

-- The answer of `getConnectStatus`.
pub record ConnectStatus : Type 0 where
  pub connected : Bool
  pub payouts_ready : Bool
  pub account_id : Option ℕ

-- `b !== c` of two Booleans
abbrev differs : Bool → Bool → Bool
differs true b = not b
differs false b = b

-- The row with the ids that a payment brings.
unfoldable pub with_payment : Option ℕ → Option ℕ → Subscription → Subscription
with_payment customer_id subscription_id sub = record sub {
  stripe_customer_id = elim customer_id [ some c ↦ some c | none ↦ sub.stripe_customer_id ];
  stripe_subscription_id = elim subscription_id [
    | some i ↦ some i
    | none ↦ sub.stripe_subscription_id
  ];
  status = active;
}

module _ {orm : Orm} {redis : Redis} {sdk : StripeSdk} (calendar : Calendar) (enabled : Bool)
    (frontend_url : String) (now : ℕ) where
  abbrev pub in_stripe : {A : Type 0} → Action sdk.Server A → Action (BillingState orm redis sdk) A
  in_stripe = call (λ s. s.stripe) (λ t s. record s { stripe = t })

  -- `ensureStripeCustomer`, and `ensureCustomer`, which hands on to it
  unfoldable pub ensure_stripe_customer : ℕ → BillingActor → Action (BillingState orm redis sdk) ℕ
  unfolding display_name
  ensure_stripe_customer org_id actor = do
    sub ← ensure_subscription calendar now org_id
    elim sub.stripe_customer_id [
      | some customer_id ↦ pure customer_id
      | none ↦ do
        customer_id ←
            in_stripe (ensure_customer sdk enabled org_id none actor.email (display_name actor))
        save_sub (record sub { stripe_customer_id = some customer_id })
        pure customer_id
    ]

  -- `createCheckout`
  unfoldable pub create_checkout :
      ℕ → BillingActor → Plan → Action (BillingState orm redis sdk) CheckoutAnswer
  create_checkout org_id actor plan = do
    sub ← ensure_subscription calendar now org_id
    if is_free plan
        then (do
          elim sub.stripe_subscription_id [
            | some id ↦ in_stripe (cancel_subscription sdk enabled id)
            | none ↦ pure tt
          ]
          updated ← apply_plan calendar now org_id free
          save_sub (record updated { stripe_subscription_id = none })
          pure (record { url = none; downgraded = true }))
        else (do
          customer_id ← ensure_stripe_customer org_id actor
          let dashboard = text_append frontend_url "/billing"
          session ←
              in_stripe
                (create_checkout_session sdk enabled customer_id org_id plan dashboard dashboard)
          pure (record { url = session.url; downgraded = false }))

  -- `createPortal`
  unfoldable pub create_portal : ℕ → Action (BillingState orm redis sdk) String
  create_portal org_id = do
    sub ← ensure_subscription calendar now org_id
    customer_id ←
        or_throw sub.stripe_customer_id
          (bad_request "No billing account yet — subscribe to a paid plan first.")
    in_stripe (create_portal_session sdk enabled customer_id (text_append frontend_url "/billing"))

  -- `ensureConnectAccount`
  unfoldable pub ensure_connect_account : ℕ → BillingActor → Action (BillingState orm redis sdk) ℕ
  ensure_connect_account org_id actor = do
    sub ← ensure_subscription calendar now org_id
    elim sub.stripe_connect_account_id [
      | some account_id ↦ pure account_id
      | none ↦ do
        account_id ← in_stripe (create_connected_account sdk enabled org_id actor.email)
        save_sub (record sub { stripe_connect_account_id = some account_id })
        pure account_id
    ]

  -- `getConnectOnboardingLink`
  unfoldable pub get_connect_onboarding_link :
      ℕ → BillingActor → Action (BillingState orm redis sdk) String
  get_connect_onboarding_link org_id actor = do
    account_id ← ensure_connect_account org_id actor
    let ret = text_append frontend_url "/payouts"
    in_stripe (
        create_account_link sdk enabled account_id (text_append ret "?connect=refresh")
          (text_append ret "?connect=done"))

  -- The body of the `try` in `getConnectStatus`, and its `catch`
  unfoldable pub connect_status_of :
      Subscription → ℕ → Action (BillingState orm redis sdk) ConnectStatus
  connect_status_of sub account_id s =
      let (r, s') = in_stripe (retrieve_account sdk enabled account_id) s in
      elim r [
        | ok ready ↦ (
          ok (record { connected = true; payouts_ready = ready; account_id = some account_id }),
          if differs sub.payouts_enabled ready
              then record s' { subs = orm.save (record sub { payouts_enabled = ready }) s'.subs }
              else s',
        )
        | err e ↦ (
          ok (record {
            connected = true;
            payouts_ready = sub.payouts_enabled;
            account_id = some account_id;
          }),
          s',
        )
      ]

  -- `getConnectStatus`
  unfoldable pub get_connect_status : ℕ → Action (BillingState orm redis sdk) ConnectStatus
  unfolding connect_status_of
  get_connect_status org_id = do
    found ← find_sub (of_org org_id)
    elim found [
      | none ↦ pure (record { connected = false; payouts_ready = false; account_id = none })
      | some sub ↦ elim sub.stripe_connect_account_id [
        | none ↦ pure (record { connected = false; payouts_ready = false; account_id = none })
        | some account_id ↦ connect_status_of sub account_id
      ]
    ]

  -- `activateFromStripe`
  unfoldable pub activate_from_stripe :
      ℕ → Plan → Option ℕ → Option ℕ → Action (BillingState orm redis sdk) Subscription
  activate_from_stripe org_id plan customer_id subscription_id = do
    sub ← apply_plan calendar now org_id plan
    let paid = with_payment customer_id subscription_id sub
    save_sub paid
    pure paid

  -- `confirmCheckout`. A session without a plan ends in a TypeError on the missing terms.
  unfoldable pub confirm_checkout : ℕ → String → Action (BillingState orm redis sdk) Subscription
  unfolding id_of
  confirm_checkout org_id session_id = do
    session ← in_stripe (retrieve_checkout_session sdk enabled session_id)
    throw_if (not (same_id session.metadata.org_id org_id))
        (bad_request "Checkout session does not belong to this organization.")
    throw_if (not session.paid && not session.complete) (bad_request "Payment not completed.")
    plan ← or_throw session.metadata.plan (failure "TypeError")
    activate_from_stripe org_id plan (id_of session.customer) (id_of session.subscription)
