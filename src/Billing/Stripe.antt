-- ===== src/Billing/Stripe.antt =====
-- billing/stripe.service.ts: the wrapper of the Stripe SDK. `enabled` says whether a secret key is
-- configured; without one every call answers 501.
use developer_platform_backe.Prelude.{ℕ, String, Bool, not, Option, none, some}
use developer_platform_backe.Prelude.Action.{ok, HttpError, Action, pure, ◌>>◌, throw_if}
use Prim.Native.String.{◌++◌ as text_append}
use developer_platform_backe.Enums.{Plan, free, pro, enterprise}
use developer_platform_backe.Billing.Terms.{plan_terms}
use developer_platform_backe.Billing.Interface.{
  StripeSdk, Session, SessionRequest, Metadata, platform,
}
use developer_platform_backe.Prelude.Action.{not_implemented}

-- The parameters of `createSubscriptionCheckout`.
pub record CheckoutParams : Type 0 where
  pub customer : ℕ
  pub amount_cents : ℕ
  pub product_name : String
  pub metadata : Metadata
  pub success_url : String
  pub cancel_url : String
  pub transfer_destination : Option ℕ
  pub application_fee_percent : Option ℕ

-- The fee is sent only with a destination.
unfoldable pub session_request : CheckoutParams → SessionRequest
session_request p = record {
  customer = p.customer;
  amount_cents = p.amount_cents;
  product_name = p.product_name;
  metadata = p.metadata;
  subscription_metadata = p.metadata;
  success_url = text_append p.success_url "?checkout=success&session_id={CHECKOUT_SESSION_ID}";
  cancel_url = text_append p.cancel_url "?checkout=cancel";
  transfer = elim p.transfer_destination [
    | none ↦ none
    | some d ↦ some (d, p.application_fee_percent)
  ];
}

abbrev pub plan_text : Plan → String
plan_text free = "free"
plan_text pro = "pro"
plan_text enterprise = "enterprise"

abbrev pub unconfigured : HttpError
unconfigured =
    not_implemented
      "Stripe is not configured on this server. Set STRIPE_SECRET_KEY to enable payments."

module _ (sdk : StripeSdk) (enabled : Bool) where
  -- `client()`, before a call
  abbrev pub with_client : {A : Type 0} → Action sdk.Server A → Action sdk.Server A
  with_client m = throw_if (not enabled) unconfigured >> m

  -- `ensureCustomer`
  unfoldable pub ensure_customer : ℕ → Option ℕ → (email name : String) → Action sdk.Server ℕ
  ensure_customer org_id (some existing) email name = pure existing
  ensure_customer org_id none email name = with_client (sdk.create_customer org_id email name)

  -- `createSubscriptionCheckout`
  unfoldable pub create_subscription_checkout : CheckoutParams → Action sdk.Server Session
  unfolding session_request
  create_subscription_checkout p = with_client (sdk.create_session (session_request p))

  -- `createCheckoutSession`, for a platform plan
  unfoldable pub create_checkout_session :
      (customer org_id : ℕ) → Plan → (success_url cancel_url : String) → Action sdk.Server Session
  unfolding create_subscription_checkout plan_terms
  create_checkout_session customer org_id plan success_url cancel_url =
      create_subscription_checkout (record {
        customer = customer;
        amount_cents = (plan_terms plan).price_per_month;
        product_name = text_append "Developer Platform — " (text_append (plan_text plan) " plan");
        metadata = record {
          kind = some platform;
          org_id = some org_id;
          plan = some plan;
          subscriber_org_id = none;
          api_id = none;
        };
        success_url = success_url;
        cancel_url = cancel_url;
        transfer_destination = none;
        application_fee_percent = none;
      })

  -- `createConnectedAccount`
  unfoldable pub create_connected_account : ℕ → String → Action sdk.Server ℕ
  create_connected_account org_id email = with_client (sdk.create_account org_id email)

  -- `createAccountLink`
  unfoldable pub create_account_link : ℕ → String → String → Action sdk.Server String
  create_account_link account refresh_url return_url =
      with_client (sdk.create_account_link account refresh_url return_url)

  -- `retrieveAccount`
  unfoldable pub retrieve_account : ℕ → Action sdk.Server Bool
  retrieve_account account = with_client (sdk.retrieve_account account)

  -- `createPortalSession`
  unfoldable pub create_portal_session : ℕ → String → Action sdk.Server String
  create_portal_session customer return_url = with_client (sdk.create_portal customer return_url)

  -- `retrieveCheckoutSession`
  unfoldable pub retrieve_checkout_session : String → Action sdk.Server Session
  retrieve_checkout_session session_id = with_client (sdk.retrieve_session session_id)

  -- `cancelSubscription`: a failure is logged and swallowed.
  unfoldable pub cancel_subscription : ℕ → Action sdk.Server (Unit {0})
  cancel_subscription subscription server =
      (ok tt, (with_client (sdk.cancel subscription) server).1)
