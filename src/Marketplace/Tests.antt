-- ===== src/Marketplace/Tests.antt =====
-- The marketplace on concrete tables, and the theorems at inputs that meet their hypotheses.
use developer_platform_backe.Billing.Events.{subscription_deleted}
use developer_platform_backe.Marketplace.Soundness.{Reachable-IsSound}
use developer_platform_backe.Marketplace.Totals.{IsBalanced, get_earnings-IsBalanced}
use developer_platform_backe.Redis.{map_redis}
use developer_platform_backe.Billing.Stripe.{
  cancel_subscription, retrieve_checkout_session, create_subscription_checkout, ensure_customer,
  retrieve_account,
}
use developer_platform_backe.Billing.Instances.{fixed_session, even_months, half_up}
use developer_platform_backe.Marketplace.Earnings.{Earnings, get_earnings}
use developer_platform_backe.Marketplace.Leaving.{LeaveOutcome, unsubscribe-LeaveOutcome}
use developer_platform_backe.Marketplace.Confirm.{
  ConfirmOutcome, confirm_subscription-ConfirmOutcome,
}
use developer_platform_backe.Marketplace.Subscriptions.{
  subscribe, unsubscribe, begin_checkout, confirm_subscription, activate_subscription,
  handle_stripe_event, checkout, subscribed,
}
use developer_platform_backe.Marketplace.Steps.{
  IsSound, after, to_unsubscribe, to_confirm, step, start,
}
use developer_platform_backe.Billing.{blank, with_terms, ensure_subscription, apply_plan}
use developer_platform_backe.Billing.Interface.{marketplace, Session, StripeSdk}
use developer_platform_backe.Enums.{publisher, subscriber, free}
use developer_platform_backe.Organizations.{Organization, assert_type, find_one, update_rate_limit}
use developer_platform_backe.Orm.ListTable.{list_tables}
use developer_platform_backe.Marketplace.{
  active, published, public, view, MarketplaceApi, MarketState, MarketplaceSubscription,
}
use developer_platform_backe.Billing.Payments.{
  id_of, BillingActor, get_connect_status, connect_status_of, ensure_stripe_customer,
}
use developer_platform_backe.Prelude.{ℕ, ◌≡◌, refl, true, false, none, some, List, [], ◌∷◌, arith}
use developer_platform_backe.Prelude.Action.{ok, err, conflict, pure, modify}
use developer_platform_backe.Orm.{list_orm}

-- A session that pays for the API 4, for the organization 7.
abbrev paid_session : Session
paid_session = record fixed_session {
  metadata = record {
    kind = some marketplace;
    org_id = none;
    plan = none;
    subscriber_org_id = some 7;
    api_id = some 4;
  };
}

abbrev market_stripe : StripeSdk
market_stripe = record {
  Server = List ℕ;
  create_customer = λ org email name. pure 31;
  create_session = λ request. pure fixed_session;
  retrieve_session = λ id. pure paid_session;
  create_account = λ org email. pure 33;
  create_account_link = λ account refresh back. pure "https://onboard";
  retrieve_account = λ account. pure true;
  create_portal = λ customer back. pure "https://portal";
  cancel = λ subscription. modify (λ canceled. subscription ∷ canceled);
}

abbrev acme : Organization
acme = record {
  id = 7;
  name = "Acme";
  slug = "acme";
  type = subscriber;
  plan = free;
  requests_per_minute = 100;
}

abbrev weather_inc : Organization
weather_inc = record {
  id = 8;
  name = "Weather Inc";
  slug = "weather-inc";
  type = publisher;
  plan = free;
  requests_per_minute = 100;
}

abbrev weather : MarketplaceApi
weather = record {
  id = 4;
  owner_organization_id = 8;
  name = "Weather";
  slug = "weather";
  description = none;
  category = some "data";
  version = "v1";
  base_url = "https://weather";
  visibility = public;
  status = published;
  price_per_month = 1_999;
  created_at = 5;
}

abbrev market : MarketState list_orm map_redis market_stripe
market = record {
  billing = record {
    org_state = record {
      orgs = acme ∷ weather_inc ∷ [];
      members = [];
      users = [];
      redis_store = λ k. none;
    };
    subs = record (blank 2 8) { stripe_connect_account_id = some 33; payouts_enabled = true } ∷ [];
    records = [];
    logs = [];
    stripe = [];
  };
  apis = weather ∷ [];
  subs = [];
}

abbrev ann : BillingActor
ann = record { email = "ann@x"; first_name = none; last_name = none }

-- The row after the payment.
abbrev acme_has_weather : MarketplaceSubscription
acme_has_weather = record {
  id = 1;
  subscriber_organization_id = 7;
  api_id = 4;
  status = active;
  stripe_subscription_id = some 32;
  created_at = 1_500;
}

abbrev paid_market : MarketState list_orm map_redis market_stripe
paid_market = record market { subs = acme_has_weather ∷ [] }

market-IsSound : IsSound market
unfolding list_tables
market-IsSound = (λ a b ga gb org api. ground arith, λ a b ga gb same. ground arith)

-- The paid API is not given before the payment.
subscribe_runs :
    ((subscribe even_months true "https://front" 1_500 7 ann 4 market).0
      ≡ ok (checkout (some "https://pay")))
    × ((subscribe even_months false "https://front" 1_500 7 ann 4 market).0
        ≡ ok (subscribed 1 (view weather)))
unfolding subscribe begin_checkout assert_type find_one get_connect_status connect_status_of
    ensure_stripe_customer ensure_subscription apply_plan update_rate_limit
    create_subscription_checkout ensure_customer retrieve_account list_tables with_terms
subscribe_runs = (refl, refl)

confirm_subscription-ConfirmOutcome_example :
    ConfirmOutcome true 7 "cs_1" market
      (confirm_subscription even_months true "https://front" 1_500 7 "cs_1" market)
confirm_subscription-ConfirmOutcome_example =
    confirm_subscription-ConfirmOutcome even_months true "https://front" 1_500 7 "cs_1" market
      market-IsSound.0

unsubscribe-LeaveOutcome_example :
    LeaveOutcome true 7 1 paid_market (unsubscribe true 7 1 paid_market)
unsubscribe-LeaveOutcome_example = unsubscribe-LeaveOutcome true 7 1 paid_market

-- Leaving cancels at Stripe, and after a subscription ended there a new one is refused.
leaving_runs :
    ((unsubscribe true 7 1 paid_market).1.billing.stripe ≡ 32 ∷ [])
    × ((subscribe even_months true "https://front" 1_600 7 ann 4
          (handle_stripe_event 1_600 (subscription_deleted 32) paid_market).1).0
        ≡ err (conflict "Already subscribed to this API"))
unfolding unsubscribe cancel_subscription subscribe assert_type find_one handle_stripe_event
    list_tables
leaving_runs = (refl, refl)

-- The session that paid gives access again after `unsubscribe`.
replay_runs :
    (confirm_subscription even_months true "https://front" 1_700 7 "cs_1"
      (unsubscribe true 7 1 paid_market).1).0
    ≡ ok (record acme_has_weather { created_at = 1_700 })
unfolding unsubscribe cancel_subscription confirm_subscription retrieve_checkout_session
    activate_subscription id_of list_tables
replay_runs = refl

get_earnings-IsBalanced_example :
    (e : Earnings) × (get_earnings half_up 8 paid_market ≡ (ok e, paid_market))
    × IsBalanced half_up 8 paid_market e
get_earnings-IsBalanced_example = get_earnings-IsBalanced half_up 8 paid_market

Reachable-IsSound_example : IsSound (
    after
      (to_unsubscribe true 7 1)
      (after (to_confirm even_months true "https://front" 1_500 7 "cs_1") market))
Reachable-IsSound_example =
    Reachable-IsSound market _
      (step _ (to_unsubscribe true 7 1)
        (step market (to_confirm even_months true "https://front" 1_500 7 "cs_1") start))
      market-IsSound
