-- ===== src/Billing/EventTests.antt =====
-- The theorems on payments and Stripe events at inputs that meet their hypotheses.
use developer_platform_backe.Billing.Interface.{Session, StripeSdk, expanded}
use developer_platform_backe.Billing.Downgrade.{create_checkout-IsDowngraded}
use developer_platform_backe.Prelude.Action.{ok, pure}
use developer_platform_backe.Billing.Uniqueness.{handle_event-HasUniqueSubs}
use developer_platform_backe.Billing.Webhook.{
  checkout_completed-eq-confirm, IsConfirmed, confirm_checkout-IsConfirmed,
}
use developer_platform_backe.Billing.Cancellation.{IsDowngraded, subscription_deleted-IsDowngraded}
use developer_platform_backe.Billing.Stripe.{retrieve_checkout_session, cancel_subscription}
use developer_platform_backe.Billing.Instances.{even_months, fixed_stripe, fixed_session}
use developer_platform_backe.Billing.Plans.{HasUniqueSubs}
use developer_platform_backe.Billing.Events.{handle_event, checkout_completed, subscription_deleted}
use developer_platform_backe.Billing.Payments.{
  confirm_checkout, activate_from_stripe, with_payment, create_checkout,
}
use developer_platform_backe.Billing.{
  Subscription, BillingState, with_terms, blank, apply_plan, ensure_subscription,
}
use developer_platform_backe.Organizations.{Organization, update_rate_limit}
use developer_platform_backe.Prelude.{◌≡◌, refl, true, none, some, [], ◌∷◌, arith, inl, inr}
use developer_platform_backe.Enums.{pro, subscriber, free}
use developer_platform_backe.Orm.{list_orm}
use developer_platform_backe.Orm.ListTable.{list_tables}
use developer_platform_backe.Redis.{map_redis}

abbrev acme : Organization
acme = record {
  id = 7;
  name = "Acme";
  slug = "acme";
  type = subscriber;
  plan = pro;
  requests_per_minute = 1_000;
}

abbrev acme_sub : Subscription
acme_sub = record (with_terms even_months 1_500 pro (blank 4 7)) {
  stripe_subscription_id = some 32;
}

abbrev start : BillingState list_orm map_redis fixed_stripe
start = record {
  org_state = record { orgs = acme ∷ []; members = []; users = []; redis_store = λ k. none };
  subs = acme_sub ∷ [];
  records = [];
  logs = [];
  stripe = [];
}

start-HasUniqueSubs : HasUniqueSubs start
unfolding list_tables with_terms
start-HasUniqueSubs a b ga gb same = ground arith

abbrev paid_sub : Subscription
paid_sub = record (with_terms even_months 1_500 pro (blank 4 7)) {
  stripe_customer_id = some 31;
  stripe_subscription_id = some 32;
}

confirm_checkout-IsConfirmed_example :
    IsConfirmed even_months 1_500 7 "cs_1" paid_sub start
      (confirm_checkout even_months true "https://app" 1_500 7 "cs_1" start).1
unfolding confirm_checkout retrieve_checkout_session activate_from_stripe with_payment apply_plan
    update_rate_limit with_terms list_tables
confirm_checkout-IsConfirmed_example =
    confirm_checkout-IsConfirmed even_months true "https://app" 1_500 7 "cs_1" start paid_sub
      start-HasUniqueSubs refl

-- The session as a confirmation retrieves it, with the subscription expanded.
abbrev read_session : Session
read_session = record fixed_session { subscription = expanded 32 }

abbrev expanding_stripe : StripeSdk
expanding_stripe = record fixed_stripe { retrieve_session = λ id. pure read_session }

abbrev read_start : BillingState list_orm map_redis expanding_stripe
read_start = record {
  org_state = start.org_state;
  subs = start.subs;
  records = start.records;
  logs = start.logs;
  stripe = start.stripe;
}

checkout_completed-eq-confirm_example :
    (handle_event even_months true "https://app" 1_500
      (checkout_completed fixed_session)
      read_start).1
    ≡ (confirm_checkout even_months true "https://app" 1_500 7 "cs_1" read_start).1
checkout_completed-eq-confirm_example =
    checkout_completed-eq-confirm even_months true "https://app" 1_500 7 pro "cs_1" fixed_session
      read_session (some 31) (some 32) read_start refl refl refl refl refl refl refl (inl refl)
      (inl refl) (inl refl) (inr refl)

subscription_deleted-IsDowngraded_example :
    IsDowngraded even_months 1_500 7 start.org_state
      (handle_event even_months true "https://app" 1_500 (subscription_deleted 32) start).1
unfolding list_tables with_terms
subscription_deleted-IsDowngraded_example =
    subscription_deleted-IsDowngraded even_months true "https://app" 1_500 32 start acme_sub acme
      start-HasUniqueSubs refl refl

handle_event-HasUniqueSubs_example :
    HasUniqueSubs
      (handle_event even_months true "https://app" 1_500 (checkout_completed fixed_session) start).1
handle_event-HasUniqueSubs_example =
    handle_event-HasUniqueSubs even_months true "https://app" 1_500
      (checkout_completed fixed_session) start start-HasUniqueSubs

-- Stripe is asked to cancel the subscription that is left.
downgrade_cancels :
    (create_checkout even_months true "https://app" 1_500 7
      (record { email = "ada@acme.io"; first_name = none; last_name = none })
      free
      start).1.stripe
    ≡ (32 ∷ [])
unfolding create_checkout cancel_subscription ensure_subscription apply_plan update_rate_limit
    with_terms list_tables
downgrade_cancels = refl

create_checkout-IsDowngraded_example :
    let run =
      create_checkout even_months true "https://app" 1_500 7
        (record { email = "ada@acme.io"; first_name = none; last_name = none })
        free
        start in
    (run.0 ≡ ok (record { url = none; downgraded = true }))
    × IsDowngraded even_months 1_500 7 start.org_state run.1
unfolding list_tables with_terms
create_checkout-IsDowngraded_example =
    create_checkout-IsDowngraded even_months true "https://app" 1_500 7
      (record { email = "ada@acme.io"; first_name = none; last_name = none }) start acme_sub acme
      start-HasUniqueSubs refl refl
