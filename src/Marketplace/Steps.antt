-- ===== src/Marketplace/Steps.antt =====
-- Runs of the marketplace: any operations in any order, by any organizations, with Stripe's events
-- between them.
use developer_platform_backe.Slug.Table.{HasDistinctSlugs}
use developer_platform_backe.Marketplace.Rows.{HasUniqueSubs}
use developer_platform_backe.Billing.Events.{StripeEvent}
use developer_platform_backe.Billing.Payments.{BillingActor}
use developer_platform_backe.Marketplace.Subscriptions.{
  subscribe, confirm_subscription, handle_stripe_event, unsubscribe,
}
use developer_platform_backe.Marketplace.{
  MarketState, publish, PublishApiDto, marketplace_api_entity,
}
use developer_platform_backe.Slug.{Texts}
use developer_platform_backe.Billing.Interface.{StripeSdk, Calendar, Rounding}
use developer_platform_backe.Redis.{Redis}
use developer_platform_backe.Prelude.{ℕ, String, Bool}
use developer_platform_backe.Orm.{Orm}

-- The parameters of an operation and what it does.
pub data Operation : Type 0 where
  to_publish : Texts → Rounding → (now org : ℕ) → PublishApiDto → Operation
  to_subscribe :
      Calendar
      → (enabled : Bool) → (url : String) → (now org : ℕ) → BillingActor
      → (api : ℕ) → Operation
  to_confirm :
      Calendar
      → (enabled : Bool) → (url : String) → (now org : ℕ) → (session_id : String) → Operation
  to_handle : (now : ℕ) → StripeEvent → Operation
  to_unsubscribe : (enabled : Bool) → (org id : ℕ) → Operation

module _ {orm : Orm} {redis : Redis} {sdk : StripeSdk} where
  abbrev pub after : Operation → MarketState orm redis sdk → MarketState orm redis sdk
  after (to_publish texts rounding now org dto) s = (publish texts rounding now org dto s).1
  after (to_subscribe calendar enabled url now org actor api) s =
      (subscribe calendar enabled url now org actor api s).1
  after (to_confirm calendar enabled url now org session_id) s =
      (confirm_subscription calendar enabled url now org session_id s).1
  after (to_handle now event) s = (handle_stripe_event now event s).1
  after (to_unsubscribe enabled org id) s = (unsubscribe enabled org id s).1

  -- The states that operations lead to from `s`.
  pub data Reachable (s : MarketState orm redis sdk) : MarketState orm redis sdk → Type 0 where
    start : Reachable s s
    step :
        (t : MarketState orm redis sdk) (op : Operation) → Reachable s t → Reachable s (after op t)

  -- Both unique constraints of the tables.
  abbrev pub IsSound : MarketState orm redis sdk → Type 0
  IsSound s = HasUniqueSubs orm s.subs × HasDistinctSlugs orm (λ a. a.slug) s.apis
