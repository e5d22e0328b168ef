-- ===== src/Marketplace/Earnings.antt =====
-- marketplace/marketplace.service.ts, `getEarnings`.
use developer_platform_backe.Marketplace.{active, canceled}
use developer_platform_backe.Marketplace.Subscriptions.{platform_fee_percent}
use developer_platform_backe.Prelude.Sorting.{sum, sort_desc}
use developer_platform_backe.Billing.Interface.{StripeSdk, Rounding}
use developer_platform_backe.Redis.{Redis}
use developer_platform_backe.Marketplace.{
  MarketplaceSubscription, MarketState, MarketplaceApi, marketplace_subscription_entity,
  marketplace_api_entity,
}
use developer_platform_backe.Prelude.{
  ℕ, ◌-◌, ◌*◌, String, Bool, true, false, ◌&&◌, List, map, ◌==◌, length,
}
use developer_platform_backe.Prelude.Action.{Action, pure, gets, ◌>>=◌}
use developer_platform_backe.Orm.{Orm}

-- An entry of `perApi`, the amounts in cents.
pub record ApiEarnings : Type 0 where
  pub id : ℕ
  pub name : String
  pub price_per_month : ℕ
  pub subscribers : ℕ
  pub gross_monthly : ℕ
  pub net_monthly : ℕ

pub record Earnings : Type 0 where
  pub platform_fee_percent : ℕ
  pub published_apis : ℕ
  pub total_subscribers : ℕ
  pub gross_monthly : ℕ
  pub platform_fee : ℕ
  pub net_monthly : ℕ
  pub per_api : List ApiEarnings

-- `count({ where: { apiId, status: 'active' } })`
abbrev pub is_active_sub : ℕ → MarketplaceSubscription → Bool
is_active_sub api_id sub =
    sub.api_id == api_id && elim sub.status [ active ↦ true | canceled ↦ false ]

module _ {orm : Orm} {redis : Redis} {sdk : StripeSdk} (rounding : Rounding) where
  -- The entry of an API; `toFixed` takes ten-thousandths of a dollar.
  abbrev pub earned : MarketState orm redis sdk → MarketplaceApi → ApiEarnings
  earned s api =
      let subscribers = length (orm.find (is_active_sub api.id) s.subs) in
      let gross = api.price_per_month * subscribers in
      record {
        id = api.id;
        name = api.name;
        price_per_month = api.price_per_month;
        subscribers = subscribers;
        gross_monthly = gross;
        net_monthly = rounding.to_fixed (gross * (100 - platform_fee_percent));
      }

  -- `getEarnings`
  unfoldable pub get_earnings : ℕ → Action (MarketState orm redis sdk) Earnings
  get_earnings org_id = do
    apis ← gets (λ s. orm.find (λ a. a.owner_organization_id == org_id) s.apis)
    per_api ← gets (λ s. map (earned s) apis)
    let gross = sum (λ e. e.gross_monthly) per_api
    let fee = rounding.to_fixed (gross * platform_fee_percent)
    pure (record {
      platform_fee_percent = platform_fee_percent;
      published_apis = length apis;
      total_subscribers = sum (λ e. e.subscribers) per_api;
      gross_monthly = gross;
      platform_fee = fee;
      net_monthly = gross - fee;
      per_api = sort_desc (λ e. e.gross_monthly) per_api;
    })
