-- ===== src/Marketplace.antt =====
-- marketplace/marketplace.service.ts: APIs that publishers offer and subscribers use.
pub mod Subscriptions
pub mod Earnings
pub mod Checkout
pub mod Subscribing
pub mod Rows
pub mod Access
pub mod Confirm
pub mod Leaving
pub mod Totals
pub mod Steps
pub mod Settlement
pub mod Soundness
mod Tests
use developer_platform_backe.Enums.{publisher}
use developer_platform_backe.Prelude.Sorting.{sort_desc}
use developer_platform_backe.Slug.{Texts, base_of, free_slug}
use developer_platform_backe.Organizations.{OrgState, assert_type}
use developer_platform_backe.Billing.{BillingState}
use developer_platform_backe.Billing.Interface.{StripeSdk, Rounding}
use developer_platform_backe.Redis.{Redis}
use developer_platform_backe.Prelude.{
  ℕ, ◌+◌, String, Bool, true, false, not, ◌&&◌, Option, none, some, List, map, ◌==◌, if◌then◌else◌,
  is_some, or_default, length,
}
use developer_platform_backe.Prelude.Action.{
  HttpError, not_found, failure, Action, pure, gets, or_throw, ◌>>=◌, ◌>>◌, modify, call,
}
use developer_platform_backe.Orm.{Orm, Entity}
use text.Mathlib.Text.{◌==◌ as str_eq}

-- marketplace/enums/marketplace.enums.ts
pub data ApiVisibility : Type 0 where
  public private : ApiVisibility

pub data ApiStatus : Type 0 where
  draft published : ApiStatus

-- marketplace/entities/marketplace-api.entity.ts, the price in cents
pub record MarketplaceApi : Type 0 where
  pub id : ℕ
  pub owner_organization_id : ℕ
  pub name : String
  pub slug : String
  pub description : Option String
  pub category : Option String
  pub version : String
  pub base_url : String
  pub visibility : ApiVisibility
  pub status : ApiStatus
  pub price_per_month : ℕ
  pub created_at : ℕ

instance abbrev pub marketplace_api_entity : Entity MarketplaceApi
marketplace_api_entity = record { id_of = λ a. a.id }

-- The `status` column of a subscription.
pub data SubscriptionStatus : Type 0 where
  active canceled : SubscriptionStatus

-- marketplace/entities/marketplace-subscription.entity.ts
pub record MarketplaceSubscription : Type 0 where
  pub id : ℕ
  pub subscriber_organization_id : ℕ
  pub api_id : ℕ
  pub status : SubscriptionStatus
  pub stripe_subscription_id : Option ℕ
  pub created_at : ℕ

instance abbrev pub marketplace_subscription_entity : Entity MarketplaceSubscription
marketplace_subscription_entity = record { id_of = λ s. s.id }

-- marketplace/dto/publish-api.dto.ts, the price in ten-thousandths of a dollar
pub record PublishApiDto : Type 0 where
  pub name : String
  pub description : Option String
  pub category : Option String
  pub version : Option String
  pub base_url : String
  pub price_per_month : Option ℕ

-- The object that `view` returns.
pub record ApiView : Type 0 where
  pub id : ℕ
  pub name : String
  pub slug : String
  pub description : Option String
  pub category : Option String
  pub version : String
  pub base_url : String
  pub price_per_month : ℕ
  pub owner_organization_id : ℕ
  pub status : ApiStatus
  pub published_at : ℕ

-- `view`
abbrev pub view : MarketplaceApi → ApiView
view api = record {
  id = api.id;
  name = api.name;
  slug = api.slug;
  description = api.description;
  category = api.category;
  version = api.version;
  base_url = api.base_url;
  price_per_month = api.price_per_month;
  owner_organization_id = api.owner_organization_id;
  status = api.status;
  published_at = api.created_at;
}

abbrev pub is_published : MarketplaceApi → Bool
is_published api = elim api.status [ published ↦ true | draft ↦ false ]

abbrev pub is_public : MarketplaceApi → Bool
is_public api = elim api.visibility [ public ↦ true | private ↦ false ]

-- `if (category) where.category = category`
abbrev pub in_category : Option String → MarketplaceApi → Bool
in_category none api = true
in_category (some wanted) api =
    if str_eq wanted "" then true else elim api.category [ some c ↦ str_eq c wanted | none ↦ false ]

abbrev pub is_listed : Option String → MarketplaceApi → Bool
is_listed category api = is_published api && is_public api && in_category category api

-- The row that `publish` makes.
abbrev pub new_api :
    (to_fixed : ℕ → ℕ) → (now id org_id : ℕ) → (slug : String) → PublishApiDto → MarketplaceApi
new_api to_fixed now id org_id slug dto = record {
  id = id;
  owner_organization_id = org_id;
  name = dto.name;
  slug = slug;
  description = dto.description;
  category = dto.category;
  version = or_default dto.version "v1";
  base_url = dto.base_url;
  visibility = public;
  status = published;
  price_per_month = to_fixed (or_default dto.price_per_month 0);
  created_at = now;
}

module _ (orm : Orm) (redis : Redis) (sdk : StripeSdk) where
  pub record MarketState : Type 0 where
    pub billing : BillingState orm redis sdk
    pub apis : orm.Table MarketplaceApi
    pub subs : orm.Table MarketplaceSubscription

module _ {orm : Orm} {redis : Redis} {sdk : StripeSdk} where
  abbrev pub in_organizations :
      {A : Type 0} → Action (OrgState orm redis) A → Action (MarketState orm redis sdk) A
  in_organizations =
      call (λ s. s.billing.org_state)
        (λ t s. record s { billing = record (s.billing) { org_state = t } })

  -- `exists({ where: { slug } })`
  abbrev pub slug_exists : MarketState orm redis sdk → String → Bool
  slug_exists s slug = is_some (orm.find_one (λ a. str_eq a.slug slug) s.apis)

  -- `uniqueSlug`, with a round for each API and one more
  unfoldable pub unique_slug : Texts → String → Action (MarketState orm redis sdk) String
  unique_slug texts name = do
    let base = base_of texts "api" name
    rows ← gets (λ s. length (orm.find (λ a. true) s.apis))
    found ← gets (λ s. free_slug texts (slug_exists s) base (rows + 1) base 2)
    or_throw found (failure "no round is left")

  -- `publish`
  unfoldable pub publish :
      Texts
      → Rounding
      → (now org_id : ℕ) → PublishApiDto
      → Action (MarketState orm redis sdk) ApiView
  publish texts rounding now org_id dto = do
    in_organizations (assert_type org_id publisher)
    slug ← unique_slug texts dto.name
    id ← gets (λ s. orm.fresh s.apis)
    let api = new_api rounding.to_fixed now id org_id slug dto
    modify (λ s. record s { apis = orm.save api s.apis })
    pure (view api)

  -- `listOwned`
  unfoldable pub list_owned : ℕ → Action (MarketState orm redis sdk) (List ApiView)
  list_owned org_id = gets (λ s.
      map view
        (sort_desc (λ a. a.created_at) (orm.find (λ a. a.owner_organization_id == org_id) s.apis)))

  -- `browse`
  unfoldable pub browse : Option String → Action (MarketState orm redis sdk) (List ApiView)
  browse category =
      gets (λ s. map view (sort_desc (λ a. a.created_at) (orm.find (is_listed category) s.apis)))

  -- The lookup of `getPublished` and of `subscribe`
  abbrev pub find_published : ℕ → HttpError → Action (MarketState orm redis sdk) MarketplaceApi
  find_published id missing = do
    found ← gets (λ s. orm.find_one (λ a. a.id == id && is_published a) s.apis)
    or_throw found missing

  -- `getPublished`
  unfoldable pub get_published : ℕ → Action (MarketState orm redis sdk) ApiView
  get_published id = do api ← find_published id (not_found "API not found"); pure (view api)
