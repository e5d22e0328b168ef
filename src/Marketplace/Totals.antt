-- ===== src/Marketplace/Totals.antt =====
-- The totals of `getEarnings`.
use mathlib.Core.Path.{subst}
use developer_platform_backe.Marketplace.Subscriptions.{platform_fee_percent}
use developer_platform_backe.Prelude.Sorting.{
  sum, IsDescending, sum-sort_desc, sort_desc-IsDescending, sort_desc-All, sort_desc-Any,
  sort_desc-IsDistinct, length-sort_desc,
}
use developer_platform_backe.Marketplace.Earnings.{
  get_earnings, Earnings, ApiEarnings, earned, is_active_sub,
}
use developer_platform_backe.Marketplace.{
  MarketState, MarketplaceApi, marketplace_api_entity, MarketplaceSubscription, active,
  marketplace_subscription_entity,
}
use developer_platform_backe.Billing.Interface.{StripeSdk, Rounding}
use developer_platform_backe.Redis.{Redis}
use developer_platform_backe.Prelude.{
  ℕ, ◌+◌, ◌*◌, ◌≤◌, ◌≡◌, refl, sym, some, List, map, arith, ◌==◌, All, Any, Any-map, IsDistinct,
  Bool, All-map, length, All-weaken, ◌∙◌, ◌-◌, length-map, Any-weaken, map-IsDistinct,
}
use developer_platform_backe.Prelude.Action.{ok}
use developer_platform_backe.Orm.{Orm}

fee_le :
    (rounding : Rounding) → (gross : ℕ) → rounding.to_fixed (gross * platform_fee_percent) ≤ gross
fee_le rounding gross = omega (arith, rounding.not_above (gross * platform_fee_percent))

module _ {orm : Orm} {redis : Redis} {sdk : StripeSdk} (rounding : Rounding) where
  -- The entry of an API: its subscribers are the rows with the API that are active, each counted
  -- once; the gross amount is the price for each of them, and the net amount is nine tenths of it, to
  -- half a cent.
  pub record IsEntry (s : MarketState orm redis sdk) (a : MarketplaceApi) (x : ApiEarnings)
      : Type 0 where
    pub about : (x.id ≡ a.id) × (x.name ≡ a.name) × (x.price_per_month ≡ a.price_per_month)
    pub paying : List MarketplaceSubscription
    pub counted : x.subscribers ≡ length paying
    pub once : IsDistinct (λ m. m.id) paying
    pub all_active :
        All (λ m. (orm.get m.id s.subs ≡ some m) × (m.api_id ≡ a.id) × (m.status ≡ active)) paying
    pub all_counted :
        (m : MarketplaceSubscription)
        → orm.get m.id s.subs ≡ some m
        → m.api_id ≡ a.id
        → m.status ≡ active
        → Any (λ y. y ≡ m) paying
    pub gross : x.gross_monthly ≡ a.price_per_month * x.subscribers
    pub net_not_above : x.net_monthly * 10 ≤ x.gross_monthly * 9 + 5
    pub net_not_below : x.gross_monthly * 9 ≤ x.net_monthly * 10 + 5

  earned-IsEntry :
      (s : MarketState orm redis sdk) (a : MarketplaceApi) → IsEntry s a (earned rounding s a)
  earned-IsEntry s a =
      let subs = orm.find (is_active_sub a.id) s.subs in
      let gross : ℕ = a.price_per_month * length subs in
      record {
        about = (refl, refl, refl);
        paying = subs;
        counted = refl;
        once = orm.find_once (is_active_sub a.id) s.subs;
        all_active =
            All-weaken (λ m h. (h.1, ground arith, ground arith)) subs
              (orm.find_sound (is_active_sub a.id) s.subs);
        all_counted = λ m stored of_api is_active.
            orm.find_complete (is_active_sub a.id) s.subs m.id m stored (ground arith);
        gross = refl;
        net_not_above = omega (arith, rounding.not_above (gross * (100 - platform_fee_percent)));
        net_not_below = omega (arith, rounding.not_below (gross * (100 - platform_fee_percent)));
      }

  -- What the answer of `getEarnings` says, against the tables.
  pub record IsBalanced (org : ℕ) (s : MarketState orm redis sdk) (e : Earnings) : Type 0 where
    pub gross : e.gross_monthly ≡ sum (λ x. x.gross_monthly) e.per_api
    pub subscribers : e.total_subscribers ≡ sum (λ x. x.subscribers) e.per_api
    pub split : e.platform_fee + e.net_monthly ≡ e.gross_monthly
    -- the fee is a tenth, to half a cent
    pub fee_not_above : e.platform_fee * 10 ≤ e.gross_monthly + 5
    pub fee_not_below : e.gross_monthly ≤ e.platform_fee * 10 + 5
    pub ordered : IsDescending (λ x. x.gross_monthly) e.per_api
    pub entries :
        All
          (λ x.
            (a : MarketplaceApi) × (a.owner_organization_id ≡ org)
            × (orm.get a.id s.apis ≡ some a)
            × IsEntry s a x)
          e.per_api
    pub one_each : IsDistinct (λ x. x.id) e.per_api
    pub as_many : e.published_apis ≡ length e.per_api
    pub complete :
        (a : MarketplaceApi)
        → orm.get a.id s.apis ≡ some a
        → a.owner_organization_id ≡ org
        → Any (IsEntry s a) e.per_api

  -- The answer of `getEarnings` has exactly one entry for each API of the organization, the largest
  -- gross amount first. An entry counts the active subscriptions that are stored for its API, each
  -- once; its gross amount is the price for each of them and its net amount nine tenths of that, to
  -- within half a cent. The total amount and the number of subscribers are the sums of the entries, the
  -- fee and the net amount add up to the total exactly, and the fee is a tenth of it to within half a
  -- cent. Nothing is written.
  pub get_earnings-IsBalanced :
      (org : ℕ) (s : MarketState orm redis sdk)
      → (e : Earnings) × (get_earnings rounding org s ≡ (ok e, s)) × IsBalanced org s e
  unfolding get_earnings
  get_earnings-IsBalanced org s =
      let is_own : MarketplaceApi → Bool = λ a. a.owner_organization_id == org in
      let apis = orm.find is_own s.apis in
      let entries : List ApiEarnings = map (earned rounding s) apis in
      let gross : ℕ = sum (λ x. x.gross_monthly) entries in
      let by_gross : ApiEarnings → ℕ = λ x. x.gross_monthly in
      (
        _,
        refl,
        record {
          gross = sym (sum-sort_desc by_gross by_gross entries);
          subscribers = sym (sum-sort_desc (λ x. x.subscribers) by_gross entries);
          split = omega (arith, fee_le rounding gross);
          fee_not_above = omega (arith, rounding.not_above (gross * platform_fee_percent));
          fee_not_below = omega (arith, rounding.not_below (gross * platform_fee_percent));
          ordered = sort_desc-IsDescending by_gross entries;
          entries = sort_desc-All by_gross _ entries (
              All-map (earned rounding s) _ _ (λ a h. (a, ground arith, h.1, earned-IsEntry s a))
                apis (orm.find_sound is_own s.apis));
          one_each =
              sort_desc-IsDistinct (λ x. x.id) by_gross entries
                (map-IsDistinct (earned rounding s) (λ x. x.id) apis (orm.find_once is_own s.apis));
          as_many = sym (length-sort_desc by_gross entries ∙ length-map (earned rounding s) apis);
          complete = λ a stored owner. sort_desc-Any by_gross _ entries (
              Any-weaken
                (λ x (same : x ≡ earned rounding s a).
                  subst (IsEntry s a) (sym same) (earned-IsEntry s a))
                entries
                (Any-map (earned rounding s) a apis
                  (orm.find_complete is_own s.apis a.id a stored (ground arith))));
        },
      )
