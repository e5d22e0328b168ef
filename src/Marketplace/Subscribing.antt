-- ===== src/Marketplace/Subscribing.antt =====
-- What `subscribe` gives, and when.
use developer_platform_backe.Marketplace.Checkout.{
  IsCheckout, IsUntouched, BeginOutcome, begin_checkout-BeginOutcome,
}
use developer_platform_backe.Marketplace.Subscriptions.{
  SubscribeAnswer, subscribe, subscribed, is_sub, new_sub, checkout, begin_checkout,
}
use developer_platform_backe.Billing.Payments.{BillingActor}
use developer_platform_backe.Marketplace.{
  MarketState, is_published, MarketplaceApi, published, MarketplaceSubscription,
  marketplace_api_entity, view, marketplace_subscription_entity, active,
}
use developer_platform_backe.Organizations.{
  assert_type, find_one, Organization, no_org, organization_entity, wrong_type, OrgState,
}
use developer_platform_backe.Enums.{OrganizationType, subscriber, same_type}
use developer_platform_backe.Billing.Interface.{StripeSdk, Calendar}
use developer_platform_backe.Redis.{Redis}
use developer_platform_backe.Prelude.{
  ℕ, ◌<◌, String, ◌≡◌, refl, ◌⊎◌, inl, inr, Bool, true, false, not, ◌&&◌, ◌||◌, none, some, arith,
  ◌==◌, Bool-cases, Option-cases, ◌≢◌,
}
use developer_platform_backe.Prelude.Action.{Result, ok, err, HttpError, not_found, conflict}
use developer_platform_backe.Orm.{Orm}

-- An active row of the organization for the API, which no subscription at Stripe pays for.
abbrev pub IsGranted : (now org id api_id : ℕ) → MarketplaceSubscription → Type 0
IsGranted now org id api_id row =
    (row.id ≡ id)
    × (row.subscriber_organization_id ≡ org)
    × (row.api_id ≡ api_id)
    × (row.status ≡ active)
    × (row.stripe_subscription_id ≡ none)
    × (row.created_at ≡ now)

module _ {orm : Orm} {redis : Redis} {sdk : StripeSdk} where
  -- A stored organization of the given type
  abbrev pub HasType : ℕ → OrganizationType → MarketState orm redis sdk → Type 0
  HasType org type s =
      (o : Organization) × (orm.get org s.billing.org_state.orgs ≡ some o) × (o.type ≡ type)

  pub assert_type-HasType :
      (org : ℕ) (type : OrganizationType) (s : MarketState orm redis sdk)
      → ((assert_type org type s.billing.org_state ≡ (ok tt, s.billing.org_state))
          × HasType org type s)
        ⊎ ((e : HttpError) × (assert_type org type s.billing.org_state
              ≡ (err e, s.billing.org_state)))
  unfolding assert_type find_one
  assert_type-HasType org type s =
      elim (Option-cases (orm.find_one (λ o. o.id == org) s.billing.org_state.orgs)) [
        | inl missing ↦ inr (no_org, ground (arith, missing))
        | inr (o, found) ↦
            let (same, stored) =
              orm.find_one_sound (λ o. o.id == org) s.billing.org_state.orgs o found in
            elim (Bool-cases (same_type o.type type)) [
              | inl right ↦ inl (ground (arith, found), (o, ground arith, ground arith))
              | inr other ↦ inr (wrong_type type, ground (arith, found))
            ]
      ]

  module _ (calendar : Calendar) (enabled : Bool) (url : String) (now org : ℕ)
      (actor : BillingActor) where
    -- No stored row is of the organization and the API.
    abbrev pub HasNoRow : ℕ → MarketState orm redis sdk → Type 0
    HasNoRow api_id s =
        (x : MarketplaceSubscription)
        → orm.get x.id s.subs ≡ some x
        → x.subscriber_organization_id ≡ org
        → x.api_id ≢ api_id

    newcomer-HasNoRow :
        (api_id : ℕ) (s : MarketState orm redis sdk)
        → orm.find_one (is_sub org (some api_id)) s.subs ≡ none
        → HasNoRow api_id s
    newcomer-HasNoRow api_id s newcomer x stored owner same_api =
        ground (arith, orm.find_one_none (is_sub org (some api_id)) s.subs x.id x newcomer stored)

    -- What `subscribe` gave: access at once, or a payment to make, or an error.
    abbrev pub SubscribeOutcome :
        ℕ → MarketState orm redis sdk → Result SubscribeAnswer × MarketState orm redis sdk → Type 0
    SubscribeOutcome api_id s (ok (subscribed id shown), s') =
        HasType org subscriber s
        × (api : MarketplaceApi) × (orm.get api_id s.apis ≡ some api)
        × (api.status ≡ published)
        × HasNoRow api_id s
        × ((api.price_per_month ≡ 0) ⊎ (enabled ≡ false))
        × (shown ≡ view api)
        × (orm.get id s.subs ≡ none)
        × (row : MarketplaceSubscription) × IsGranted now org id api_id row
        × (s' ≡ record s { subs = orm.save row s.subs })
    SubscribeOutcome api_id s (ok (checkout answer), s') =
        HasType org subscriber s
        × (api : MarketplaceApi) × (orm.get api_id s.apis ≡ some api)
        × (api.status ≡ published)
        × HasNoRow api_id s
        × (0 < api.price_per_month)
        × (enabled ≡ true)
        × IsCheckout calendar enabled url now org actor api s answer
        × IsUntouched s s'
    SubscribeOutcome api_id s (err e, s') = IsUntouched s s'

    module _ (api_id : ℕ) (s : MarketState orm redis sdk) where
      subscribe-wrong_type :
          (e : HttpError)
          → assert_type org subscriber s.billing.org_state ≡ (err e, s.billing.org_state)
          → subscribe calendar enabled url now org actor api_id s ≡ (err e, s)
      unfolding subscribe
      subscribe-wrong_type e wrong = ground (arith, wrong)

      module _
          (right : assert_type org subscriber s.billing.org_state
            ≡ (ok tt, s.billing.org_state)) where
        subscribe-unpublished :
            orm.find_one (λ a. a.id == api_id && is_published a) s.apis ≡ none
            → subscribe calendar enabled url now org actor api_id s
              ≡ (err (not_found "Published API not found"), s)
        unfolding subscribe
        subscribe-unpublished missing = ground (arith, right, missing)

        module _ (api : MarketplaceApi)
            (found : orm.find_one (λ a. a.id == api_id && is_published a) s.apis ≡ some api) where
          subscribe-twice :
              (old : MarketplaceSubscription)
              → orm.find_one (is_sub org (some api_id)) s.subs ≡ some old
              → subscribe calendar enabled url now org actor api_id s
                ≡ (err (conflict "Already subscribed to this API"), s)
          unfolding subscribe
          subscribe-twice old already = ground (arith, right, found, already)

          subscribe-free :
              orm.find_one (is_sub org (some api_id)) s.subs ≡ none
              → (api.price_per_month == 0 || not enabled) ≡ true
              → subscribe calendar enabled url now org actor api_id s ≡ (
                ok (subscribed (orm.fresh s.subs) (view api)),
                record s { subs = orm.save (new_sub now (orm.fresh s.subs) org api_id) s.subs },
              )
          unfolding subscribe
          subscribe-free newcomer granted = ground (arith, right, found, newcomer)

      -- The state is written out as the calls leave it.
      subscribe-paid :
          (t : OrgState orm redis) (api : MarketplaceApi)
          → assert_type org subscriber s.billing.org_state ≡ (ok tt, t)
          → orm.find_one (λ a. a.id == api_id && is_published a) s.apis ≡ some api
          → orm.find_one (is_sub org (some api_id)) s.subs ≡ none
          → (api.price_per_month == 0 || not enabled) ≡ false
          → subscribe calendar enabled url now org actor api_id s
            ≡ begin_checkout calendar enabled url now org actor api
                (record s { billing = record (s.billing) { org_state = t } })
      unfolding subscribe
      subscribe-paid t api right found newcomer asks = ground (arith, right, found, newcomer, asks)

    pub subscribe-SubscribeOutcome :
        (api_id : ℕ) (s : MarketState orm redis sdk)
        → SubscribeOutcome api_id s (subscribe calendar enabled url now org actor api_id s)
    subscribe-SubscribeOutcome api_id s = elim (assert_type-HasType org subscriber s) [
      | inr (e, wrong) ↦ rw (subscribe-wrong_type api_id s e wrong) (refl, refl)
      | inl (right, typed) ↦
          elim (Option-cases (orm.find_one (λ a. a.id == api_id && is_published a) s.apis)) [
            | inl missing ↦ rw (subscribe-unpublished api_id s right missing) (refl, refl)
            | inr (api, found) ↦
                let (holds, stored) =
                  orm.find_one_sound (λ a. a.id == api_id && is_published a) s.apis api found in
                let there : orm.get api_id s.apis ≡ some api = ground arith in
                let shown : api.status ≡ published = ground arith in
                elim (Option-cases (orm.find_one (is_sub org (some api_id)) s.subs)) [
                  | inr (old, already) ↦
                      rw (subscribe-twice api_id s right api found old already) (refl, refl)
                  | inl newcomer ↦ elim (Bool-cases (api.price_per_month == 0 || not enabled)) [
                    | inl granted ↦ rw (subscribe-free api_id s right api found newcomer granted) (
                      typed,
                      api,
                      there,
                      shown,
                      newcomer-HasNoRow api_id s newcomer,
                      ground arith,
                      refl,
                      orm.get-fresh s.subs,
                      new_sub now (orm.fresh s.subs) org api_id,
                      (refl, refl, refl, refl, refl, refl),
                      refl,
                    )
                    | inr asks ↦
                        rw
                          (subscribe-paid api_id s s.billing.org_state api right found newcomer
                            asks)
                          (go typed api there shown (newcomer-HasNoRow api_id s newcomer)
                            (ground arith) (ground arith)
                            (begin_checkout calendar enabled url now org actor api s)
                            (begin_checkout-BeginOutcome calendar enabled url now org actor api s
                              (ground arith)))
                  ]
                ]
          ]
    ]
      where
        go :
            HasType org subscriber s
            → (api : MarketplaceApi) → orm.get api_id s.apis ≡ some api
            → api.status ≡ published
            → HasNoRow api_id s
            → 0 < api.price_per_month
            → enabled ≡ true
            → (r : Result SubscribeAnswer × MarketState orm redis sdk)
            → BeginOutcome calendar enabled url now org actor api s r
            → SubscribeOutcome api_id s r
        go typed api there shown newcomer asks on (ok (checkout answer), s') (session, same) =
            (typed, api, there, shown, newcomer, asks, on, session, same)
        go typed api there shown newcomer asks on (ok (subscribed id v), s') impossible =
            absurd impossible
        go typed api there shown newcomer asks on (err e, s') same = same
