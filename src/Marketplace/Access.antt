-- ===== src/Marketplace/Access.antt =====
-- Access to a paid API: what a confirmed payment gives, and what `unsubscribe` takes away.
use developer_platform_backe.Orm.Laws.{get-save_ne}
use developer_platform_backe.Marketplace.Rows.{
  HasUniqueSubs, activated, find-activated, activated-HasUniqueSubs, activate_lem,
}
use developer_platform_backe.Marketplace.Subscriptions.{is_sub, activate_subscription}
use developer_platform_backe.Marketplace.{
  MarketplaceSubscription, MarketState, active, marketplace_subscription_entity, MarketplaceApi,
}
use developer_platform_backe.Billing.Interface.{StripeSdk}
use developer_platform_backe.Redis.{Redis}
use developer_platform_backe.Prelude.{ℕ, ◌≡◌, refl, ap, ◌∙◌, ◌≢◌, Option, some, arith}
use developer_platform_backe.Prelude.Action.{ok}
use developer_platform_backe.Orm.{Orm}

module _ {orm : Orm} {redis : Redis} {sdk : StripeSdk} where
  -- The organization has the API in `s'`, by the row `sub`; no other row of `rows` changed, and no API.
  pub record IsGranted (org api : ℕ) (stripe : Option ℕ) (sub : MarketplaceSubscription)
      (rows : orm.Table MarketplaceSubscription) (offers : orm.Table MarketplaceApi)
      (s' : MarketState orm redis sdk) : Type 0 where
    pub found : orm.find_one (is_sub org (some api)) s'.subs ≡ some sub
    pub status : sub.status ≡ active
    pub billed : sub.stripe_subscription_id ≡ stripe
    pub others : (k : ℕ) → k ≢ sub.id → orm.get k s'.subs ≡ orm.get k rows
    pub apis : s'.apis ≡ offers
    pub stays_unique : HasUniqueSubs orm s'.subs
    -- The webhook and the confirmation of one session may both come: the second changes nothing.
    pub again :
        (later : ℕ)
        → (s'' : MarketState orm redis sdk) × (activate_subscription later org (some api) stripe s'
            ≡ (ok sub, s''))
          × ((k : ℕ) → orm.get k s''.subs ≡ orm.get k s'.subs)

  module _ (now org api : ℕ) (stripe : Option ℕ) (s : MarketState orm redis sdk)
      (unique : HasUniqueSubs orm s.subs) where
    abbrev pub after_activation : MarketState orm redis sdk
    after_activation = record s { subs = orm.save (activated now org api stripe s) s.subs }

    activated-again :
        (later : ℕ)
        → activated later org api stripe after_activation ≡ activated now org api stripe s
    activated-again later = rw (find-activated now org api stripe s unique) refl

    pub activated-IsGranted :
        IsGranted org api stripe (activated now org api stripe s) s.subs s.apis after_activation
    activated-IsGranted =
        let sub : MarketplaceSubscription = activated now org api stripe s in
        record {
          found = find-activated now org api stripe s unique;
          status = refl;
          billed = refl;
          others = λ k other. get-save_ne orm k sub s.subs other;
          apis = refl;
          stays_unique = activated-HasUniqueSubs now org api stripe s unique;
          again = λ later. (
            record after_activation { subs = orm.save sub after_activation.subs },
            activate_lem later org api stripe after_activation
                ∙ ap
                    (λ x.
                      (ok x, record after_activation { subs = orm.save x after_activation.subs }))
                    (activated-again later),
            λ k.
                ground (arith, orm.get-save k sub after_activation.subs, orm.get-save k sub s.subs),
          );
        }
