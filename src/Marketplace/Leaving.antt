-- ===== src/Marketplace/Leaving.antt =====
-- Leaving an API, and what the event of an ended subscription does.
use developer_platform_backe.Marketplace.Subscriptions.{unsubscribe}
use developer_platform_backe.Marketplace.Rows.{HasUniqueSubs}
use developer_platform_backe.Marketplace.{
  MarketplaceSubscription, MarketState, marketplace_subscription_entity,
}
use developer_platform_backe.Billing.Stripe.{cancel_subscription}
use developer_platform_backe.Billing.Interface.{StripeSdk}
use developer_platform_backe.Redis.{Redis}
use developer_platform_backe.Prelude.{
  ℕ, ◌≡◌, refl, ◌≢◌, inl, inr, Bool, true, ◌&&◌, Option, none, some, arith, ◌==◌, Option-cases,
}
use developer_platform_backe.Prelude.Action.{Result, ok, err, not_found}
use developer_platform_backe.Orm.{Orm}

module _ (sdk : StripeSdk) where
  -- The state of Stripe after its API, where it is configured, was asked to cancel the subscription
  -- of a row, if it has one. The answer may be an error.
  abbrev pub canceled_at : (enabled : Bool) → Option ℕ → sdk.Server → sdk.Server
  canceled_at true (some id) server = (sdk.cancel id server).1
  canceled_at _ _ server = server

-- The lookup of `unsubscribe`
abbrev pub owns : ℕ → ℕ → MarketplaceSubscription → Bool
owns org id x = x.id == id && x.subscriber_organization_id == org

module _ {orm : Orm} {redis : Redis} {sdk : StripeSdk} where
  pub record IsLeft (enabled : Bool) (org id : ℕ) (s s' : MarketState orm redis sdk) : Type 0 where
    pub sub : MarketplaceSubscription
    pub stored : orm.get id s.subs ≡ some sub
    pub owner : sub.subscriber_organization_id ≡ org
    pub stopped :
        s'.billing.stripe ≡ canceled_at sdk enabled sub.stripe_subscription_id s.billing.stripe
    pub gone : orm.get id s'.subs ≡ none
    pub none_left :
        HasUniqueSubs orm s.subs
        → (x : MarketplaceSubscription) → orm.get x.id s'.subs ≡ some x
        → x.subscriber_organization_id ≡ org
        → x.api_id ≢ sub.api_id
    pub others : (k : ℕ) → k ≢ id → orm.get k s'.subs ≡ orm.get k s.subs
    pub apis : s'.apis ≡ s.apis

  abbrev pub LeaveOutcome :
      (enabled : Bool)
      → (org id : ℕ) → MarketState orm redis sdk
      → Result ℕ × MarketState orm redis sdk
      → Type 0
  LeaveOutcome enabled org id s (ok k, s') = IsLeft enabled org id s s'
  LeaveOutcome enabled org id s (err e, s') =
      (s' ≡ s)
      × (e ≡ not_found "Subscription not found")
      × ((sub : MarketplaceSubscription)
          → orm.get id s.subs ≡ some sub
          → sub.subscriber_organization_id ≢ org)

  module _ (enabled : Bool) (org id : ℕ) (s : MarketState orm redis sdk) where
    abbrev pub left : MarketplaceSubscription → MarketState orm redis sdk
    left sub = record s {
      billing = record (s.billing) {
        stripe = canceled_at sdk enabled sub.stripe_subscription_id s.billing.stripe;
      };
      subs = orm.remove sub s.subs;
    }

    pub unsubscribe-known :
        (sub : MarketplaceSubscription)
        → orm.find_one (owns org id) s.subs ≡ some sub
        → unsubscribe enabled org id s ≡ (ok id, left sub)
    unfolding unsubscribe cancel_subscription
    unsubscribe-known sub found = ground (arith, found)

    pub unsubscribe-unknown :
        orm.find_one (owns org id) s.subs ≡ none
        → unsubscribe enabled org id s ≡ (err (not_found "Subscription not found"), s)
    unfolding unsubscribe
    unsubscribe-unknown missing = ground (arith, missing)

    left-IsLeft :
        (sub : MarketplaceSubscription)
        → orm.find_one (owns org id) s.subs ≡ some sub
        → IsLeft enabled org id s (left sub)
    left-IsLeft sub found =
        let (same, stored) = orm.find_one_sound (owns org id) s.subs sub found in
        record {
          sub = sub;
          stored = ground arith;
          owner = ground arith;
          stopped = refl;
          gone = ground (arith, orm.get-remove id sub s.subs);
          none_left = λ unique x there owner same_api.
              ground (arith, orm.get-remove x.id sub s.subs, unique x sub);
          others = λ k other. ground (arith, orm.get-remove k sub s.subs);
          apis = refl;
        }

    -- `unsubscribe` removes the row with the key if it is one of the organization, and no other; then
    -- the organization does not have that API any more, if it had at most one row for it. If Stripe is
    -- configured and a subscription there pays for the row, its API is called to cancel it, and the row
    -- goes whether or not that call fails; nothing else is asked of Stripe. For a key that is not one of
    -- its rows it throws and changes nothing.
    pub unsubscribe-LeaveOutcome : LeaveOutcome enabled org id s (unsubscribe enabled org id s)
    unsubscribe-LeaveOutcome = elim (Option-cases (orm.find_one (owns org id) s.subs)) [
      | inl missing ↦ rw (unsubscribe-unknown missing) (
        refl,
        refl,
        λ sub stored. ground (
          arith,
          orm.find_one_none (owns org id) s.subs id sub missing stored,
          orm.get_key id s.subs sub stored,
        ),
      )
      | inr (sub, found) ↦ rw (unsubscribe-known sub found) (left-IsLeft sub found)
    ]
