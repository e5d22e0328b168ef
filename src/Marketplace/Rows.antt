-- ===== src/Marketplace/Rows.antt =====
-- The rows of the subscriptions table: at most one for an organization and an API (the constraint
-- `@Unique(['subscriberOrganizationId', 'apiId'])`), and what an activation makes of them.
use developer_platform_backe.Orm.Laws.{find_one-eq-some, get-save_self}
use developer_platform_backe.Marketplace.Subscriptions.{activate_subscription, is_sub, new_sub}
use developer_platform_backe.Marketplace.{
  MarketplaceSubscription, MarketState, marketplace_subscription_entity, active,
}
use developer_platform_backe.Billing.Interface.{StripeSdk}
use developer_platform_backe.Redis.{Redis}
use developer_platform_backe.Prelude.{
  ℕ, ◌≡◌, refl, inl, inr, Option, none, some, arith, Option-cases, or_default,
}
use developer_platform_backe.Prelude.Action.{ok}
use developer_platform_backe.Orm.{Orm}

module _ (orm : Orm) where
  abbrev pub HasUniqueSubs : orm.Table MarketplaceSubscription → Type 0
  HasUniqueSubs t =
      (a b : MarketplaceSubscription)
      → orm.get a.id t ≡ some a
      → orm.get b.id t ≡ some b
      → a.subscriber_organization_id ≡ b.subscriber_organization_id
      → a.api_id ≡ b.api_id
      → a.id ≡ b.id

  -- A row may be saved when every row there is for its organization and API has its key.
  pub save-HasUniqueSubs :
      (n : MarketplaceSubscription) (t : orm.Table MarketplaceSubscription)
      → ((x : MarketplaceSubscription)
          → orm.get x.id t ≡ some x
          → x.subscriber_organization_id ≡ n.subscriber_organization_id
          → x.api_id ≡ n.api_id
          → x.id ≡ n.id)
      → HasUniqueSubs t
      → HasUniqueSubs (orm.save n t)
  save-HasUniqueSubs n t only unique a b ga gb org api =
      ground (arith, orm.get-save a.id n t, orm.get-save b.id n t, only a, only b, unique a b)

  -- The row of a lookup that found nothing may be saved.
  pub save_new-HasUniqueSubs :
      (n : MarketplaceSubscription) (t : orm.Table MarketplaceSubscription)
      → orm.find_one (is_sub n.subscriber_organization_id (some n.api_id)) t ≡ none
      → HasUniqueSubs t
      → HasUniqueSubs (orm.save n t)
  save_new-HasUniqueSubs n t newcomer unique =
      save-HasUniqueSubs n t
        (λ x stored org api. ground (
          arith,
          orm.find_one_none (is_sub n.subscriber_organization_id (some n.api_id)) t x.id x newcomer
              stored,
        ))
        unique

  -- A stored row may be saved again with another status and another Stripe subscription.
  pub resave-HasUniqueSubs :
      (n old : MarketplaceSubscription) (t : orm.Table MarketplaceSubscription)
      → orm.get n.id t ≡ some old
      → old.subscriber_organization_id ≡ n.subscriber_organization_id
      → old.api_id ≡ n.api_id
      → HasUniqueSubs t
      → HasUniqueSubs (orm.save n t)
  resave-HasUniqueSubs n old t stored org api unique =
      let key = orm.get_key n.id t old stored in
      save-HasUniqueSubs n t (λ x there same_org same_api. ground (arith, unique x old there))
        unique

  pub remove-HasUniqueSubs :
      (n : MarketplaceSubscription) (t : orm.Table MarketplaceSubscription)
      → HasUniqueSubs t
      → HasUniqueSubs (orm.remove n t)
  remove-HasUniqueSubs n t unique a b ga gb org api =
      ground (arith, orm.get-remove a.id n t, orm.get-remove b.id n t, unique a b)

  -- In a table with the constraint, the stored row is the one that is found.
  pub find_unique :
      (n : MarketplaceSubscription) (org api : ℕ)
      → n.subscriber_organization_id ≡ org
      → n.api_id ≡ api
      → (t : orm.Table MarketplaceSubscription) → HasUniqueSubs t
      → orm.get n.id t ≡ some n
      → orm.find_one (is_sub org (some api)) t ≡ some n
  find_unique n org api same_org same_api t unique stored =
      find_one-eq-some orm (is_sub org (some api)) t n.id n stored (ground arith)
        (λ x same there. ground (arith, unique x n there stored))

module _ {orm : Orm} {redis : Redis} {sdk : StripeSdk} where
  module _ (now org api : ℕ) (stripe : Option ℕ) where
    -- The row that an activation leaves.
    abbrev pub activated : MarketState orm redis sdk → MarketplaceSubscription
    activated s =
        record (or_default (orm.find_one (is_sub org (some api)) s.subs)
          (new_sub now (orm.fresh s.subs) org api)) {
            status = active;
            stripe_subscription_id = stripe;
          }

    pub activate_lem :
        (s : MarketState orm redis sdk)
        → activate_subscription now org (some api) stripe s
          ≡ (ok (activated s), record s { subs = orm.save (activated s) s.subs })
    unfolding activate_subscription
    activate_lem s = elim (Option-cases (orm.find_one (is_sub org (some api)) s.subs)) [
      | inl newcomer ↦ rw newcomer refl
      | inr (old, found) ↦ rw found refl
    ]

    activated_of :
        (s : MarketState orm redis sdk)
        → ((activated s).subscriber_organization_id ≡ org) × ((activated s).api_id ≡ api)
    activated_of s = elim (Option-cases (orm.find_one (is_sub org (some api)) s.subs)) [
      | inl newcomer ↦ rw newcomer (refl, refl)
      | inr (old, found) ↦
          let (same, stored) = orm.find_one_sound (is_sub org (some api)) s.subs old found in
          rw found (ground arith, ground arith)
    ]

    pub activated-HasUniqueSubs :
        (s : MarketState orm redis sdk)
        → HasUniqueSubs orm s.subs
        → HasUniqueSubs orm (orm.save (activated s) s.subs)
    activated-HasUniqueSubs s unique =
        elim (Option-cases (orm.find_one (is_sub org (some api)) s.subs)) [
          | inl newcomer ↦ rw newcomer (
              save_new-HasUniqueSubs orm
                (record (new_sub now (orm.fresh s.subs) org api) {
                  stripe_subscription_id = stripe;
                })
                s.subs newcomer unique)
          | inr (old, found) ↦
              let (same, stored) = orm.find_one_sound (is_sub org (some api)) s.subs old found in
              rw found (
                resave-HasUniqueSubs orm
                  (record old { status = active; stripe_subscription_id = stripe }) old s.subs
                  stored refl refl unique)
        ]

    pub find-activated :
        (s : MarketState orm redis sdk)
        → HasUniqueSubs orm s.subs
        → orm.find_one (is_sub org (some api)) (orm.save (activated s) s.subs) ≡ some (activated s)
    find-activated s unique =
        let n : MarketplaceSubscription = activated s in
        let (same_org, same_api) = activated_of s in
        find_unique orm n org api same_org same_api (orm.save n s.subs)
          (activated-HasUniqueSubs s unique) (get-save_self orm n s.subs)
