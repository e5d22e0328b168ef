-- ===== src/Marketplace/Settlement.antt =====
-- The unique constraints hold through payments and Stripe's events.
use developer_platform_backe.Marketplace.Confirm.{
  confirm-unknown, confirm-foreign, confirm-unpaid, confirm-paid, with_server,
}
use developer_platform_backe.Billing.Stripe.{retrieve_checkout_session}
use developer_platform_backe.Slug.Table.{HasDistinctSlugs}
use developer_platform_backe.Billing.Events.{
  StripeEvent, checkout_completed, subscription_deleted, is_marketplace,
}
use developer_platform_backe.Marketplace.Rows.{
  HasUniqueSubs, activate_lem, activated-HasUniqueSubs, resave-HasUniqueSubs,
}
use developer_platform_backe.Marketplace.Steps.{IsSound}
use developer_platform_backe.Marketplace.Subscriptions.{
  activate_subscription, handle_stripe_event, confirm_subscription, is_sub, has_stripe_id,
}
use developer_platform_backe.Marketplace.{
  MarketState, marketplace_api_entity, active, canceled, marketplace_subscription_entity,
}
use developer_platform_backe.Billing.Interface.{StripeSdk, Calendar, Session}
use developer_platform_backe.Redis.{Redis}
use developer_platform_backe.Billing.Payments.{id_of}
use developer_platform_backe.Prelude.{
  ℕ, String, ◌≡◌, refl, inl, inr, Bool, true, false, not, ◌&&◌, ◌||◌, Option, none, some, arith,
  Bool-cases, Option-cases, same_id,
}
use developer_platform_backe.Prelude.Action.{Run-cases}
use developer_platform_backe.Orm.{Orm}

module _ {orm : Orm} {redis : Redis} {sdk : StripeSdk} where
  activate_any :
      (now org : ℕ) (stripe : Option ℕ) (s : MarketState orm redis sdk)
      → HasUniqueSubs orm s.subs
      → HasDistinctSlugs orm (λ a. a.slug) s.apis
      → IsSound (activate_subscription now org none stripe s).1
  unfolding activate_subscription
  activate_any now org stripe s subs slugs =
      elim (Option-cases (orm.find_one (is_sub org none) s.subs)) [
        | inl missing ↦ rw missing (subs, slugs)
        | inr (old, found) ↦
            let (same, stored) = orm.find_one_sound (is_sub org none) s.subs old found in
            rw found (
              resave-HasUniqueSubs orm
                  (record old { status = active; stripe_subscription_id = stripe }) old s.subs
                  stored refl refl subs,
              slugs,
            )
      ]

  pub activate-IsSound :
      (now org : ℕ) (api stripe : Option ℕ) (s : MarketState orm redis sdk)
      → IsSound s
      → IsSound (activate_subscription now org api stripe s).1
  activate-IsSound now org (some api) stripe s (subs, slugs) =
      rw (activate_lem now org api stripe s)
        (activated-HasUniqueSubs now org api stripe s subs, slugs)
  activate-IsSound now org none stripe s (subs, slugs) = activate_any now org stripe s subs slugs

  pub confirm-IsSound :
      (calendar : Calendar) (enabled : Bool) (url : String) (now org : ℕ) (session_id : String)
      (s : MarketState orm redis sdk)
      → IsSound s
      → IsSound (confirm_subscription calendar enabled url now org session_id s).1
  confirm-IsSound calendar enabled url now org session_id s sound =
      elim (Run-cases (retrieve_checkout_session sdk enabled session_id s.billing.stripe)) [
        | inr (e, t, failed) ↦
            rw (confirm-unknown calendar enabled url now org session_id s e t failed) sound
        | inl (session, t, known) ↦
            elim (Bool-cases (
              not (is_marketplace session.metadata.kind)
              || not (same_id session.metadata.subscriber_org_id org))) [
                | inl foreign ↦
                    rw
                      (confirm-foreign calendar enabled url now org session_id s session t known
                        foreign)
                      sound
                | inr own ↦ elim (Bool-cases (not session.paid && not session.complete)) [
                  | inl unpaid ↦
                      rw
                        (confirm-unpaid calendar enabled url now org session_id s session t known
                          own unpaid)
                        sound
                  | inr paid ↦
                      rw
                        (confirm-paid calendar enabled url now org session_id s session t known own
                          paid)
                        (activate-IsSound now org session.metadata.api_id
                          (id_of session.subscription)
                          (with_server calendar enabled url now org session_id s t) sound)
                ]
              ]
      ]

  completed_lem :
      (now : ℕ) (session : Session) (s : MarketState orm redis sdk) (org api : ℕ)
      → is_marketplace session.metadata.kind ≡ true
      → session.metadata.subscriber_org_id ≡ some org
      → session.metadata.api_id ≡ some api
      → (handle_stripe_event now (checkout_completed session) s).1
        ≡ (activate_subscription now org (some api) (id_of session.subscription) s).1
  unfolding handle_stripe_event
  completed_lem now session s org api ours named offer =
      ground (arith, activate_lem now org api (id_of session.subscription) s, named, offer)

  completed_other :
      (now : ℕ) (session : Session) (s : MarketState orm redis sdk)
      → is_marketplace session.metadata.kind ≡ false
      → (handle_stripe_event now (checkout_completed session) s).1 ≡ s
  unfolding handle_stripe_event
  completed_other now session s other = rw other refl

  completed_unnamed :
      (now : ℕ) (session : Session) (s : MarketState orm redis sdk)
      → session.metadata.subscriber_org_id ≡ none
      → (handle_stripe_event now (checkout_completed session) s).1 ≡ s
  unfolding handle_stripe_event
  completed_unnamed now session s unnamed = ground (arith, unnamed)

  completed_no_api :
      (now : ℕ) (session : Session) (s : MarketState orm redis sdk)
      → session.metadata.api_id ≡ none
      → (handle_stripe_event now (checkout_completed session) s).1 ≡ s
  unfolding handle_stripe_event
  completed_no_api now session s unnamed = ground (arith, unnamed)

  completed-IsSound :
      (now : ℕ) (session : Session) (s : MarketState orm redis sdk)
      → IsSound s
      → IsSound (handle_stripe_event now (checkout_completed session) s).1
  completed-IsSound now session s sound = elim (Bool-cases (is_marketplace session.metadata.kind)) [
    | inr other ↦ rw (completed_other now session s other) sound
    | inl ours ↦ elim (Option-cases session.metadata.subscriber_org_id) [
      | inl unnamed ↦ rw (completed_unnamed now session s unnamed) sound
      | inr (org, named) ↦ elim (Option-cases session.metadata.api_id) [
        | inl unnamed ↦ rw (completed_no_api now session s unnamed) sound
        | inr (api, offer) ↦
            rw (completed_lem now session s org api ours named offer)
              (activate-IsSound now org (some api) (id_of session.subscription) s sound)
      ]
    ]
  ]

  pub handle-IsSound :
      (now : ℕ) (event : StripeEvent) (s : MarketState orm redis sdk)
      → IsSound s
      → IsSound (handle_stripe_event now event s).1
  unfolding handle_stripe_event
  handle-IsSound now (checkout_completed session) s sound = completed-IsSound now session s sound
  handle-IsSound now (subscription_deleted id) s (subs, slugs) =
      elim (Option-cases (orm.find_one (has_stripe_id id) s.subs)) [
        | inl missing ↦ rw missing (subs, slugs)
        | inr (sub, found) ↦
            let (same, stored) = orm.find_one_sound (has_stripe_id id) s.subs sub found in
            rw found (
              resave-HasUniqueSubs orm (record sub { status = canceled }) sub s.subs stored refl
                  refl subs,
              slugs,
            )
      ]
  handle-IsSound now _ s sound = sound
