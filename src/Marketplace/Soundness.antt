-- ===== src/Marketplace/Soundness.antt =====
-- The unique constraints of the marketplace's tables hold in every run.
use developer_platform_backe.Marketplace.Settlement.{confirm-IsSound, handle-IsSound}
use developer_platform_backe.Marketplace.Leaving.{owns, unsubscribe-unknown, unsubscribe-known}
use developer_platform_backe.Enums.{publisher}
use developer_platform_backe.Marketplace.Subscribing.{
  assert_type-HasType, SubscribeOutcome, subscribe-SubscribeOutcome,
}
use developer_platform_backe.Organizations.{assert_type}
use developer_platform_backe.Slug.Table.{search_slug, save-HasDistinctSlugs}
use developer_platform_backe.Marketplace.Rows.{save-HasUniqueSubs, remove-HasUniqueSubs}
use developer_platform_backe.Marketplace.Steps.{
  Operation, after, Reachable, to_publish, step, to_subscribe, start, to_confirm, to_handle,
  to_unsubscribe, IsSound,
}
use developer_platform_backe.Marketplace.Subscriptions.{
  unsubscribe, subscribe, SubscribeAnswer, subscribed, checkout,
}
use developer_platform_backe.Slug.{Texts, free_slug, base_of}
use developer_platform_backe.Marketplace.{
  MarketState, publish, unique_slug, PublishApiDto, marketplace_api_entity, slug_exists,
  marketplace_subscription_entity, new_api, view,
}
use developer_platform_backe.Billing.Interface.{StripeSdk, Calendar, Rounding}
use developer_platform_backe.Redis.{Redis}
use developer_platform_backe.Billing.Payments.{BillingActor}
use developer_platform_backe.Prelude.{
  ℕ, ◌+◌, String, ◌≡◌, refl, inl, inr, Bool, true, some, arith, Option-cases, length, ◌∙◌,
}
use developer_platform_backe.Prelude.Action.{Result, ok, err, HttpError}
use developer_platform_backe.Orm.{Orm}

module _ {orm : Orm} {redis : Redis} {sdk : StripeSdk} where
  publish_lem :
      (texts : Texts) (rounding : Rounding) (now org : ℕ) (dto : PublishApiDto)
      (s : MarketState orm redis sdk) (slug : String)
      → assert_type org publisher s.billing.org_state ≡ (ok tt, s.billing.org_state)
      → free_slug texts
          (slug_exists s)
          (base_of texts "api" dto.name)
          (length (orm.find (λ a. true) s.apis) + 1)
          (base_of texts "api" dto.name)
          2
        ≡ some slug
      → publish texts rounding now org dto s ≡ (
        ok (view (new_api rounding.to_fixed now (orm.fresh s.apis) org slug dto)),
        record s {
          apis = orm.save (new_api rounding.to_fixed now (orm.fresh s.apis) org slug dto) s.apis;
        },
      )
  unfolding publish unique_slug
  publish_lem texts rounding now org dto s slug right found = ground (arith, right, found)

  publish-refused :
      (texts : Texts) (rounding : Rounding) (now org : ℕ) (dto : PublishApiDto)
      (s : MarketState orm redis sdk) (e : HttpError)
      → assert_type org publisher s.billing.org_state ≡ (err e, s.billing.org_state)
      → publish texts rounding now org dto s ≡ (err e, s)
  unfolding publish
  publish-refused texts rounding now org dto s e wrong = ground (arith, wrong)

  publish-IsSound :
      (texts : Texts) (rounding : Rounding) (now org : ℕ) (dto : PublishApiDto)
      (s : MarketState orm redis sdk)
      → IsSound s
      → IsSound (publish texts rounding now org dto s).1
  publish-IsSound texts rounding now org dto s (subs, slugs) =
      elim (assert_type-HasType org publisher s) [
        | inr (e, wrong) ↦ rw (publish-refused texts rounding now org dto s e wrong) (subs, slugs)
        | inl (right, typed) ↦
            let (slug, found, unused, shape) =
              search_slug orm (λ a. a.slug) texts "api" dto.name s.apis refl in
            rw (publish_lem texts rounding now org dto s slug right found) (
              subs,
              save-HasDistinctSlugs orm (λ a. a.slug)
                  (new_api rounding.to_fixed now (orm.fresh s.apis) org slug dto) s.apis unused
                  slugs,
            )
      ]

  subscribe-IsSound :
      (calendar : Calendar) (enabled : Bool) (url : String) (now org : ℕ) (actor : BillingActor)
      (api : ℕ) (s : MarketState orm redis sdk)
      → IsSound s
      → IsSound (subscribe calendar enabled url now org actor api s).1
  subscribe-IsSound calendar enabled url now org actor api s (subs, slugs) =
      go (subscribe calendar enabled url now org actor api s)
        (subscribe-SubscribeOutcome calendar enabled url now org actor api s)
    where
      go :
          (r : Result SubscribeAnswer × MarketState orm redis sdk)
          → SubscribeOutcome calendar enabled url now org actor api s r
          → IsSound r.1
      go (ok (subscribed id v), s')
            (typed, offer, there, shown, newcomer, free, answer, key, row, granted, written) =
          rw written (
            save-HasUniqueSubs orm row s.subs
                (λ x stored of_org of_api.
                  absurd (newcomer x stored (of_org ∙ granted.1) (of_api ∙ granted.2)))
                subs,
            slugs,
          )
      go (ok (checkout answer), s')
            (typed, offer, there, shown, newcomer, asks, on, session, (same, apis)) =
          rw (same, apis) (subs, slugs)
      go (err e, s') (same, apis) = rw (same, apis) (subs, slugs)

  unsubscribe-IsSound :
      (enabled : Bool) (org id : ℕ) (s : MarketState orm redis sdk)
      → IsSound s
      → IsSound (unsubscribe enabled org id s).1
  unsubscribe-IsSound enabled org id s (subs, slugs) =
      elim (Option-cases (orm.find_one (owns org id) s.subs)) [
        | inl missing ↦ rw (unsubscribe-unknown enabled org id s missing) (subs, slugs)
        | inr (sub, found) ↦
            rw (unsubscribe-known enabled org id s sub found)
              (remove-HasUniqueSubs orm sub s.subs subs, slugs)
      ]

  after-IsSound :
      (op : Operation) (s : MarketState orm redis sdk) → IsSound s → IsSound (after op s)
  after-IsSound (to_publish texts rounding now org dto) s sound =
      publish-IsSound texts rounding now org dto s sound
  after-IsSound (to_subscribe calendar enabled url now org actor api) s sound =
      subscribe-IsSound calendar enabled url now org actor api s sound
  after-IsSound (to_confirm calendar enabled url now org session_id) s sound =
      confirm-IsSound calendar enabled url now org session_id s sound
  after-IsSound (to_handle now event) s sound = handle-IsSound now event s sound
  after-IsSound (to_unsubscribe enabled org id) s sound = unsubscribe-IsSound enabled org id s sound

  -- Whatever the marketplace does, in any order and with any answers of Stripe, no organization gets two
  -- rows for one API and no two APIs get the same slug, if that was so at first.
  pub Reachable-IsSound : (s t : MarketState orm redis sdk) → Reachable s t → IsSound s → IsSound t
  Reachable-IsSound s _ start sound = sound
  Reachable-IsSound s _ (step t op run) sound = after-IsSound op t (Reachable-IsSound s t run sound)
