-- ===== src/Marketplace/Confirm.antt =====
-- What `confirmSubscription` gives, and for which sessions.
use mathlib.Core.Path.{subst}
use developer_platform_backe.Marketplace.Checkout.{IsUntouched}
use developer_platform_backe.Marketplace.Access.{IsGranted, after_activation, activated-IsGranted}
use developer_platform_backe.Billing.Events.{is_marketplace}
use developer_platform_backe.Billing.Stripe.{retrieve_checkout_session}
use developer_platform_backe.Marketplace.Rows.{HasUniqueSubs, activate_lem, activated}
use developer_platform_backe.Marketplace.Subscriptions.{
  confirm_subscription, activate_subscription, is_sub,
}
use developer_platform_backe.Marketplace.{
  MarketState, MarketplaceSubscription, marketplace_subscription_entity,
}
use developer_platform_backe.Billing.Interface.{StripeSdk, Calendar, Session, marketplace}
use developer_platform_backe.Redis.{Redis}
use developer_platform_backe.Billing.Payments.{id_of}
use developer_platform_backe.Prelude.{
  ℕ, String, ◌≡◌, refl, ap, ◌⊎◌, inl, inr, Bool, true, false, not, ◌&&◌, ◌||◌, none, some, arith,
  Bool-cases, Option-cases, same_id,
}
use developer_platform_backe.Prelude.Action.{Result, ok, err, HttpError, bad_request, Run-cases}
use developer_platform_backe.Orm.{Orm}

module _ {orm : Orm} {redis : Redis} {sdk : StripeSdk} where
  -- What a confirmation found at Stripe and did.
  abbrev pub ConfirmOutcome :
      (enabled : Bool)
      → (org : ℕ) → (session_id : String) → MarketState orm redis sdk
      → Result MarketplaceSubscription × MarketState orm redis sdk
      → Type 0
  ConfirmOutcome enabled org session_id s (ok sub, s') =
      (session : Session) × ((retrieve_checkout_session sdk enabled session_id s.billing.stripe).0
        ≡ ok session)
      × (session.metadata.kind ≡ some marketplace)
      × (session.metadata.subscriber_org_id ≡ some org)
      × ((session.paid ≡ true) ⊎ (session.complete ≡ true))
      × ((api : ℕ)
          → session.metadata.api_id ≡ some api
          → IsGranted org api (id_of session.subscription) sub s.subs s.apis s')
  ConfirmOutcome enabled org session_id s (err e, s') = IsUntouched s s'

  module _ (calendar : Calendar) (enabled : Bool) (url : String) (now org : ℕ) (session_id : String)
      (s : MarketState orm redis sdk) where
    abbrev pub with_server : sdk.Server → MarketState orm redis sdk
    with_server t = record s { billing = record (s.billing) { stripe = t } }

    pub confirm-unknown :
        (e : HttpError) (t : sdk.Server)
        → retrieve_checkout_session sdk enabled session_id s.billing.stripe ≡ (err e, t)
        → confirm_subscription calendar enabled url now org session_id s ≡ (err e, with_server t)
    unfolding confirm_subscription
    confirm-unknown e t failed = ground (arith, failed)

    module _ (session : Session) (t : sdk.Server)
        (known : retrieve_checkout_session sdk enabled session_id s.billing.stripe
          ≡ (ok session, t)) where
      pub confirm-foreign :
          (not (is_marketplace session.metadata.kind)
              || not (same_id session.metadata.subscriber_org_id org))
            ≡ true
          → confirm_subscription calendar enabled url now org session_id s ≡ (
            err (bad_request "Checkout session does not belong to this organization."),
            with_server t,
          )
      unfolding confirm_subscription
      confirm-foreign foreign = ground (arith, known)

      module _
          (own : (not (is_marketplace session.metadata.kind)
              || not (same_id session.metadata.subscriber_org_id org))
            ≡ false) where
        pub confirm-unpaid :
            (not session.paid && not session.complete) ≡ true
            → confirm_subscription calendar enabled url now org session_id s
              ≡ (err (bad_request "Payment not completed."), with_server t)
        unfolding confirm_subscription
        confirm-unpaid unpaid = ground (arith, known)

        pub confirm-paid :
            (not session.paid && not session.complete) ≡ false
            → confirm_subscription calendar enabled url now org session_id s
              ≡ activate_subscription now org session.metadata.api_id
                  (id_of session.subscription)
                  (with_server t)
        unfolding confirm_subscription
        confirm-paid paid = ground (arith, known)

    confirmed :
        (session : Session) (t : sdk.Server)
        → retrieve_checkout_session sdk enabled session_id s.billing.stripe ≡ (ok session, t)
        → session.metadata.kind ≡ some marketplace
        → session.metadata.subscriber_org_id ≡ some org
        → (session.paid ≡ true) ⊎ (session.complete ≡ true)
        → HasUniqueSubs orm s.subs
        → ConfirmOutcome enabled org session_id s (
            activate_subscription now org session.metadata.api_id
              (id_of session.subscription)
              (with_server t))
    unfolding activate_subscription
    confirmed session t known kind own paid unique = elim (Option-cases session.metadata.api_id) [
      | inr (api, named) ↦ rw named (
          rw (activate_lem now org api (id_of session.subscription) (with_server t)) (
            session,
            ap (λ r. r.0) known,
            kind,
            own,
            paid,
            λ k same.
                subst
                  (λ j.
                    IsGranted org j (id_of session.subscription)
                      (activated now org api (id_of session.subscription) (with_server t)) s.subs
                      s.apis
                      (after_activation now org api (id_of session.subscription) (with_server t)
                        unique))
                  (ground arith)
                  (activated-IsGranted now org api (id_of session.subscription) (with_server t)
                    unique),
          ))
      | inl unnamed ↦ elim (Option-cases (orm.find_one (is_sub org none) s.subs)) [
        | inl missing ↦ rw (unnamed, missing) (refl, refl)
        | inr (old, found) ↦
            rw (unnamed, found)
              (session, ap (λ r. r.0) known, kind, own, paid, λ k same. ground arith)
      ]
    ]

    -- A confirmation that succeeds was of a session of the marketplace, made for this organization and
    -- paid or complete; then the organization has the API of the session by an active row with the
    -- Stripe subscription of the session, and a second activation, by the webhook of the same session,
    -- changes no row. A confirmation that fails leaves the marketplace's tables as they were.
    pub confirm_subscription-ConfirmOutcome :
        HasUniqueSubs orm s.subs
        → ConfirmOutcome enabled org session_id s
            (confirm_subscription calendar enabled url now org session_id s)
    confirm_subscription-ConfirmOutcome unique =
        elim (Run-cases (retrieve_checkout_session sdk enabled session_id s.billing.stripe)) [
          | inr (e, t, failed) ↦ rw (confirm-unknown e t failed) (refl, refl)
          | inl (session, t, known) ↦
              elim (Bool-cases (
                not (is_marketplace session.metadata.kind)
                || not (same_id session.metadata.subscriber_org_id org))) [
                  | inl foreign ↦ rw (confirm-foreign session t known foreign) (refl, refl)
                  | inr own ↦ elim (Bool-cases (not session.paid && not session.complete)) [
                    | inl unpaid ↦ rw (confirm-unpaid session t known own unpaid) (refl, refl)
                    | inr paid ↦ rw (confirm-paid session t known own paid) (
                        confirmed session t known (ground arith) (ground arith)
                          (elim (Bool-cases session.paid) [
                            | inl yes_paid ↦ inl yes_paid
                            | inr unpaid ↦ inr (ground arith)
                          ])
                          unique)
                  ]
                ]
        ]
