-- ===== src/Marketplace/Checkout.antt =====
-- The paid branch of `subscribe`.
use developer_platform_backe.Billing.Stripe.{create_subscription_checkout, session_request}
use developer_platform_backe.Billing.{BillingState}
use developer_platform_backe.Marketplace.Subscriptions.{
  begin_checkout, SubscribeAnswer, checkout, subscribed, no_payouts, api_checkout,
}
use developer_platform_backe.Billing.Payments.{
  BillingActor, ConnectStatus, get_connect_status, ensure_stripe_customer,
}
use developer_platform_backe.Marketplace.{MarketState, MarketplaceApi}
use developer_platform_backe.Billing.Interface.{
  StripeSdk, Calendar, Session, SessionRequest, Metadata, marketplace,
}
use developer_platform_backe.Redis.{Redis}
use developer_platform_backe.Prelude.{
  ℕ, String, ◌≡◌, refl, ap, inl, inr, Bool, true, false, Option, none, some, arith, Bool-cases,
  Option-cases,
}
use developer_platform_backe.Prelude.Action.{Result, ok, err, HttpError, Run-cases}
use developer_platform_backe.Orm.{Orm}

-- The metadata of a marketplace payment by the organization for the API.
abbrev pub IsFor : (org api : ℕ) → Metadata → Type 0
IsFor org api m =
    (m.kind ≡ some marketplace) × (m.subscriber_org_id ≡ some org) × (m.api_id ≡ some api)

module _ {orm : Orm} {redis : Redis} {sdk : StripeSdk} where
  -- The tables of the marketplace are as they were.
  abbrev pub IsUntouched : (s s' : MarketState orm redis sdk) → Type 0
  IsUntouched s s' = (s'.subs ≡ s.subs) × (s'.apis ≡ s.apis)

  module _ (calendar : Calendar) (enabled : Bool) (url : String) (now org : ℕ)
      (actor : BillingActor) where
    -- A session of Stripe that charges the customer of the organization the price of `api` in each
    -- month, hands it on to the account of the API's publisher, whose payouts are ready, less a fee of
    -- ten percent, and says for which organization and API it is.
    pub record IsCheckout (api : MarketplaceApi) (s : MarketState orm redis sdk)
        (answer : Option String) : Type 0 where
      pub account : ℕ
      pub payout : ConnectStatus
      pub status :
          (get_connect_status calendar enabled url now api.owner_organization_id s.billing).0
          ≡ ok payout
      pub ready : payout.payouts_ready ≡ true
      pub receives : payout.account_id ≡ some account
      pub customer : ℕ
      pub billing : BillingState orm redis sdk
      pub pays : (ensure_stripe_customer calendar enabled url now org actor billing).0 ≡ ok customer
      pub request : SessionRequest
      pub charges : request.amount_cents ≡ api.price_per_month
      pub charged : request.customer ≡ customer
      pub transfers : request.transfer ≡ some (account, some 10)
      pub names : IsFor org api.id request.metadata × IsFor org api.id request.subscription_metadata
      pub server : sdk.Server
      pub session : Session
      pub created : (sdk.create_session request server).0 ≡ ok session
      pub shown : answer ≡ session.url

    abbrev pub BeginOutcome :
        MarketplaceApi
        → MarketState orm redis sdk
        → Result SubscribeAnswer × MarketState orm redis sdk
        → Type 0
    BeginOutcome api s (ok (checkout answer), s') = IsCheckout api s answer × IsUntouched s s'
    BeginOutcome api s (ok (subscribed id shown), s') = ⊥
    BeginOutcome api s (err e, s') = IsUntouched s s'

    module _ (api : MarketplaceApi) (s : MarketState orm redis sdk) (on : enabled ≡ true)
        (payout : ConnectStatus) (b : BillingState orm redis sdk)
        (status : get_connect_status calendar enabled url now api.owner_organization_id s.billing
          ≡ (ok payout, b)) where
      begin_checkout-unready :
          payout.payouts_ready ≡ false
          → begin_checkout calendar enabled url now org actor api s
            ≡ (err no_payouts, record s { billing = b })
      unfolding begin_checkout
      begin_checkout-unready unready = ground (arith, status)

      begin_checkout-no_account :
          payout.payouts_ready ≡ true
          → payout.account_id ≡ none
          → begin_checkout calendar enabled url now org actor api s
            ≡ (err no_payouts, record s { billing = b })
      unfolding begin_checkout
      begin_checkout-no_account ready no_account = ground (arith, status)

      module _ (account : ℕ) (ready : payout.payouts_ready ≡ true)
          (receives : payout.account_id ≡ some account) where
        begin_checkout-customer_err :
            (e : HttpError) (c : BillingState orm redis sdk)
            → ensure_stripe_customer calendar enabled url now org actor b ≡ (err e, c)
            → begin_checkout calendar enabled url now org actor api s
              ≡ (err e, record s { billing = c })
        unfolding begin_checkout
        begin_checkout-customer_err e c failed = ground (arith, status)

        begin_checkout-session :
            (customer : ℕ) (c : BillingState orm redis sdk) (r : Result Session) (t : sdk.Server)
            → ensure_stripe_customer calendar enabled url now org actor b ≡ (ok customer, c)
            → sdk.create_session
                (session_request (api_checkout url customer org api account))
                c.stripe
              ≡ (r, t)
            → begin_checkout calendar enabled url now org actor api s ≡ (
              elim r [ ok session ↦ ok (checkout session.url) | err e ↦ err e ],
              record s { billing = record c { stripe = t } },
            )
        unfolding begin_checkout create_subscription_checkout
        begin_checkout-session customer c r t paying created =
            ground (arith, status, paying, created)

    begin_checkout-status_err :
        (api : MarketplaceApi) (s : MarketState orm redis sdk) (e : HttpError)
        (b : BillingState orm redis sdk)
        → get_connect_status calendar enabled url now api.owner_organization_id s.billing
          ≡ (err e, b)
        → begin_checkout calendar enabled url now org actor api s
          ≡ (err e, record s { billing = b })
    unfolding begin_checkout
    begin_checkout-status_err api s e b failed = ground (arith, failed)

    pub begin_checkout-BeginOutcome :
        (api : MarketplaceApi) (s : MarketState orm redis sdk)
        → enabled ≡ true
        → BeginOutcome api s (begin_checkout calendar enabled url now org actor api s)
    unfolding session_request
    begin_checkout-BeginOutcome api s on =
        elim (Run-cases
          (get_connect_status calendar enabled url now api.owner_organization_id s.billing)) [
            | inr (e, b, failed) ↦ rw (begin_checkout-status_err api s e b failed) (refl, refl)
            | inl (payout, b, status) ↦ elim (Bool-cases payout.payouts_ready) [
              | inr unready ↦
                  rw (begin_checkout-unready api s on payout b status unready) (refl, refl)
              | inl ready ↦ elim (Option-cases payout.account_id) [
                | inl no_account ↦
                    rw (begin_checkout-no_account api s on payout b status ready no_account)
                      (refl, refl)
                | inr (account, receives) ↦
                    elim (Run-cases (ensure_stripe_customer calendar enabled url now org actor b)) [
                      | inr (e, c, failed) ↦
                          rw
                            (begin_checkout-customer_err api s on payout b status account ready
                              receives e c failed)
                            (refl, refl)
                      | inl (customer, c, paying) ↦
                          let run =
                            begin_checkout-session api s on payout b status account ready receives
                              customer c in
                          let request =
                            session_request (api_checkout url customer org api account) in
                          elim (Run-cases (sdk.create_session request c.stripe)) [
                            | inr (e, t, failed) ↦ rw (run (err e) t paying failed) (refl, refl)
                            | inl (session, t, created) ↦ rw (run (ok session) t paying created) (
                              record {
                                account = account;
                                payout = payout;
                                status = ap (λ r. r.0) status;
                                ready = ready;
                                receives = receives;
                                customer = customer;
                                billing = b;
                                pays = ap (λ r. r.0) paying;
                                request = request;
                                charges = refl;
                                charged = refl;
                                transfers = refl;
                                names = ((refl, refl, refl), (refl, refl, refl));
                                server = c.stripe;
                                session = session;
                                created = ap (λ r. r.0) created;
                                shown = refl;
                              },
                              (refl, refl),
                            )
                          ]
                    ]
              ]
            ]
          ]
