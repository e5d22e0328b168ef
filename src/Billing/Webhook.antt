-- ===== src/Billing/Webhook.antt =====
-- The Stripe webhook, `handleStripeEvent`, and the confirmation that does without it.
use mathlib.Core.Option.{none}
use developer_platform_backe.Billing.Activation.{IsActivated, activate-IsActivated}
use developer_platform_backe.Billing.Plans.{HasUniqueSubs}
use developer_platform_backe.Billing.Stripe.{retrieve_checkout_session}
use developer_platform_backe.Billing.Events.{
  handle_event, on_checkout_completed, checkout_completed,
}
use developer_platform_backe.Billing.Payments.{confirm_checkout, id_of, activate_from_stripe}
use developer_platform_backe.Billing.Interface.{
  StripeSdk, Calendar, Session, platform, Reference, absent, plain, expanded,
}
use developer_platform_backe.Prelude.{
  ℕ, String, ◌≡◌, refl, ap, ◌⊎◌, inl, inr, Bool, true, ◌||◌, some, arith, Bool-cases, Option-cases,
  Option, ◌∙◌, sym,
}
use developer_platform_backe.Prelude.Action.{Result, ok, err, HttpError}
use developer_platform_backe.Orm.{Orm}
use developer_platform_backe.Redis.{Redis}
use developer_platform_backe.Enums.{Plan}
use developer_platform_backe.Organizations.{organization_entity}
use developer_platform_backe.Billing.{subscription_entity, Subscription, BillingState}

-- An answer of the SDK is a value or an error.
pub answer-cases :
    {A S : Type 0} (p : Result A × S)
    → ((a : A) × (p ≡ (ok a, p.1))) ⊎ ((e : HttpError) × (p ≡ (err e, p.1)))
answer-cases (ok a, t) = inl (a, refl)
answer-cases (err x, t) = inr (x, refl)

-- The id that a reference of Stripe's holds, whether it is expanded or not.
abbrev pub RefersTo : Reference → Option ℕ → Type 0
RefersTo ref none = ref ≡ absent
RefersTo ref (some id) = (ref ≡ plain id) ⊎ (ref ≡ expanded id)

id_of-RefersTo : (ref : Reference) → RefersTo ref (id_of ref)
unfolding id_of
id_of-RefersTo absent = refl
id_of-RefersTo (plain id) = inl refl
id_of-RefersTo (expanded id) = inr refl

RefersTo-id_of : (ref : Reference) (id : Option ℕ) → RefersTo ref id → id_of ref ≡ id
unfolding id_of
RefersTo-id_of ref none h = rw h refl
RefersTo-id_of ref (some id) (inl h) = rw h refl
RefersTo-id_of ref (some id) (inr h) = rw h refl

module _ {orm : Orm} {redis : Redis} {sdk : StripeSdk} where
  pub record IsConfirmed (calendar : Calendar) (now org : ℕ) (id : String) (sub : Subscription)
      (s s' : BillingState orm redis sdk) : Type 0 where
    pub session : Session
    pub retrieved : (sdk.retrieve_session id s.stripe).0 ≡ ok session
    pub own : session.metadata.org_id ≡ some org
    pub settled : (session.paid || session.complete) ≡ true
    pub plan : Plan
    pub chosen : session.metadata.plan ≡ some plan
    pub customer : Option ℕ
    pub payer : RefersTo session.customer customer
    pub subscription : Option ℕ
    pub payment : RefersTo session.subscription subscription
    pub activated : IsActivated calendar now org plan customer subscription sub s.org_state s'

  module _ (calendar : Calendar) (enabled : Bool) (url : String) (now : ℕ) where
    -- With at most one subscription per organization stored, a confirmation that succeeds was of a
    -- session of this organization that Stripe reports as paid or complete; the organization is then on
    -- the plan of the session with the limit of that plan, but for an enterprise plan with the limit it
    -- had, and its one subscription has the terms of the plan and the ids of the payment, which the
    -- session holds plainly or in expanded objects.
    pub confirm_checkout-IsConfirmed :
        (org : ℕ) (id : String) (s : BillingState orm redis sdk) (sub : Subscription)
        → HasUniqueSubs s
        → (confirm_checkout calendar enabled url now org id s).0 ≡ ok sub
        → IsConfirmed calendar now org id sub s
            (confirm_checkout calendar enabled url now org id s).1
    unfolding confirm_checkout retrieve_checkout_session id_of
    confirm_checkout-IsConfirmed org id s sub unique done = elim (Bool-cases enabled) [
      | inr off ↦ ground arith
      | inl on ↦ elim (answer-cases (sdk.retrieve_session id s.stripe)) [
        | inr (e, failed) ↦ ground (arith, failed)
        | inl (session, got) ↦ elim (Option-cases session.metadata.plan) [
          | inl unnamed ↦ ground (arith, got)
          | inr (plan, named) ↦
              let own : session.metadata.org_id ≡ some org = ground (arith, got) in
              let settled : (session.paid || session.complete) ≡ true = ground (arith, got) in
              let t : BillingState orm redis sdk = record s {
                stripe = (sdk.retrieve_session id s.stripe).1;
              } in
              let same : confirm_checkout calendar enabled url now org id s
                  ≡ activate_from_stripe calendar enabled url now org plan (id_of session.customer)
                      (id_of session.subscription) t =
                ground (arith, got) in
              record {
                session = session;
                retrieved = ap (λ p. p.0) got;
                own = own;
                settled = settled;
                plan = plan;
                chosen = named;
                customer = id_of session.customer;
                payer = id_of-RefersTo session.customer;
                subscription = id_of session.subscription;
                payment = id_of-RefersTo session.subscription;
                activated = rw same (
                    activate-IsActivated calendar enabled url now org plan (id_of session.customer)
                      (id_of session.subscription) t sub unique (ground (arith, same)));
              }
        ]
      ]
    ]

    module _ (org : ℕ) (plan : Plan) (session : Session) (customer subscription : Option ℕ)
        (s : BillingState orm redis sdk) (own : session.metadata.org_id ≡ some org)
        (chosen : session.metadata.plan ≡ some plan) (payer : RefersTo session.customer customer)
        (payment : RefersTo session.subscription subscription) where
      event-activates :
          session.metadata.kind ≡ some platform
          → (handle_event calendar enabled url now (checkout_completed session) s).1
            ≡ (activate_from_stripe calendar enabled url now org plan customer subscription s).1
      unfolding handle_event on_checkout_completed
      event-activates kind =
          let c = RefersTo-id_of session.customer customer payer in
          let i = RefersTo-id_of session.subscription subscription payment in
          ground (arith, own, chosen, c, i)

      confirmation-activates :
          (id : String)
          → enabled ≡ true
          → sdk.retrieve_session id s.stripe ≡ (ok session, s.stripe)
          → session.paid ≡ true
          → (confirm_checkout calendar enabled url now org id s).1
            ≡ (activate_from_stripe calendar enabled url now org plan customer subscription s).1
      unfolding confirm_checkout retrieve_checkout_session
      confirmation-activates id on got paid =
          let c = RefersTo-id_of session.customer customer payer in
          let i = RefersTo-id_of session.subscription subscription payment in
          ground (arith, own, chosen, c, i, got)

    -- While Stripe is configured: a paid session for a platform plan comes in twice, as `seen` with the
    -- event of the completed checkout, and as `read` when a confirmation retrieves it, where Stripe may
    -- have expanded references. If retrieving it changes nothing at Stripe, and both have the same
    -- metadata, which names the organization and a plan, and refer to the same customer and the same
    -- subscription or to none, then from the same state the event leaves what the confirmation leaves.
    pub checkout_completed-eq-confirm :
        (org : ℕ) (plan : Plan) (id : String) (seen read : Session)
        (customer subscription : Option ℕ) (s : BillingState orm redis sdk)
        → enabled ≡ true
        → sdk.retrieve_session id s.stripe ≡ (ok read, s.stripe)
        → read.paid ≡ true
        → seen.metadata ≡ read.metadata
        → read.metadata.kind ≡ some platform
        → read.metadata.org_id ≡ some org
        → read.metadata.plan ≡ some plan
        → RefersTo seen.customer customer
        → RefersTo read.customer customer
        → RefersTo seen.subscription subscription
        → RefersTo read.subscription subscription
        → (handle_event calendar enabled url now (checkout_completed seen) s).1
          ≡ (confirm_checkout calendar enabled url now org id s).1
    checkout_completed-eq-confirm org plan id seen read customer subscription s on got paid same
          kind own chosen c1 c2 s1 s2 =
        event-activates org plan seen customer subscription s (ap (λ m. m.org_id) same ∙ own)
          (ap (λ m. m.plan) same ∙ chosen) c1 s1 (ap (λ m. m.kind) same ∙ kind)
        ∙ sym (
            confirmation-activates org plan read customer subscription s own chosen c2 s2 id on got
              paid)
