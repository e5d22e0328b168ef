-- ===== src/Billing/Uniqueness.antt =====
-- Every Stripe event keeps one subscription per organization.
use developer_platform_backe.Billing.Cancellation.{deleted-HasUniqueSubs}
use developer_platform_backe.Billing.Webhook.{answer-cases}
use developer_platform_backe.Billing.Payments.{id_of, activate_from_stripe}
use developer_platform_backe.Billing.Activation.{resave-HasUniqueSubs, activate-HasUniqueSubs}
use developer_platform_backe.Billing.Plans.{HasUniqueSubs}
use developer_platform_backe.Billing.Events.{
  handle_event, has_subscription_id, StripeEvent, checkout_completed, if_found,
  subscription_deleted, subscription_updated, invoice_paid, invoice_payment_failed, account_updated,
  on_checkout_completed, record_paid_invoice, status_after, is_marketplace, has_account_id,
}
use developer_platform_backe.Billing.Interface.{StripeSdk, Calendar, Session, Reference}
use developer_platform_backe.Prelude.{
  ℕ, String, ◌≡◌, refl, sym, inl, inr, Bool, Option, arith, Bool-cases, Option-cases,
}
use developer_platform_backe.Prelude.Action.{Action, pure, ◌>>=◌, ◌>>◌}
use developer_platform_backe.Orm.{Orm}
use developer_platform_backe.Redis.{Redis}
use mathlib.Core.Path.{subst}
use developer_platform_backe.Billing.Interface.{absent, plain, expanded}
use developer_platform_backe.Billing.Events.{other_event}
use developer_platform_backe.Organizations.{organization_entity}
use developer_platform_backe.Billing.{
  subscription_entity, Subscription, BillingState, find_sub, save_sub, past_due,
}

-- A call whose result is dropped leaves its own state.
dropped : {A S : Type 0} (m : Action S A) (s : S) → ((m >> pure tt) s).1 ≡ (m s).1
dropped m s = elim (answer-cases (m s)) [
  | inl (a, e) ↦ ground (arith, e)
  | inr (x, e) ↦ ground (arith, e)
]

module _ {orm : Orm} {redis : Redis} {sdk : StripeSdk} where
  -- A change of a found row under its id and organization.
  changed-HasUniqueSubs :
      (p : Subscription → Bool) (f : Subscription → Subscription)
      → ((x : Subscription) → ((f x).id ≡ x.id) × ((f x).organization_id ≡ x.organization_id))
      → (s : BillingState orm redis sdk) → HasUniqueSubs s
      → HasUniqueSubs ((find_sub p >>= λ found. if_found found (λ sub. save_sub (f sub))) s).1
  changed-HasUniqueSubs p f keeps s unique = elim (Option-cases (orm.find_one p s.subs)) [
    | inl missing ↦ rw missing unique
    | inr (sub, found) ↦
        let (holds, stored) = orm.find_one_sound p s.subs sub found in
        rw found (
          resave-HasUniqueSubs (f sub) sub s unique (ground (arith, keeps sub, stored))
            (sym (keeps sub).1))
  ]

  record_paid_invoice-subs :
      (subscription : Reference) (amount : Option ℕ) (s : BillingState orm redis sdk)
      → (record_paid_invoice subscription amount s).1.subs ≡ s.subs
  unfolding record_paid_invoice
  record_paid_invoice-subs subscription amount s = ground arith

  module _ (calendar : Calendar) (enabled : Bool) (url : String) (now : ℕ) where
    completed-HasUniqueSubs :
        (session : Session) (s : BillingState orm redis sdk)
        → HasUniqueSubs s
        → HasUniqueSubs (on_checkout_completed calendar enabled url now session s).1
    unfolding on_checkout_completed
    completed-HasUniqueSubs session s unique =
        elim (Bool-cases (is_marketplace session.metadata.kind)) [
          | inl other ↦ rw other unique
          | inr ours ↦ elim (Option-cases session.metadata.org_id) [
            | inl unnamed ↦ rw (ours, unnamed) unique
            | inr (org, named) ↦ elim (Option-cases session.metadata.plan) [
              | inl unplanned ↦ rw (ours, named, unplanned) unique
              | inr (plan, planned) ↦
                  rw (ours, named, planned)
                    (subst HasUniqueSubs
                      (sym (
                        dropped
                          (activate_from_stripe calendar enabled url now org plan
                            (id_of session.customer) (id_of session.subscription))
                          s))
                      (activate-HasUniqueSubs calendar enabled url now org plan
                        (id_of session.customer) (id_of session.subscription) s unique))
            ]
          ]
        ]

    -- Whatever event arrives, no organization comes to have two subscriptions.
    pub handle_event-HasUniqueSubs :
        (event : StripeEvent) (s : BillingState orm redis sdk)
        → HasUniqueSubs s
        → HasUniqueSubs (handle_event calendar enabled url now event s).1
    unfolding handle_event id_of
    handle_event-HasUniqueSubs (checkout_completed session) s unique =
        completed-HasUniqueSubs session s unique
    handle_event-HasUniqueSubs (subscription_deleted id) s unique =
        deleted-HasUniqueSubs calendar enabled url now id s unique
    handle_event-HasUniqueSubs (subscription_updated id remote) s unique =
        changed-HasUniqueSubs (has_subscription_id id)
          (λ sub. record sub { status = status_after remote sub.status }) (λ x. (refl, refl)) s
          unique
    handle_event-HasUniqueSubs (invoice_paid subscription amount_paid) s unique =
        subst (λ t. HasUniqueSubs (record s { subs = t }))
          (sym (record_paid_invoice-subs subscription amount_paid s)) unique
    handle_event-HasUniqueSubs (invoice_payment_failed absent) s unique = unique
    handle_event-HasUniqueSubs (invoice_payment_failed (plain id)) s unique =
        changed-HasUniqueSubs (has_subscription_id id) (λ sub. record sub { status = past_due })
          (λ x. (refl, refl)) s unique
    handle_event-HasUniqueSubs (invoice_payment_failed (expanded id)) s unique =
        changed-HasUniqueSubs (has_subscription_id id) (λ sub. record sub { status = past_due })
          (λ x. (refl, refl)) s unique
    handle_event-HasUniqueSubs (account_updated id transfers_active) s unique =
        changed-HasUniqueSubs (has_account_id id)
          (λ sub. record sub { payouts_enabled = transfers_active }) (λ x. (refl, refl)) s unique
    handle_event-HasUniqueSubs other_event s unique = unique
