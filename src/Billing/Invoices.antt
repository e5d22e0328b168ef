-- ===== src/Billing/Invoices.antt =====
-- Usage and invoices.
use developer_platform_backe.Prelude.{
  ℕ, ◌≡◌, refl, inl, inr, none, some, arith, Option-cases, length,
}
use developer_platform_backe.Prelude.Action.{Result, ok, err, HttpError}
use developer_platform_backe.Orm.{Orm}
use developer_platform_backe.Orm.Laws.{get-save_self}
use developer_platform_backe.Organizations.{organization_entity}
use developer_platform_backe.Billing.Plans.{apply_plan-known, apply_plan-unknown}
use developer_platform_backe.Redis.{Redis}
use developer_platform_backe.Enums.{free}
use developer_platform_backe.Billing.Interface.{StripeSdk, Calendar, Rounding}
use developer_platform_backe.Billing.{
  Subscription, subscription_entity, BillingState, BillingRecord, billing_record_entity,
  api_log_entity, Bill, open_invoice, compute_bill, in_period, of_org, apply_plan,
  ensure_subscription, get_usage, close_invoice,
}
use developer_platform_backe.Billing.Plans.{HasUniqueSubs}
use developer_platform_backe.Billing.Sync.{apply_plan-IsOnPlan}

-- The bill that an invoice snapshots.
abbrev pub bill_of : BillingRecord → Bill
bill_of r = record {
  plan = r.plan;
  period_start = r.period_start;
  period_end = r.period_end;
  included_requests = r.included_requests;
  used_requests = r.used_requests;
  overage_requests = r.overage_requests;
  base_cost = r.base_cost;
  overage_cost = r.overage_cost;
  total_cost = r.total_cost;
}

-- The invoice of a subscription and a usage count, as `closeInvoice` writes it.
abbrev invoice_of : ℕ → Rounding → Subscription → ℕ → ℕ → BillingRecord
invoice_of org rounding sub used id =
    let bill = compute_bill rounding sub used in
    record {
      id = id;
      organization_id = org;
      plan = sub.plan;
      period_start = sub.current_period_start;
      period_end = sub.current_period_end;
      included_requests = bill.included_requests;
      used_requests = bill.used_requests;
      overage_requests = bill.overage_requests;
      base_cost = bill.base_cost;
      overage_cost = bill.overage_cost;
      total_cost = bill.total_cost;
      status = open_invoice;
    }

bill_of-invoice_of :
    (org : ℕ) (rounding : Rounding) (sub : Subscription) (used id : ℕ)
    → bill_of (invoice_of org rounding sub used id) ≡ compute_bill rounding sub used
unfolding compute_bill
bill_of-invoice_of org rounding sub used id = refl

module _ {orm : Orm} {redis : Redis} {sdk : StripeSdk} where
  ensure_subscription-found :
      (calendar : Calendar) (now org : ℕ) (s : BillingState orm redis sdk) (sub : Subscription)
      → orm.find_one (of_org org) s.subs ≡ some sub
      → ensure_subscription calendar now org s ≡ (ok sub, s)
  unfolding ensure_subscription
  ensure_subscription-found calendar now org s sub h = ground arith

  ensure_subscription-absent :
      (calendar : Calendar) (now org : ℕ) (s : BillingState orm redis sdk)
      → orm.find_one (of_org org) s.subs ≡ none
      → ensure_subscription calendar now org s ≡ apply_plan calendar now org free s
  unfolding ensure_subscription
  ensure_subscription-absent calendar now org s h = rw h

  -- A subscription is created at most once: asking again, at any later time, returns the same row and
  -- changes nothing.
  pub ensure_subscription_idempotent :
      (calendar : Calendar) (now later org : ℕ) (s : BillingState orm redis sdk)
      (sub : Subscription)
      → HasUniqueSubs s
      → (ensure_subscription calendar now org s).0 ≡ ok sub
      → let s' = (ensure_subscription calendar now org s).1 in
        ensure_subscription calendar later org s' ≡ (ok sub, s')
  ensure_subscription_idempotent calendar now later org s sub unique done =
      elim (Option-cases (orm.find_one (of_org org) s.subs)) [
        | inl absent ↦
            let e = ensure_subscription-absent calendar now org s absent in
            let on_plan = apply_plan-IsOnPlan calendar now org free s sub unique (rw (← e) done) in
            rw e (
              ensure_subscription-found calendar later org (apply_plan calendar now org free s).1
                sub on_plan.found)
        | inr (old, found) ↦
            let e = ensure_subscription-found calendar now org s old found in
            let same : old ≡ sub = ground (arith, e) in
            rw (e, ← same) (ensure_subscription-found calendar later org s old found)
      ]

  -- What closing an invoice has done, from the state before and after it.
  pub record IsClosed (calendar : Calendar) (now org : ℕ) (rounding : Rounding)
      (s s' : BillingState orm redis sdk) (invoice : BillingRecord) : Type 0 where
    pub usage : (get_usage calendar now rounding org s).0 ≡ ok (bill_of invoice)
    pub owner : invoice.organization_id ≡ org
    pub status : invoice.status ≡ open_invoice
    pub stored : orm.get invoice.id s'.records ≡ some invoice
    pub new : orm.get invoice.id s.records ≡ none
    pub others :
        (k : ℕ) (r : BillingRecord) → orm.get k s.records ≡ some r → orm.get k s'.records ≡ some r

  abbrev used_of : ℕ → Subscription → BillingState orm redis sdk → ℕ
  used_of org sub s =
      length (orm.find (in_period org sub.current_period_start sub.current_period_end) s.logs)

  abbrev with_invoice : BillingRecord → BillingState orm redis sdk → BillingState orm redis sdk
  with_invoice r s = record s { records = orm.save r s.records }

  module _ (calendar : Calendar) (now org : ℕ) (rounding : Rounding)
      (s : BillingState orm redis sdk) where
    close_invoice-ok :
        (sub : Subscription) (s' : BillingState orm redis sdk)
        → ensure_subscription calendar now org s ≡ (ok sub, s')
        → let invoice = invoice_of org rounding sub (used_of org sub s') (orm.fresh s'.records) in
          close_invoice calendar now rounding org s ≡ (ok invoice, with_invoice invoice s')
    unfolding close_invoice
    close_invoice-ok sub s' e = ground arith

    close_invoice-err :
        (x : HttpError) (s' : BillingState orm redis sdk)
        → ensure_subscription calendar now org s ≡ (err x, s')
        → close_invoice calendar now rounding org s ≡ (err x, s')
    unfolding close_invoice
    close_invoice-err x s' e = ground arith

    get_usage-ok :
        (sub : Subscription) (s' : BillingState orm redis sdk)
        → ensure_subscription calendar now org s ≡ (ok sub, s')
        → get_usage calendar now rounding org s
          ≡ (ok (compute_bill rounding sub (used_of org sub s')), s')
    unfolding get_usage
    get_usage-ok sub s' e = ground arith

    -- Reading or creating the subscription writes no invoice.
    ensure_subscription-records : (ensure_subscription calendar now org s).1.records ≡ s.records
    ensure_subscription-records = elim (Option-cases (orm.find_one (of_org org) s.subs)) [
      | inr (sub, found) ↦ ground (arith, ensure_subscription-found calendar now org s sub found)
      | inl absent ↦
          rw (ensure_subscription-absent calendar now org s absent)
            (elim (Option-cases (orm.get org s.org_state.orgs)) [
              | inl unknown ↦ ground (arith, apply_plan-unknown calendar now org free s unknown)
              | inr (o, known) ↦ ground (arith, apply_plan-known calendar now org free s o known)
            ])
    ]

    closed :
        (sub : Subscription) (s' : BillingState orm redis sdk)
        → ensure_subscription calendar now org s ≡ (ok sub, s')
        → s'.records ≡ s.records
        → let invoice = invoice_of org rounding sub (used_of org sub s') (orm.fresh s'.records) in
          IsClosed calendar now org rounding s (with_invoice invoice s') invoice
    closed sub s' e same =
        let invoice : BillingRecord =
          invoice_of org rounding sub (used_of org sub s') (orm.fresh s'.records) in
        record {
          usage = ground (
            arith,
            get_usage-ok sub s' e,
            bill_of-invoice_of org rounding sub (used_of org sub s') (orm.fresh s'.records),
          );
          owner = refl;
          status = refl;
          stored = get-save_self orm invoice s'.records;
          new = rw (← same) (orm.get-fresh s'.records);
          others = λ k r old.
              ground (arith, orm.get-save k invoice s'.records, orm.get-fresh s'.records, same);
        }

    -- Closing an invoice stores one new record, open and for the organization, with the figures that
    -- the usage report shows in the same state, and leaves every earlier invoice as it was.
    pub close_invoice-IsClosed :
        (invoice : BillingRecord)
        → (close_invoice calendar now rounding org s).0 ≡ ok invoice
        → IsClosed calendar now org rounding s (close_invoice calendar now rounding org s).1 invoice
    close_invoice-IsClosed invoice done =
        go (ensure_subscription calendar now org s).0 (ensure_subscription calendar now org s).1
          refl ensure_subscription-records
      where
        go :
            (r : Result Subscription) (s' : BillingState orm redis sdk)
            → ensure_subscription calendar now org s ≡ (r, s')
            → s'.records ≡ s.records
            → IsClosed calendar now org rounding s
                (close_invoice calendar now rounding org s).1
                invoice
        go (ok sub) s' e same =
            let done' = close_invoice-ok sub s' e in
            let same_invoice : invoice_of org rounding sub (used_of org sub s')
                  (orm.fresh s'.records)
                ≡ invoice =
              ground (arith, done') in
            rw (done', ← same_invoice) (closed sub s' e same)
        go (err x) s' e same = ground (arith, close_invoice-err x s' e)
