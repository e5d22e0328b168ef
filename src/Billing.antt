-- ===== src/Billing.antt =====
-- billing/billing.service.ts: subscriptions, usage and invoices. The Stripe side of the service is in
-- Billing/Payments and Billing/Events.
pub mod Terms
pub mod Interface
pub mod Money
pub mod Plans
pub mod Sync
pub mod Invoices
pub mod Instances
pub mod Stripe
pub mod Payments
pub mod Events
pub mod Activation
pub mod Webhook
pub mod Cancellation
pub mod Downgrade
pub mod Uniqueness
mod Tests
mod EventTests
use developer_platform_backe.Prelude.{
  ℕ, ◌+◌, ◌-◌, ◌*◌, ◌/◌, Bool, false, ◌&&◌, Option, none, some, leb, ◌==◌, length,
}
use developer_platform_backe.Prelude.Action.{Action, pure, gets, ◌>>=◌, ◌>>◌, modify, call}
use developer_platform_backe.Orm.{Orm, Entity}
use developer_platform_backe.Redis.{Redis}
use developer_platform_backe.Enums.{Plan, free, is_free}
use developer_platform_backe.Organizations.{OrgState, update_rate_limit}
use Terms.{plan_terms}
use Interface.{StripeSdk, Calendar, Rounding}

-- The `status` column of a subscription.
pub data Status : Type 0 where
  active canceled past_due : Status

-- billing/entities/subscription.entity.ts
pub record Subscription : Type 0 where
  pub id : ℕ
  pub organization_id : ℕ
  pub plan : Plan
  pub status : Status
  pub stripe_customer_id : Option ℕ
  pub stripe_subscription_id : Option ℕ
  pub stripe_connect_account_id : Option ℕ
  pub payouts_enabled : Bool
  pub monthly_quota : ℕ
  pub price_per_month : ℕ
  pub overage_per_thousand : ℕ
  pub current_period_start : ℕ
  pub current_period_end : ℕ

instance abbrev pub subscription_entity : Entity Subscription
subscription_entity = record { id_of = λ s. s.id }

-- The `status` column of an invoice.
pub data InvoiceStatus : Type 0 where
  open_invoice invoiced paid : InvoiceStatus

-- billing/entities/billing-record.entity.ts, the costs in cents
pub record BillingRecord : Type 0 where
  pub id : ℕ
  pub organization_id : ℕ
  pub plan : Plan
  pub period_start : ℕ
  pub period_end : ℕ
  pub included_requests : ℕ
  pub used_requests : ℕ
  pub overage_requests : ℕ
  pub base_cost : ℕ
  pub overage_cost : ℕ
  pub total_cost : ℕ
  pub status : InvoiceStatus

instance abbrev pub billing_record_entity : Entity BillingRecord
billing_record_entity = record { id_of = λ r. r.id }

-- The columns of api-logs/entities/api-log.entity.ts that billing reads.
pub record ApiLog : Type 0 where
  pub id : ℕ
  pub organization_id : ℕ
  pub created_at : ℕ

instance abbrev pub api_log_entity : Entity ApiLog
api_log_entity = record { id_of = λ l. l.id }

pub record Bill : Type 0 where
  pub plan : Plan
  pub period_start : ℕ
  pub period_end : ℕ
  pub included_requests : ℕ
  pub used_requests : ℕ
  pub overage_requests : ℕ
  pub base_cost : ℕ
  pub overage_cost : ℕ
  pub total_cost : ℕ

-- `Math.ceil(overage / 1000)`
abbrev pub overage_units : ℕ → ℕ
overage_units overage = (overage + 999) / 1000

-- `computeBill`, in ten-thousandths of a dollar before `toFixed`
unfoldable pub compute_bill : Rounding → Subscription → ℕ → Bill
compute_bill rounding sub used =
    let overage = used - sub.monthly_quota in
    let overage_cost = overage_units overage * sub.overage_per_thousand in
    record {
      plan = sub.plan;
      period_start = sub.current_period_start;
      period_end = sub.current_period_end;
      included_requests = sub.monthly_quota;
      used_requests = used;
      overage_requests = overage;
      base_cost = sub.price_per_month;
      overage_cost = rounding.to_fixed overage_cost;
      total_cost = rounding.to_fixed (sub.price_per_month * 100 + overage_cost);
    }

module _ (orm : Orm) (redis : Redis) (sdk : StripeSdk) where
  pub record BillingState : Type 0 where
    pub org_state : OrgState orm redis
    pub subs : orm.Table Subscription
    pub records : orm.Table BillingRecord
    pub logs : orm.Table ApiLog
    pub stripe : sdk.Server

-- A new row of `subRepo.create({ organizationId })` with the columns' defaults, before the terms of a
-- plan are written into it.
abbrev pub blank : ℕ → ℕ → Subscription
blank id org_id = record {
  id = id;
  organization_id = org_id;
  plan = free;
  status = active;
  stripe_customer_id = none;
  stripe_subscription_id = none;
  stripe_connect_account_id = none;
  payouts_enabled = false;
  monthly_quota = 0;
  price_per_month = 0;
  overage_per_thousand = 0;
  current_period_start = 0;
  current_period_end = 0;
}

-- The terms of a plan for the month of `now`, written into a row.
unfoldable pub with_terms : Calendar → ℕ → Plan → Subscription → Subscription
unfolding plan_terms
with_terms calendar now plan sub =
    let terms = plan_terms plan in
    record sub {
      plan = plan;
      status = active;
      monthly_quota = terms.monthly_quota;
      price_per_month = terms.price_per_month;
      overage_per_thousand = terms.overage_per_thousand;
      current_period_start = calendar.month_start (calendar.month_of now);
      current_period_end = calendar.month_start (calendar.month_of now + 1);
    }

abbrev pub of_org : ℕ → Subscription → Bool
of_org org_id sub = sub.organization_id == org_id

-- `Between` takes both ends in.
abbrev pub in_period : ℕ → ℕ → ℕ → ApiLog → Bool
in_period org_id start end log =
    log.organization_id == org_id && (leb start log.created_at && leb log.created_at end)

module _ {orm : Orm} {redis : Redis} {sdk : StripeSdk} where
  abbrev pub save_sub : Subscription → Action (BillingState orm redis sdk) (Unit {0})
  save_sub sub = modify (λ s. record s { subs = orm.save sub s.subs })

  abbrev pub find_sub :
      (Subscription → Bool) → Action (BillingState orm redis sdk) (Option Subscription)
  find_sub p = gets (λ s. orm.find_one p s.subs)

  -- `if (!sub) sub = create(…)`
  abbrev pub found_or_blank : ℕ → Option Subscription → BillingState orm redis sdk → Subscription
  found_or_blank org_id none s = blank (orm.fresh s.subs) org_id
  found_or_blank org_id (some sub) s = sub

  module _ (calendar : Calendar) (now : ℕ) where
    -- `applyPlan`
    unfoldable pub apply_plan : ℕ → Plan → Action (BillingState orm redis sdk) Subscription
    apply_plan org_id plan = do
      found ← find_sub (of_org org_id)
      row ← gets (found_or_blank org_id found)
      let sub = with_terms calendar now plan row
      save_sub sub
      call (λ s. s.org_state) (λ t s. record s { org_state = t })
          (update_rate_limit org_id (record { plan = some plan; requests_per_minute = none }))
      pure sub

    -- `ensureSubscription`
    unfoldable pub ensure_subscription : ℕ → Action (BillingState orm redis sdk) Subscription
    ensure_subscription org_id = do
      found ← find_sub (of_org org_id)
      elim found [ some sub ↦ pure sub | none ↦ apply_plan org_id free ]

    -- `subscribe`
    unfoldable pub subscribe : ℕ → Plan → Action (BillingState orm redis sdk) Subscription
    subscribe org_id plan = apply_plan org_id plan

    module _ (rounding : Rounding) where
      -- `getUsage`
      unfoldable pub get_usage : ℕ → Action (BillingState orm redis sdk) Bill
      get_usage org_id = do
        sub ← ensure_subscription org_id
        used ← gets (λ s.
            length
              (orm.find (in_period org_id sub.current_period_start sub.current_period_end) s.logs))
        pure (compute_bill rounding sub used)

      -- `closeInvoice`
      unfoldable pub close_invoice : ℕ → Action (BillingState orm redis sdk) BillingRecord
      close_invoice org_id = do
        sub ← ensure_subscription org_id
        used ← gets (λ s.
            length
              (orm.find (in_period org_id sub.current_period_start sub.current_period_end) s.logs))
        let bill = compute_bill rounding sub used
        id ← gets (λ s. orm.fresh s.records)
        let invoice : BillingRecord = record {
          id = id;
          organization_id = org_id;
          plan = sub.plan;
          period_start = sub.current_period_start;
          period_end = sub.current_period_end;
          included_requests = bill.included_requests;
          used_requests = bill.used_requests;
          overage_requests = bill.overage_requests;
          base_cost = bill.base_cost;
          overage_cost = bill.overage_cost;
          total_cost = bill.total_cost;
          status = open_invoice;
        }
        modify (λ s. record s { records = orm.save invoice s.records })
        pure invoice
