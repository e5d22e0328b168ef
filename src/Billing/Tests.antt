-- ===== src/Billing/Tests.antt =====
-- Billing on concrete tables, and the theorems at inputs that meet their hypotheses.
use developer_platform_backe.Prelude.{ℕ, ◌≡◌, refl, none, [], ◌∷◌, arith}
use developer_platform_backe.Enums.{free, pro, subscriber}
use developer_platform_backe.Orm.{list_orm}
use developer_platform_backe.Orm.ListTable.{list_tables}
use developer_platform_backe.Redis.{map_redis}
use developer_platform_backe.Organizations.{Organization, update_rate_limit}
use developer_platform_backe.Billing.Instances.{fixed_stripe, even_months, half_up}
use developer_platform_backe.Billing.{
  Subscription, BillingState, BillingRecord, ApiLog, open_invoice, compute_bill, with_terms, blank,
  apply_plan, ensure_subscription, close_invoice,
}
use developer_platform_backe.Billing.Money.{IsExact, compute_bill-IsExact}
use developer_platform_backe.Billing.Plans.{HasUniqueSubs}
use developer_platform_backe.Billing.Sync.{IsOnPlan, apply_plan-IsOnPlan}
use developer_platform_backe.Billing.Invoices.{IsClosed, close_invoice-IsClosed}

abbrev acme : Organization
acme = record {
  id = 7;
  name = "Acme";
  slug = "acme";
  type = subscriber;
  plan = free;
  requests_per_minute = 100;
}

abbrev acme_sub : Subscription
acme_sub = with_terms even_months 1_500 pro (blank 4 7)

abbrev log_at : ℕ → ℕ → ApiLog
log_at id time = record { id = id; organization_id = 7; created_at = time }

abbrev start : BillingState list_orm map_redis fixed_stripe
start = record {
  org_state = record { orgs = acme ∷ []; members = []; users = []; redis_store = λ k. none };
  subs = [];
  records = [];
  logs = log_at 1 1_200 ∷ log_at 2 1_999 ∷ log_at 3 2_001 ∷ [];
  stripe = [];
}

start-HasUniqueSubs : HasUniqueSubs start
unfolding list_tables
start-HasUniqueSubs a b ga gb same = ground arith

-- 1,002,500 requests on the PRO plan: three started blocks at 50 cents.
pro_bill :
    ((compute_bill half_up acme_sub 1_002_500).overage_cost ≡ 150)
    × ((compute_bill half_up acme_sub 1_002_500).total_cost ≡ 5_050)
unfolding compute_bill with_terms
pro_bill = (refl, refl)

compute_bill-IsExact_example :
    IsExact pro 1_002_500
      (compute_bill half_up (with_terms even_months 1_500 pro (blank 4 7)) 1_002_500)
compute_bill-IsExact_example =
    compute_bill-IsExact half_up even_months 1_500 pro (blank 4 7) 1_002_500

abbrev acme_on_pro : Subscription
acme_on_pro = with_terms even_months 1_500 pro (blank 1 7)

apply_plan-IsOnPlan_example :
    IsOnPlan even_months 1_500 7 pro acme_on_pro start (apply_plan even_months 1_500 7 pro start).1
unfolding apply_plan update_rate_limit with_terms list_tables
apply_plan-IsOnPlan_example =
    apply_plan-IsOnPlan even_months 1_500 7 pro start acme_on_pro start-HasUniqueSubs refl

abbrev acme_on_free : Subscription
acme_on_free = with_terms even_months 1_500 free (blank 1 7)

abbrev first_invoice : BillingRecord
first_invoice = record {
  id = 1;
  organization_id = 7;
  plan = free;
  period_start = 1_000;
  period_end = 2_000;
  included_requests = 10_000;
  used_requests = 2;
  overage_requests = 0;
  base_cost = 0;
  overage_cost = 0;
  total_cost = 0;
  status = open_invoice;
}

close_invoice-IsClosed_example :
    IsClosed even_months 1_500 7 half_up start
      (close_invoice even_months 1_500 half_up 7 start).1
      first_invoice
unfolding close_invoice ensure_subscription apply_plan update_rate_limit with_terms compute_bill
    list_tables
close_invoice-IsClosed_example =
    close_invoice-IsClosed even_months 1_500 7 half_up start first_invoice refl
