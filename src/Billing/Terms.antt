-- ===== src/Billing/Terms.antt =====
-- billing/billing.constants.ts: the commercial terms of each plan. A price is in cents, a rate per
-- thousand requests in ten-thousandths of a dollar, as the columns of the subscription keep them.
use developer_platform_backe.Prelude.{ℕ}
use developer_platform_backe.Enums.{Plan, free, pro, enterprise}

pub record PlanTerms : Type 0 where
  pub plan : Plan
  pub monthly_quota : ℕ
  pub price_per_month : ℕ
  pub overage_per_thousand : ℕ
  pub requests_per_minute : ℕ

-- `PLAN_TERMS`
unfoldable pub plan_terms : Plan → PlanTerms
plan_terms free = record {
  plan = free;
  monthly_quota = 10_000;
  price_per_month = 0;
  overage_per_thousand = 0;
  requests_per_minute = 100;
}
plan_terms pro = record {
  plan = pro;
  monthly_quota = 1_000_000;
  price_per_month = 4_900;
  overage_per_thousand = 5_000;
  requests_per_minute = 5_000;
}
plan_terms enterprise = record {
  plan = enterprise;
  monthly_quota = 50_000_000;
  price_per_month = 99_900;
  overage_per_thousand = 2_000;
  requests_per_minute = 50_000;
}
