-- ===== src/Billing/Money.antt =====
-- The arithmetic of a bill.
use developer_platform_backe.Prelude.{
  inl, inr, ℕ, ◌+◌, ◌-◌, ◌*◌, ◌≤◌, ◌≡◌, refl, arith, Bool-cases, ◌==◌,
}
use developer_platform_backe.Enums.{Plan, free, pro, enterprise}
use developer_platform_backe.Billing.Terms.{plan_terms}
use developer_platform_backe.Billing.Interface.{Calendar, Rounding}
use developer_platform_backe.Billing.{Subscription, Bill, compute_bill, with_terms, overage_units}

to_fixed_exact : (rounding : Rounding) (x k : ℕ) → x ≡ k * 100 → rounding.to_fixed x ≡ k
to_fixed_exact rounding x k h = omega (arith, rounding.not_above x, rounding.not_below x)

-- `n` is the number of started blocks of 1000 requests beyond the quota.
pub record IsStarted (quota used n : ℕ) : Type 0 where
  pub covered : used ≤ quota + n * 1000
  pub least : (m : ℕ) → used ≤ quota + m * 1000 → n ≤ m

units-IsStarted : (quota used : ℕ) → IsStarted quota used (overage_units (used - quota))
units-IsStarted quota used = record { covered = omega arith; least = λ m h. omega arith }

-- Every rate of the table is a whole number of cents.
rate_cents : (plan : Plan) → (k : ℕ) × ((plan_terms plan).overage_per_thousand ≡ k * 100)
unfolding plan_terms
rate_cents free = (0, refl)
rate_cents pro = (50, refl)
rate_cents enterprise = (20, refl)

-- What is claimed of a bill, with the number of blocks that it charges for.
pub record IsExact (plan : Plan) (used : ℕ) (bill : Bill) : Type 0 where
  pub blocks : ℕ
  pub started : IsStarted (plan_terms plan).monthly_quota used blocks
  pub base : bill.base_cost ≡ (plan_terms plan).price_per_month
  pub overage : bill.overage_cost * 100 ≡ blocks * (plan_terms plan).overage_per_thousand
  pub total : bill.total_cost ≡ bill.base_cost + bill.overage_cost

-- A bill under the terms of a plan is exact: it is the price of the plan and, for each started block
-- of 1000 requests beyond the quota, the rate of the plan, with nothing lost to rounding.
pub compute_bill-IsExact :
    (rounding : Rounding) (calendar : Calendar) (now : ℕ) (plan : Plan) (row : Subscription)
    (used : ℕ)
    → IsExact plan used (compute_bill rounding (with_terms calendar now plan row) used)
unfolding compute_bill with_terms
compute_bill-IsExact rounding calendar now plan row used =
    let (k, rate) = rate_cents plan in
    let n : ℕ = overage_units (used - (plan_terms plan).monthly_quota) in
    let price : ℕ = (plan_terms plan).price_per_month in
    let extra =
      to_fixed_exact rounding (n * (plan_terms plan).overage_per_thousand) (n * k)
        (rw rate (omega arith)) in
    let all =
      to_fixed_exact rounding (price * 100 + n * (plan_terms plan).overage_per_thousand)
        (price + n * k) (rw rate (omega arith)) in
    record {
      blocks = n;
      started = units-IsStarted (plan_terms plan).monthly_quota used;
      base = refl;
      overage = rw (extra, rate) (omega arith);
      total = rw (extra, all);
    }

-- With any stored price and rate the rounded parts differ from the rounded total by a cent at most.
pub compute_bill-total :
    (rounding : Rounding) (sub : Subscription) (used : ℕ)
    → let bill = compute_bill rounding sub used in
      (bill.total_cost ≤ bill.base_cost + bill.overage_cost + 1)
      × (bill.base_cost + bill.overage_cost ≤ bill.total_cost + 1)
unfolding compute_bill
compute_bill-total rounding sub used =
    let x : ℕ = overage_units (used - sub.monthly_quota) * sub.overage_per_thousand in
    let y : ℕ = sub.price_per_month * 100 + x in
    omega (
      arith,
      rounding.not_above x,
      rounding.not_below x,
      rounding.not_above y,
      rounding.not_below y,
    )

to_fixed_mono : (rounding : Rounding) (x y : ℕ) → x ≤ y → rounding.to_fixed x ≤ rounding.to_fixed y
to_fixed_mono rounding x y h = elim (Bool-cases (x == y)) [
  | inl same ↦ ground arith
  | inr other ↦ ground (arith, rounding.not_above x, rounding.not_below y)
]

-- More requests never make a bill smaller, and a bill within the quota has no overage.
pub compute_bill_mono :
    (rounding : Rounding) (sub : Subscription) (used more : ℕ)
    → used ≤ more
    → let bill = compute_bill rounding sub used in
      (bill.total_cost ≤ (compute_bill rounding sub more).total_cost)
      × (bill.overage_cost ≤ (compute_bill rounding sub more).overage_cost)
      × (used ≤ sub.monthly_quota → (bill.overage_requests ≡ 0) × (bill.overage_cost ≡ 0))
unfolding compute_bill
compute_bill_mono rounding sub used more h =
    let n : ℕ = overage_units (used - sub.monthly_quota) in
    let m : ℕ = overage_units (more - sub.monthly_quota) in
    let fewer : n ≤ m = omega arith in
    let less : n * sub.overage_per_thousand ≤ m * sub.overage_per_thousand = grind arith in
    (
      to_fixed_mono rounding _ _ (omega arith),
      to_fixed_mono rounding _ _ less,
      λ within.
          let no_block : n ≡ 0 = omega arith in
          (
            omega arith,
            to_fixed_exact rounding (n * sub.overage_per_thousand) 0 (rw no_block (omega arith)),
          ),
    )
