-- ===== src/Billing/Instances.antt =====
-- Concrete values of what billing takes as parameters: a Stripe that answers from fixed data, a
-- calendar of months of 1000 ticks, and rounding half up.
use developer_platform_backe.Prelude.{
  ℕ, ◌+◌, ◌*◌, ◌/◌, ◌≤◌, ◌<◌, true, false, none, some, List, ◌∷◌, arith,
}
use developer_platform_backe.Prelude.Action.{pure, modify}
use developer_platform_backe.Billing.Interface.{
  StripeSdk, Session, platform, plain, Calendar, Rounding,
}
use developer_platform_backe.Enums.{pro}

abbrev pub fixed_session : Session
fixed_session = record {
  url = some "https://pay";
  metadata = record {
    kind = some platform;
    org_id = some 7;
    plan = some pro;
    subscriber_org_id = none;
    api_id = none;
  };
  paid = true;
  complete = false;
  customer = plain 31;
  subscription = plain 32;
}

-- Customers get the number 31 and accounts 33; what is canceled is kept, the newest first.
abbrev pub fixed_stripe : StripeSdk
fixed_stripe = record {
  Server = List ℕ;
  create_customer = λ org email name. pure 31;
  create_session = λ request. pure fixed_session;
  retrieve_session = λ id. pure fixed_session;
  create_account = λ org email. pure 33;
  create_account_link = λ account refresh back. pure "https://onboard";
  retrieve_account = λ account. pure true;
  create_portal = λ customer back. pure "https://portal";
  cancel = λ subscription. modify (λ canceled. subscription ∷ canceled);
}

pub even_start_le : (now : ℕ) → now / 1000 * 1000 ≤ now
even_start_le now = omega arith

pub even_lt_end : (now : ℕ) → now < (now / 1000 + 1) * 1000
even_lt_end now = omega arith

abbrev pub even_months : Calendar
even_months = record {
  month_of = λ now. now / 1000;
  month_start = λ m. m * 1000;
  start_le = even_start_le;
  lt_end = even_lt_end;
}

pub half_up_not_above : (x : ℕ) → (x + 50) / 100 * 100 ≤ x + 50
half_up_not_above x = omega arith

pub half_up_not_below : (x : ℕ) → x ≤ (x + 50) / 100 * 100 + 50
half_up_not_below x = omega arith

abbrev pub half_up : Rounding
half_up = record {
  to_fixed = λ x. (x + 50) / 100;
  not_above = half_up_not_above;
  not_below = half_up_not_below;
}
