-- ===== src/Billing/Interface.antt =====
-- What billing uses of code outside the repository: the Stripe SDK, the calendar of `Date`, and the
-- rounding of `toFixed`.
use developer_platform_backe.Prelude.{ℕ, ◌+◌, ◌*◌, ◌≤◌, ◌<◌, String, Bool, Option}
use developer_platform_backe.Prelude.Action.{Action}
use developer_platform_backe.Enums.{Plan}

-- The metadata of a Checkout Session, `kind: 'platform'` or `'marketplace'`. A key may be missing.
pub data Kind : Type 0 where
  platform marketplace : Kind

pub record Metadata : Type 0 where
  pub kind : Option Kind
  pub org_id : Option ℕ
  pub plan : Option Plan
  pub subscriber_org_id : Option ℕ
  pub api_id : Option ℕ

-- A field that Stripe sends as null, as an id, or as an expanded object with an id, which it does
-- for the fields that a call asks it to expand.
pub data Reference : Type 0 where
  absent : Reference
  plain expanded : ℕ → Reference

pub record Session : Type 0 where
  pub url : Option String
  pub metadata : Metadata
  -- `payment_status === 'paid'` and `status === 'complete'`
  pub paid : Bool
  pub complete : Bool
  pub customer : Reference
  pub subscription : Reference

-- The request of `checkout.sessions.create`; `subscription_metadata` and `transfer`, the connected
-- account and the fee percent, are those of `subscription_data`.
pub record SessionRequest : Type 0 where
  pub customer : ℕ
  pub amount_cents : ℕ
  pub product_name : String
  pub metadata : Metadata
  pub subscription_metadata : Metadata
  pub success_url : String
  pub cancel_url : String
  pub transfer : Option (ℕ × Option ℕ)

-- The calls of the SDK, each an action on Stripe's own state, which may fail.
pub record StripeSdk : Type 1 where
  pub Server : Type 0
  pub create_customer : (org : ℕ) (email name : String) → Action Server ℕ
  pub create_session : SessionRequest → Action Server Session
  pub retrieve_session : String → Action Server Session
  pub create_account : (org : ℕ) (email : String) → Action Server ℕ
  pub create_account_link : (account : ℕ) (refresh_url return_url : String) → Action Server String
  -- whether `capabilities.transfers` is 'active'
  pub retrieve_account : ℕ → Action Server Bool
  pub create_portal : (customer : ℕ) (return_url : String) → Action Server String
  pub cancel : ℕ → Action Server (Unit {0})

-- Months counted from a fixed one, and the first instant of a month in UTC, as `Date.UTC` gives it.
pub record Calendar : Type 0 where
  pub month_of : ℕ → ℕ
  pub month_start : ℕ → ℕ
  pub start_le : (now : ℕ) → month_start (month_of now) ≤ now
  pub lt_end : (now : ℕ) → now < month_start (month_of now + 1)

-- `toFixed(2)` on an amount in ten-thousandths of a dollar gives a nearest amount in cents. Which of
-- two it gives in the middle depends on the binary fraction, so that is left open.
pub record Rounding : Type 0 where
  pub to_fixed : ℕ → ℕ
  pub not_above : (x : ℕ) → to_fixed x * 100 ≤ x + 50
  pub not_below : (x : ℕ) → x ≤ to_fixed x * 100 + 50
