-- ===== src/Enums.antt =====
-- common/enums: the plans with their rate limits, the organization types and the roles.
use developer_platform_backe.Prelude.{ℕ, Bool, true, false}

pub data Plan : Type 0 where
  free pro enterprise : Plan

-- `PLAN_RATE_LIMITS`
unfoldable pub plan_rate_limits : Plan → ℕ
plan_rate_limits free = 100
plan_rate_limits pro = 5000
plan_rate_limits enterprise = 50000

abbrev pub is_enterprise : Plan → Bool
is_enterprise enterprise = true
is_enterprise _ = false

abbrev pub is_free : Plan → Bool
is_free free = true
is_free _ = false

pub data OrganizationType : Type 0 where
  publisher subscriber : OrganizationType

-- `a === b` of two organization types
abbrev pub same_type : OrganizationType → OrganizationType → Bool
same_type publisher publisher = true
same_type subscriber subscriber = true
same_type _ _ = false

pub data Role : Type 0 where
  owner admin developer viewer : Role

abbrev pub is_owner : Role → Bool
is_owner owner = true
is_owner _ = false

-- `ROLE_RANK`
unfoldable pub role_rank : Role → ℕ
role_rank viewer = 0
role_rank developer = 1
role_rank admin = 2
role_rank owner = 3
