-- ===== src/Auth/Tests.antt =====
-- Logging in on a concrete table, and the theorems at inputs that meet their hypotheses.
use developer_platform_backe.Slug.Instances.{plain_texts}
use developer_platform_backe.Enums.{subscriber}
use developer_platform_backe.Redis.{map_redis}
use developer_platform_backe.Auth.Registration.{RegisterOutcome, register-RegisterOutcome}
use developer_platform_backe.Organizations.Founding.{HasKnownOrgs}
use developer_platform_backe.Auth.Register.{Hashing, RegisterState, RegisterDto, register}
use developer_platform_backe.Auth.Login.{IsLoggedIn, login-err, login-IsLoggedIn}
use developer_platform_backe.Auth.{
  JwtPayload, AuthEnv, AuthState, login, build_auth_response, invalid,
}
use text.Mathlib.Text.{◌==◌ as str_eq}
use developer_platform_backe.Prelude.{
  ℕ, ◌+◌, ◌≤◌, ◌<◌, ◌≡◌, refl, ◌⊎◌, true, false, Option, none, some, [], ◌∷◌, arith, ltb,
  if◌then◌else◌,
}
use text.Mathlib.Text.{◌==◌ as str_eq}
use developer_platform_backe.Users.{User, user_entity}
use text.Mathlib.TextEquality.{eq_iff}
use developer_platform_backe.Orm.{list_orm}
use developer_platform_backe.Orm.ListTable.{list_tables}

-- A token is its payload with the time of its signing; the hash of a password is the password.
abbrev verify_pair : (now : ℕ) → ℕ × JwtPayload → Option JwtPayload
verify_pair now (at, p) = if ltb now (at + 3_600) then some p else none

verify_pair-sign :
    (at now : ℕ) (p : JwtPayload) → at ≤ now → now < at + 3_600 → verify_pair now (at, p) ≡ some p
verify_pair-sign at now p a b = ground arith

abbrev plain_env : AuthEnv
plain_env = record {
  Token = ℕ × JwtPayload;
  compare = λ password hash. str_eq password hash;
  lifetime = 3_600;
  sign = λ now p. (now, p);
  verify = verify_pair;
  verify-sign = verify_pair-sign;
}

abbrev ada : User
ada = record {
  id = 3;
  email = "ada@acme.io";
  password_hash = "secret";
  first_name = some "Ada";
  last_name = none;
  is_active = true;
}

abbrev start : AuthState list_orm
start = record { users = ada ∷ [] }

login-IsLoggedIn_example :
    IsLoggedIn plain_env 10 "ada@acme.io" "secret" start (build_auth_response plain_env 10 ada)
unfolding login list_tables build_auth_response
login-IsLoggedIn_example =
    login-IsLoggedIn plain_env 10 "ada@acme.io" "secret" start
      (build_auth_response plain_env 10 ada) refl

login-err_example :
    (invalid ≡ invalid)
    ⊎ ((u : User) × (list_orm.find_one (λ x. str_eq x.email "ada@acme.io") start.users ≡ some u)
        × (plain_env.compare "guess" u.password_hash ≡ true)
        × (u.is_active ≡ false))
unfolding login list_tables
login-err_example = login-err plain_env 10 "ada@acme.io" "guess" start invalid refl

abbrev plain_hashing : Hashing plain_env
plain_hashing = record {
  hash = λ salt password. password;
  compare-hash = λ salt password. (eq_iff password password).1 refl;
}

abbrev empty_state : RegisterState list_orm map_redis
empty_state = record {
  org_state = record { orgs = []; members = []; users = ada ∷ []; redis_store = λ k. none };
  apps_state = record { apps = [] };
  emails = [];
}

abbrev signup : RegisterDto
signup = record {
  email = "bob@acme.io";
  password = "hunter22";
  first_name = some "";
  last_name = none;
  type = subscriber;
}

empty_state-HasKnownOrgs : HasKnownOrgs empty_state.org_state
unfolding list_tables
empty_state-HasKnownOrgs m stored = ground arith

register-RegisterOutcome_example :
    RegisterOutcome plain_texts plain_env plain_hashing 10 1 signup empty_state
      (register plain_texts plain_env plain_hashing 10 1 signup empty_state)
register-RegisterOutcome_example =
    register-RegisterOutcome plain_texts plain_env plain_hashing 10 1 signup empty_state
      empty_state-HasKnownOrgs
