-- ===== src/Auth.antt =====
-- auth/auth.service.ts (`login`) and auth/strategies/jwt.strategy.ts.
pub mod Login
pub mod Register
pub mod Registration
mod Tests
use developer_platform_backe.Prelude.{ℕ, ◌+◌, ◌≤◌, ◌<◌, String, ◌≡◌, Bool, not, Option, some}
use developer_platform_backe.Prelude.Action.{
  HttpError, unauthorized, Action, pure, gets, or_throw, ◌>>=◌, ◌>>◌, throw_if,
}
use developer_platform_backe.Orm.{Orm}
use developer_platform_backe.Users.{User, user_entity, find_by_email, find_by_id}

-- The payload of a token.
pub record JwtPayload : Type 0 where
  pub sub : ℕ
  pub email : String

-- bcrypt and the JWT library: what was signed is what a verification finds, until the token expires,
-- which `verify` decides by the time.
pub record AuthEnv : Type 1 where
  pub Token : Type 0
  pub compare : (password hash : String) → Bool
  pub lifetime : ℕ
  pub sign : (now : ℕ) → JwtPayload → Token
  pub verify : (now : ℕ) → Token → Option JwtPayload
  pub verify-sign :
      (at now : ℕ) (p : JwtPayload)
      → at ≤ now
      → now < at + lifetime
      → verify now (sign at p) ≡ some p

-- `sanitize`: the user without the hash.
pub record SafeUser : Type 0 where
  pub id : ℕ
  pub email : String
  pub first_name : Option String
  pub last_name : Option String
  pub is_active : Bool

abbrev pub sanitize : User → SafeUser
sanitize u = record {
  id = u.id;
  email = u.email;
  first_name = u.first_name;
  last_name = u.last_name;
  is_active = u.is_active;
}

pub record AuthState (orm : Orm) : Type 0 where
  pub users : orm.Table User

abbrev pub invalid : HttpError
invalid = unauthorized "Invalid credentials"

-- `buildAuthResponse`
unfoldable pub build_auth_response : (env : AuthEnv) → (now : ℕ) → User → env.Token × SafeUser
build_auth_response env now user =
    (env.sign now (record { sub = user.id; email = user.email }), sanitize user)

module _ {orm : Orm} (env : AuthEnv) (now : ℕ) where
  -- `login`
  unfoldable pub login : (email password : String) → Action (AuthState orm) (env.Token × SafeUser)
  unfolding build_auth_response find_by_email
  login email password = do
    found ← gets (λ s. find_by_email orm email s.users)
    user ← or_throw found invalid
    throw_if (not (env.compare password user.password_hash)) invalid
    throw_if (not user.is_active) (unauthorized "Account is deactivated")
    pure (build_auth_response env now user)

  -- `validate`, for the payload of a verified token
  unfoldable pub validate : JwtPayload → Action (AuthState orm) User
  unfolding find_by_id
  validate payload = do
    found ← gets (λ s. find_by_id orm payload.sub s.users)
    user ← or_throw found (unauthorized "User no longer active")
    throw_if (not user.is_active) (unauthorized "User no longer active")
    pure user

  -- The strategy: a token that does not verify is refused by passport, before `validate`.
  unfoldable pub authenticate : env.Token → Action (AuthState orm) User
  unfolding validate
  authenticate token = do
    payload ← or_throw (env.verify now token) (unauthorized "Unauthorized")
    validate payload
