-- ===== src/Auth/Register.antt =====
-- auth/auth.service.ts, `register`, with the calls that it makes of the users, organizations and
-- applications services and of the producer of welcome mails (queue/producers/emails.producer.ts).
use developer_platform_backe.Slug.{Texts}
use developer_platform_backe.Organizations.{OrgState}
use developer_platform_backe.Redis.{Redis}
use developer_platform_backe.Billing.Payments.{text_or_none}
use developer_platform_backe.Enums.{OrganizationType, publisher, subscriber}
use developer_platform_backe.Auth.{AuthEnv, SafeUser, build_auth_response}
use developer_platform_backe.Prelude.{
  ℕ, String, ◌≡◌, true, Option, some, List, [], ◌∷◌, ◌++◌, ◌==◌, if◌then◌else◌, is_some, or_default,
}
use developer_platform_backe.Prelude.Action.{
  ok, conflict, Action, pure, gets, ◌>>=◌, ◌>>◌, throw_if, modify, call,
}
use developer_platform_backe.Orm.{Orm}
use Prim.Native.String.{◌++◌ as text_append}
use developer_platform_backe.Users.{create as create_row, User, find_by_email}
use developer_platform_backe.Organizations.Creation.{create as create_org}
use developer_platform_backe.Applications.{create as create_app, AppsState}
use Prim.Native.Char.{code}

-- `bcrypt.hash` with a salt of its own each time: a hash is one that `compare` takes for its password.
pub record Hashing (env : AuthEnv) : Type 0 where
  pub hash : (salt : ℕ) → String → String
  pub compare-hash :
      (salt : ℕ) (password : String) → env.compare password (hash salt password) ≡ true

-- auth/dto/register.dto.ts
pub record RegisterDto : Type 0 where
  pub email : String
  pub password : String
  pub first_name : Option String
  pub last_name : Option String
  pub type : OrganizationType

-- The data of a job `welcome` of the emails queue.
pub record WelcomeEmail : Type 0 where
  pub email : String
  pub name : Option String

-- `email.split('@')[0]`
abbrev pub before_at : String → String
before_at String.[] = ""
before_at (String.◌∷◌ c s) = if code c == b'@' then "" else String.◌∷◌ c (before_at s)

-- `${user.firstName || dto.email.split('@')[0]}'s workspace`
abbrev pub workspace_name : Option String → String → String
workspace_name first_name email =
    text_append (or_default (text_or_none first_name) (before_at email)) "'s workspace"

module _ (orm : Orm) (redis : Redis) where
  pub record RegisterState : Type 0 where
    pub org_state : OrgState orm redis
    pub apps_state : AppsState orm
    pub emails : List WelcomeEmail

module _ {orm : Orm} {redis : Redis} where
  -- `usersService.create`
  abbrev pub create_user : RegisterDto → String → Action (RegisterState orm redis) User
  create_user dto hash s =
      let (user, users) =
        create_row orm dto.email hash dto.first_name dto.last_name s.org_state.users in
      (ok user, record s { org_state = record (s.org_state) { users = users } })

  -- The 'Default' application of a subscriber
  abbrev pub create_default_app : OrganizationType → ℕ → Action (RegisterState orm redis) (Unit {0})
  create_default_app publisher org_id = pure tt
  create_default_app subscriber org_id = do
    call (λ s. s.apps_state) (λ t s. record s { apps_state = t })
        (create_app org_id "Default" (some "Default application for your API keys."))
    pure tt

  -- `enqueueWelcomeEmail`
  abbrev pub enqueue_welcome_email : WelcomeEmail → Action (RegisterState orm redis) (Unit {0})
  enqueue_welcome_email mail = modify (λ s. record s { emails = s.emails ++ (mail ∷ []) })

  module _ (texts : Texts) (env : AuthEnv) (hashing : Hashing env) (now salt : ℕ) where
    -- `register`
    unfoldable pub register : RegisterDto → Action (RegisterState orm redis) (env.Token × SafeUser)
    unfolding find_by_email
    register dto = do
      existing ← gets (λ s. find_by_email orm dto.email s.org_state.users)
      throw_if (is_some existing) (conflict "Email is already registered")
      user ← create_user dto (hashing.hash salt dto.password)
      org ←
          call (λ s. s.org_state) (λ t s. record s { org_state = t })
            (create_org texts user.id (workspace_name user.first_name dto.email) dto.type)
      create_default_app dto.type org.id
      enqueue_welcome_email (record { email = user.email; name = user.first_name })
      pure (build_auth_response env now user)
