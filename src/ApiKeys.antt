-- ===== src/ApiKeys.antt =====
-- api-keys/api-keys.service.ts: issuing, revoking and rotating keys, and looking a key up by its
-- plaintext. Times are milliseconds.
pub mod Guard
pub mod Validity
pub mod Lifecycle
pub mod Issue
pub mod Usage
pub mod Rotation
mod Tests
use developer_platform_backe.Prelude.{
  ℕ, ◌+◌, ◌*◌, String, Bool, false, not, ◌&&◌, Option, none, some, [], ltb, leb, ◌==◌,
  if◌then◌else◌, is_some,
}
use developer_platform_backe.Prelude.Action.{
  bad_request, not_found, Action, pure, gets, or_throw, ◌>>=◌, ◌>>◌, throw_if, modify, call,
}
use developer_platform_backe.Orm.{Orm, Entity}
use text.Mathlib.Text.{◌==◌ as str_eq}
use Prim.Native.Char.{Char}
use Prim.Native.String
use Prim.Native.String.{count, ◌++◌ as text_append}
use developer_platform_backe.Applications.{AppsState, find_one_or_throw}

-- api-keys/entities/api-key.entity.ts
pub record ApiKey : Type 0 where
  pub id : ℕ
  pub name : String
  pub prefix : String
  pub last4 : String
  pub key_hash : String
  pub application_id : ℕ
  pub organization_id : ℕ
  pub expires_at : Option ℕ
  pub revoked_at : Option ℕ
  pub last_used_at : Option ℕ
  pub usage_count : ℕ
  pub created_at : ℕ

instance abbrev pub api_key_entity : Entity ApiKey
api_key_entity = record { id_of = λ k. k.id }

-- What the service takes from its environment: SHA-256 in hexadecimal, and `app.env`.
pub record KeyEnv : Type 0 where
  pub sha256 : String → String
  pub is_production : Bool

-- `text.slice(-4)`
unfoldable pub last_four : String → String
last_four String.[] = ""
last_four (String.◌∷◌ c s) = if leb (count (String.◌∷◌ c s)) 4 then String.◌∷◌ c s else last_four s

pub record Generated : Type 0 where
  pub full_key : String
  pub prefix : String
  pub last4 : String
  pub key_hash : String

-- `generate`, from the random text of the secret
unfoldable pub generate : KeyEnv → String → Generated
unfolding last_four
generate env secret =
    let prefix = text_append "dk_" (if env.is_production then "live" else "test") in
    let full_key = text_append prefix (text_append "_" secret) in
    record {
      full_key = full_key;
      prefix = prefix;
      last4 = last_four secret;
      key_hash = env.sha256 full_key;
    }

pub data KeyStatus : Type 0 where
  active revoked expired : KeyStatus

-- `x.getTime() < Date.now()` of a date that may be null
abbrev pub is_past : ℕ → Option ℕ → Bool
is_past now none = false
is_past now (some t) = ltb t now

-- `statusOf`
unfoldable pub status_of : ℕ → ApiKey → KeyStatus
status_of now key =
    if is_some key.revoked_at
    then revoked
    else if is_past now key.expires_at
    then expired
    else active

-- `toResponse`
pub record KeyView : Type 0 where
  pub id : ℕ
  pub name : String
  pub masked_key : String
  pub status : KeyStatus
  pub expires_at : Option ℕ
  pub revoked_at : Option ℕ
  pub last_used_at : Option ℕ
  pub usage_count : ℕ
  pub created_at : ℕ

unfoldable pub to_response : ℕ → ApiKey → KeyView
unfolding status_of
to_response now key = record {
  id = key.id;
  name = key.name;
  masked_key = text_append key.prefix (text_append "_••••••••" key.last4);
  status = status_of now key;
  expires_at = key.expires_at;
  revoked_at = key.revoked_at;
  last_used_at = key.last_used_at;
  usage_count = key.usage_count;
  created_at = key.created_at;
}

-- `dto.expiresInDays ? new Date(…) : null`; 0 counts as missing
abbrev pub expiry : ℕ → Option ℕ → Option ℕ
expiry now none = none
expiry now (some days) = if days == 0 then none else some (now + days * 24 * 60 * 60 * 1000)

pub record KeysState (orm : Orm) : Type 0 where
  pub apps_state : AppsState orm
  pub keys : orm.Table ApiKey

-- A key as it is issued.
abbrev pub issued : ℕ → ℕ → String → Generated → ℕ → ℕ → Option ℕ → ApiKey
issued id now name g app_id org_id expires_at = record {
  id = id;
  name = name;
  prefix = g.prefix;
  last4 = g.last4;
  key_hash = g.key_hash;
  application_id = app_id;
  organization_id = org_id;
  expires_at = expires_at;
  revoked_at = none;
  last_used_at = none;
  usage_count = 0;
  created_at = now;
}

abbrev pub is_key : ℕ → ℕ → ℕ → ApiKey → Bool
is_key org_id app_id key_id key =
    key.id == key_id && (key.application_id == app_id && key.organization_id == org_id)

abbrev pub has_hash : String → ApiKey → Bool
has_hash hash key = str_eq key.key_hash hash

module _ {orm : Orm} where
  abbrev pub save_key : ApiKey → KeysState orm → KeysState orm
  save_key key s = record s { keys = orm.save key s.keys }

  abbrev pub in_apps : {A : Type 0} → Action (AppsState orm) A → Action (KeysState orm) A
  in_apps = call (λ s. s.apps_state) (λ t s. record s { apps_state = t })

  -- `findKeyOrThrow`
  unfoldable pub find_key_or_throw : ℕ → ℕ → ℕ → Action (KeysState orm) ApiKey
  find_key_or_throw org_id app_id key_id = do
    key ← gets (λ s. orm.find_one (is_key org_id app_id key_id) s.keys)
    or_throw key (not_found "API key not found")

  module _ (env : KeyEnv) (now : ℕ) where
    -- `create`: the plaintext and the view
    unfoldable pub create :
        ℕ → ℕ → String → Option ℕ → (secret : String) → Action (KeysState orm) (String × KeyView)
    create org_id app_id name expires_in_days secret = do
      in_apps (find_one_or_throw org_id app_id)
      let g = generate env secret
      id ← gets (λ s. orm.fresh s.keys)
      let key : ApiKey = issued id now name g app_id org_id (expiry now expires_in_days)
      modify (save_key key)
      pure (g.full_key, to_response now key)

    -- `findOne`
    unfoldable pub find_one : ℕ → ℕ → ℕ → Action (KeysState orm) KeyView
    find_one org_id app_id key_id = do
      key ← find_key_or_throw org_id app_id key_id
      pure (to_response now key)

    -- `revoke`
    unfoldable pub revoke : ℕ → ℕ → ℕ → Action (KeysState orm) KeyView
    revoke org_id app_id key_id = do
      key ← find_key_or_throw org_id app_id key_id
      throw_if (is_some key.revoked_at) (bad_request "Key is already revoked")
      let dead : ApiKey = record key { revoked_at = some now }
      modify (save_key dead)
      pure (to_response now dead)

    -- `rotate`: the new plaintext, the old key and the view of the replacement
    unfoldable pub rotate :
        ℕ → ℕ → ℕ → (secret : String) → Action (KeysState orm) (String × ℕ × KeyView)
    rotate org_id app_id key_id secret = do
      old ← find_key_or_throw org_id app_id key_id
      throw_if (is_some old.revoked_at) (bad_request "Cannot rotate a revoked key")
      let g = generate env secret
      let dead : ApiKey = record old { revoked_at = some now }
      modify (save_key dead)
      id ← gets (λ s. orm.fresh s.keys)
      let replacement : ApiKey = issued id now old.name g app_id org_id old.expires_at
      modify (save_key replacement)
      pure (g.full_key, old.id, to_response now replacement)

    -- `findValidByPlaintext`
    unfoldable pub find_valid_by_plaintext : String → KeysState orm → Option ApiKey
    find_valid_by_plaintext full_key s =
        elim (orm.find_one (has_hash (env.sha256 full_key)) s.keys) [
          | none ↦ none
          | some key ↦
              if is_some key.revoked_at
              then none
              else if is_past now key.expires_at
              then none
              else some key
        ]

    -- `recordUsage`
    unfoldable pub record_usage : ApiKey → KeysState orm → KeysState orm
    record_usage key s = elim (orm.find_one (λ k. k.id == key.id) s.keys) [
      | none ↦ s
      | some row ↦
          save_key (record row { last_used_at = some now; usage_count = key.usage_count + 1 }) s
    ]
