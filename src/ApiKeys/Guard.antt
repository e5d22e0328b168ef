-- ===== src/ApiKeys/Guard.antt =====
-- api-keys/guards/api-key.guard.ts: the authentication of a client application.
use developer_platform_backe.Prelude.{ℕ, String, Option, none, some, List, [], ◌∷◌, if◌then◌else◌}
use developer_platform_backe.Prelude.Action.{
  unauthorized, Action, pure, gets, or_throw, ◌>>=◌, ◌>>◌, modify,
}
use developer_platform_backe.Orm.{Orm}
use text.Mathlib.Text.{◌==◌ as str_eq}
use developer_platform_backe.ApiKeys.{
  ApiKey, KeyEnv, KeysState, find_valid_by_plaintext, record_usage,
}

-- The header `x-api-key`: missing, a text, or several texts.
pub data Header : Type 0 where
  missing : Header
  single : String → Header
  several : List String → Header

-- `Array.isArray(raw) ? raw[0] : raw`
unfoldable pub presented : Header → Option String
presented missing = none
presented (single t) = some t
presented (several []) = none
presented (several (t ∷ ts)) = some t

-- An empty text counts as missing.
abbrev pub non_empty : Option String → Option String
non_empty none = none
non_empty (some t) = if str_eq t "" then none else some t

-- api-keys/api-key-context.interface.ts
pub record ApiKeyContext : Type 0 where
  pub key_id : ℕ
  pub application_id : ℕ
  pub organization_id : ℕ

abbrev pub context_of : ApiKey → ApiKeyContext
context_of key = record {
  key_id = key.id;
  application_id = key.application_id;
  organization_id = key.organization_id;
}

module _ {orm : Orm} (env : KeyEnv) (now : ℕ) where
  -- `canActivate`, with the context that it attaches to the request
  unfoldable pub can_activate : Header → Action (KeysState orm) ApiKeyContext
  unfolding presented
  can_activate raw = do
    text ← or_throw (non_empty (presented raw)) (unauthorized "Missing API key")
    found ← gets (find_valid_by_plaintext env now text)
    key ← or_throw found (unauthorized "Invalid or inactive API key")
    modify (record_usage env now key)
    pure (context_of key)
