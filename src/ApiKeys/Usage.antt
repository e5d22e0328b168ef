-- ===== src/ApiKeys/Usage.antt =====
-- Authenticating a request by its key.
use developer_platform_backe.Prelude.{
  ℕ, ◌+◌, String, ◌≡◌, refl, ◌≢◌, inl, inr, Option, none, some, arith, ◌==◌, Option-cases,
}
use developer_platform_backe.Prelude.Action.{ok}
use developer_platform_backe.Orm.{Orm}
use developer_platform_backe.ApiKeys.{
  ApiKey, api_key_entity, KeyEnv, KeysState, find_valid_by_plaintext, record_usage, save_key,
}
use developer_platform_backe.ApiKeys.Guard.{
  Header, presented, non_empty, ApiKeyContext, context_of, can_activate,
}
use developer_platform_backe.ApiKeys.Validity.{IsValidFor, find_valid_sound}
use developer_platform_backe.Orm.Laws.{find_one-eq-some}

module _ {orm : Orm} (env : KeyEnv) (now : ℕ) (raw : Header) (s : KeysState orm) where
  abbrev used : ApiKey → ApiKey
  used key = record key { last_used_at = some now; usage_count = key.usage_count + 1 }

  -- The request carries the plaintext of a valid key; the key's use is recorded and nothing else.
  pub record IsAuthenticated (context : ApiKeyContext) (s' : KeysState orm) : Type 0 where
    pub text : String
    pub carried : presented raw ≡ some text
    pub key : ApiKey
    pub valid : IsValidFor env now text s key
    pub identity : context ≡ context_of key
    pub recorded : orm.get key.id s'.keys ≡ some (used key)
    pub others : (k : ℕ) → k ≢ key.id → orm.get k s'.keys ≡ orm.get k s.keys
    pub apps : s'.apps_state ≡ s.apps_state

  record_usage-stored :
      (key : ApiKey)
      → orm.get key.id s.keys ≡ some key
      → record_usage env now key s ≡ save_key (used key) s
  unfolding record_usage
  record_usage-stored key stored =
      let found =
        find_one-eq-some orm (λ k. k.id == key.id) s.keys key.id key stored (ground arith)
          (λ x same there. ground arith) in
      ground arith

  authenticated :
      (text : String) (key : ApiKey)
      → presented raw ≡ some text
      → IsValidFor env now text s key
      → IsAuthenticated (context_of key) (record_usage env now key s)
  authenticated text key carried valid = rw (record_usage-stored key valid.stored) (record {
    text = text;
    carried = carried;
    key = key;
    valid = valid;
    identity = refl;
    recorded = ground (arith, orm.get-save key.id (used key) s.keys);
    others = λ k ne. ground (arith, orm.get-save k (used key) s.keys);
    apps = refl;
  })

  non_empty-some : (o : Option String) (t : String) → non_empty o ≡ some t → o ≡ some t
  non_empty-some none t h = cc
  non_empty-some (some u) t h = ground arith

  -- A request that the guard passes carries the plaintext of a stored key that is neither revoked nor
  -- expired; it is given that key's identity, the use is counted, and nothing else is written.
  pub can_activate-IsAuthenticated :
      (context : ApiKeyContext)
      → (can_activate env now raw s).0 ≡ ok context
      → IsAuthenticated context (can_activate env now raw s).1
  unfolding can_activate
  can_activate-IsAuthenticated context h = elim (Option-cases (non_empty (presented raw))) [
    | inl absent ↦ ground arith
    | inr (text, carried) ↦ elim (Option-cases (find_valid_by_plaintext env now text s)) [
      | inl rejected ↦ ground arith
      | inr (key, found) ↦
          let same : context_of key ≡ context = ground arith in
          rw (carried, found, ← same)
            (authenticated text key (non_empty-some (presented raw) text carried)
              (find_valid_sound env now text s key found))
    ]
  ]
