-- ===== src/ApiKeys/Issue.antt =====
-- Issuing a key, at first or in place of another.
use developer_platform_backe.Prelude.{
  ℕ, String, ◌≡◌, refl, inl, inr, false, Option, none, some, arith, Option-cases,
}
use developer_platform_backe.Prelude.Action.{ok}
use developer_platform_backe.Orm.{Orm}
use developer_platform_backe.Applications.{application_entity, is_app, find_one_or_throw}
use developer_platform_backe.ApiKeys.{
  ApiKey, api_key_entity, KeyEnv, KeysState, KeyView, generate, issued, expiry, is_past,
  to_response, save_key, create, find_valid_by_plaintext,
}
use developer_platform_backe.ApiKeys.Validity.{HasUniqueHashes, find_valid_complete}
use developer_platform_backe.ApiKeys.Lifecycle.{IsNewHash, save_key-HasUniqueHashes}
use developer_platform_backe.Orm.Laws.{get-save_self}

pub generate-key_hash :
    (env : KeyEnv) (secret : String)
    → (generate env secret).key_hash ≡ env.sha256 (generate env secret).full_key
unfolding generate
generate-key_hash env secret = refl

module _ {orm : Orm} (env : KeyEnv) (s : KeysState orm) (new : ApiKey) (text : String)
    (fresh_id : orm.get new.id s.keys ≡ none) (fresh_hash : IsNewHash new.key_hash s)
    (unique : HasUniqueHashes s) (own_hash : new.key_hash ≡ env.sha256 text)
    (standing : new.revoked_at ≡ none) where
  pub saved-HasUniqueHashes : HasUniqueHashes (save_key new s)
  saved-HasUniqueHashes =
      save_key-HasUniqueHashes new s (λ x stored same. absurd (fresh_hash x stored same)) unique

  -- A new key is accepted by its plaintext as long as it has not expired.
  pub saved-accepted :
      (later : ℕ)
      → is_past later new.expires_at ≡ false
      → find_valid_by_plaintext env later text (save_key new s) ≡ some new
  saved-accepted later in_time =
      find_valid_complete env later text (save_key new s) new saved-HasUniqueHashes (record {
        stored = get-save_self orm new s.keys;
        hash = own_hash;
        standing = standing;
        fresh = in_time;
      })

  pub saved-others :
      (k : ℕ) (x : ApiKey) → orm.get k s.keys ≡ some x → orm.get k (save_key new s).keys ≡ some x
  saved-others k x stored = ground (arith, orm.get-save k new s.keys)

module _ {orm : Orm} (env : KeyEnv) (now org app : ℕ) (name : String) (days : Option ℕ)
    (secret : String) (s : KeysState orm) where
  abbrev created : ApiKey
  created = issued (orm.fresh s.keys) now name (generate env secret) app org (expiry now days)

  create-ok :
      (text : String) (view : KeyView)
      → (create env now org app name days secret s).0 ≡ ok (text, view)
      → (text ≡ (generate env secret).full_key)
        × (view ≡ to_response now created)
        × ((create env now org app name days secret s).1 ≡ save_key created s)
  unfolding create find_one_or_throw
  create-ok text view h = elim (Option-cases (orm.find_one (is_app org app) s.apps_state.apps)) [
    | inl unknown ↦ ground arith
    | inr (a, found) ↦ (ground arith, ground arith, ground arith)
  ]

  -- What issuing a key guarantees.
  pub record IsIssued (text : String) (view : KeyView) (s' : KeysState orm) : Type 0 where
    pub key : ApiKey
    pub view_of : view ≡ to_response now key
    pub owner : (key.organization_id ≡ org) × (key.application_id ≡ app) × (key.name ≡ name)
    pub lifetime : key.expires_at ≡ expiry now days
    pub accepted :
        (later : ℕ)
        → is_past later key.expires_at ≡ false
        → find_valid_by_plaintext env later text s' ≡ some key
    pub unique : HasUniqueHashes s'
    pub others : (k : ℕ) (x : ApiKey) → orm.get k s.keys ≡ some x → orm.get k s'.keys ≡ some x

  -- If the secret hashes to a value that no stored key has, a created key is accepted by the plaintext
  -- that the call returned, at any time until its expiry, for the application and organization of the
  -- call; the hashes stay unique and every other key stays as it was.
  pub create-IsIssued :
      (text : String) (view : KeyView)
      → HasUniqueHashes s
      → IsNewHash (generate env secret).key_hash s
      → (create env now org app name days secret s).0 ≡ ok (text, view)
      → IsIssued text view (create env now org app name days secret s).1
  create-IsIssued text view unique new h =
      let (same_text, same_view, after) = create-ok text view h in
      let id_free = orm.get-fresh s.keys in
      let own = generate-key_hash env secret in
      rw (after, same_text)
        (record {
          key = created;
          view_of = same_view;
          owner = (refl, refl, refl);
          lifetime = refl;
          accepted = λ later in_time.
              saved-accepted env s created (generate env secret).full_key id_free new unique own
                refl later in_time;
          unique =
              saved-HasUniqueHashes env s created (generate env secret).full_key id_free new unique
                own refl;
          others =
              saved-others env s created (generate env secret).full_key id_free new unique own refl;
        })
