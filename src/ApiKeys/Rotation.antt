-- ===== src/ApiKeys/Rotation.antt =====
-- Rotating a key, and the status that a key is shown with.
use developer_platform_backe.Prelude.{
  ℕ, String, ◌≡◌, refl, ◌≢◌, ◌↔◌, inl, inr, false, none, some, arith, Option-cases,
}
use developer_platform_backe.Prelude.Action.{ok}
use developer_platform_backe.Orm.{Orm}
use developer_platform_backe.ApiKeys.{
  ApiKey, api_key_entity, KeyEnv, KeysState, KeyView, active, generate, issued, is_key, is_past,
  to_response, save_key, find_key_or_throw, rotate, find_valid_by_plaintext,
}
use developer_platform_backe.ApiKeys.Validity.{
  HasUniqueHashes, find_valid_sound, find_valid_by_plaintext_iff,
}
use developer_platform_backe.ApiKeys.Lifecycle.{IsNewHash, save_key-HasUniqueHashes}
use developer_platform_backe.ApiKeys.Issue.{
  generate-key_hash, saved-HasUniqueHashes, saved-accepted,
}

module _ {orm : Orm} (env : KeyEnv) (now org app id : ℕ) (secret : String) (s : KeysState orm) where
  abbrev dead : ApiKey → ApiKey
  dead key = record key { revoked_at = some now }

  abbrev replacement : ApiKey → ApiKey
  replacement key =
      issued (orm.fresh (orm.save (dead key) s.keys)) now key.name (generate env secret) app org
        key.expires_at

  record IsFound (key : ApiKey) : Type 0 where
    stored : orm.get key.id s.keys ≡ some key
    same_id : key.id ≡ id
    same_app : key.application_id ≡ app
    same_org : key.organization_id ≡ org
    standing : key.revoked_at ≡ none

  rotate-ok :
      (text : String) (old : ℕ) (view : KeyView)
      → (rotate env now org app id secret s).0 ≡ ok (text, old, view)
      → (key : ApiKey) × IsFound key
        × (text ≡ (generate env secret).full_key)
        × ((rotate env now org app id secret s).1
            ≡ save_key (replacement key) (save_key (dead key) s))
  unfolding rotate find_key_or_throw
  rotate-ok text old view h = elim (Option-cases (orm.find_one (is_key org app id) s.keys)) [
    | inl unknown ↦ ground arith
    | inr (key, found) ↦
        let (same, stored) = orm.find_one_sound (is_key org app id) s.keys key found in
        (
          key,
          record {
            stored = stored;
            same_id = ground arith;
            same_app = ground arith;
            same_org = ground arith;
            standing = ground arith;
          },
          ground arith,
          ground arith,
        )
  ]

  -- What a rotation guarantees.
  pub record IsRotated (text : String) (s' : KeysState orm) : Type 0 where
    pub old : ApiKey
    pub owned :
        (orm.get id s.keys ≡ some old) × (old.application_id ≡ app) × (old.organization_id ≡ org)
    pub rejected :
        (later : ℕ) (any_text : String) (key : ApiKey)
        → find_valid_by_plaintext env later any_text s' ≡ some key
        → key.id ≢ id
    pub new : ApiKey
    pub carried_over :
        (new.name ≡ old.name)
        × (new.expires_at ≡ old.expires_at)
        × (new.application_id ≡ app)
        × (new.organization_id ≡ org)
    pub accepted :
        (later : ℕ)
        → is_past later old.expires_at ≡ false
        → find_valid_by_plaintext env later text s' ≡ some new
    pub unique : HasUniqueHashes s'

  dead-IsNewHash :
      (key : ApiKey)
      → orm.get key.id s.keys ≡ some key
      → IsNewHash (generate env secret).key_hash s
      → IsNewHash (generate env secret).key_hash (save_key (dead key) s)
  dead-IsNewHash key stored new x there =
      ground (arith, orm.get-save x.id (dead key) s.keys, new x, new key stored)

  dead-HasUniqueHashes :
      (key : ApiKey)
      → orm.get key.id s.keys ≡ some key
      → HasUniqueHashes s
      → HasUniqueHashes (save_key (dead key) s)
  dead-HasUniqueHashes key stored unique =
      save_key-HasUniqueHashes (dead key) s (λ x there same. unique x key there stored same) unique

  rejected_after :
      (key : ApiKey) (later : ℕ) (text : String) (x : ApiKey)
      → orm.get key.id s.keys ≡ some key
      → find_valid_by_plaintext env later text (save_key (replacement key) (save_key (dead key) s))
        ≡ some x
      → x.id ≢ key.id
  rejected_after key later text x stored accepted e =
      let v =
        find_valid_sound env later text (save_key (replacement key) (save_key (dead key) s)) x
          accepted in
      ground (
        arith,
        orm.get-save x.id (replacement key) (orm.save (dead key) s.keys),
        orm.get-save x.id (dead key) s.keys,
        orm.get-fresh (orm.save (dead key) s.keys),
        orm.get-save (orm.fresh (orm.save (dead key) s.keys)) (dead key) s.keys,
        v.stored,
        v.standing,
      )

  rotated :
      (key : ApiKey)
      → IsFound key
      → HasUniqueHashes s
      → IsNewHash (generate env secret).key_hash s
      → IsRotated
          (generate env secret).full_key
          (save_key (replacement key) (save_key (dead key) s))
  rotated key f unique new =
      let text : String = (generate env secret).full_key in
      let s1 : KeysState orm = save_key (dead key) s in
      let id_free = orm.get-fresh s1.keys in
      let new' = dead-IsNewHash key f.stored new in
      let unique' = dead-HasUniqueHashes key f.stored unique in
      let own = generate-key_hash env secret in
      record {
        old = key;
        owned = (rw (← f.same_id) (f.stored), f.same_app, f.same_org);
        rejected = λ later any_text x accepted.
            rw (← f.same_id) (rejected_after key later any_text x f.stored accepted);
        new = replacement key;
        carried_over = (refl, refl, refl, refl);
        accepted = saved-accepted env s1 (replacement key) text id_free new' unique' own refl;
        unique = saved-HasUniqueHashes env s1 (replacement key) text id_free new' unique' own refl;
      }

  -- If the secret hashes to a value that no stored key has, then after a successful rotation the old
  -- key, which belonged to the application and organization of the call, is never accepted again, by
  -- any plaintext; the returned plaintext is accepted until the old key's expiry, with a key of the
  -- same name and expiry; and the hashes stay unique.
  pub rotate-IsRotated :
      (text : String) (old : ℕ) (view : KeyView)
      → HasUniqueHashes s
      → IsNewHash (generate env secret).key_hash s
      → (rotate env now org app id secret s).0 ≡ ok (text, old, view)
      → IsRotated text (rotate env now org app id secret s).1
  rotate-IsRotated text old view unique new h =
      let (key, f, same_text, after) = rotate-ok text old view h in
      rw (after, same_text) (rotated key f unique new)

module _ {orm : Orm} (env : KeyEnv) where
  -- Of a stored key the management API shows the status active exactly when the gateway would accept
  -- a plaintext with that key's hash at that moment, if the stored hashes are unique.
  pub status-eq-active_iff :
      (now : ℕ) (text : String) (s : KeysState orm) (key : ApiKey)
      → HasUniqueHashes s
      → orm.get key.id s.keys ≡ some key
      → key.key_hash ≡ env.sha256 text
      → ((to_response now key).status ≡ active)
        ↔ (find_valid_by_plaintext env now text s ≡ some key)
  unfolding to_response
  status-eq-active_iff now text s key unique stored hash =
      let (sound, complete) = find_valid_by_plaintext_iff env now text s key unique in
      (
        λ shown. complete (record {
          stored = stored;
          hash = hash;
          standing = ground arith;
          fresh = ground arith;
        }),
        λ accepted. let v = sound accepted in ground (arith, v.standing, v.fresh),
      )
