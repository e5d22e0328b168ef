-- ===== src/ApiKeys/Validity.antt =====
-- Which plaintexts are accepted, and what a request with an accepted one does.
use developer_platform_backe.Prelude.{
  ℕ, String, ◌≡◌, sym, ◌∙◌, ◌↔◌, inl, inr, false, none, some, arith, Option-cases,
}
use developer_platform_backe.Orm.{Orm}
use text.Mathlib.TextEquality.{eq_iff}
use developer_platform_backe.ApiKeys.{
  ApiKey, api_key_entity, KeyEnv, KeysState, is_past, has_hash, find_valid_by_plaintext,
}
use developer_platform_backe.Orm.Laws.{find_one-eq-some}

module _ {orm : Orm} where
  -- No two keys with one hash (the unique index of the table).
  abbrev pub HasUniqueHashes : KeysState orm → Type 0
  HasUniqueHashes s =
      (a b : ApiKey)
      → orm.get a.id s.keys ≡ some a
      → orm.get b.id s.keys ≡ some b
      → a.key_hash ≡ b.key_hash
      → a.id ≡ b.id

module _ {orm : Orm} (env : KeyEnv) where
  -- The key is stored, carries the hash of the text, and is neither revoked nor past its expiry.
  pub record IsValidFor (now : ℕ) (text : String) (s : KeysState orm) (key : ApiKey) : Type 0 where
    pub stored : orm.get key.id s.keys ≡ some key
    pub hash : key.key_hash ≡ env.sha256 text
    pub standing : key.revoked_at ≡ none
    pub fresh : is_past now key.expires_at ≡ false

  pub find_valid_sound :
      (now : ℕ) (text : String) (s : KeysState orm) (key : ApiKey)
      → find_valid_by_plaintext env now text s ≡ some key
      → IsValidFor now text s key
  unfolding find_valid_by_plaintext
  find_valid_sound now text s key h =
      elim (Option-cases (orm.find_one (has_hash (env.sha256 text)) s.keys)) [
        | inl unknown ↦ ground arith
        | inr (k, found) ↦
            let (same, stored) = orm.find_one_sound (has_hash (env.sha256 text)) s.keys k found in
            let hash = (eq_iff k.key_hash (env.sha256 text)).0 same in
            record {
              stored = ground arith;
              hash = ground arith;
              standing = ground arith;
              fresh = ground arith;
            }
      ]

  pub find_valid_complete :
      (now : ℕ) (text : String) (s : KeysState orm) (key : ApiKey)
      → HasUniqueHashes s
      → IsValidFor now text s key
      → find_valid_by_plaintext env now text s ≡ some key
  unfolding find_valid_by_plaintext
  find_valid_complete now text s key unique v =
      let found =
        find_one-eq-some orm (has_hash (env.sha256 text)) s.keys key.id key v.stored
          ((eq_iff key.key_hash (env.sha256 text)).1 v.hash)
          (λ x same there.
            unique x key there v.stored
              ((eq_iff x.key_hash (env.sha256 text)).0 same ∙ sym v.hash)) in
      ground (arith, v.standing, v.fresh)

  -- With unique hashes stored, a plaintext is accepted with a key exactly when that key is stored,
  -- has the hash of the text, and is neither revoked nor expired.
  pub find_valid_by_plaintext_iff :
      (now : ℕ) (text : String) (s : KeysState orm) (key : ApiKey)
      → HasUniqueHashes s
      → (find_valid_by_plaintext env now text s ≡ some key) ↔ IsValidFor now text s key
  find_valid_by_plaintext_iff now text s key unique =
      (find_valid_sound now text s key, find_valid_complete now text s key unique)
