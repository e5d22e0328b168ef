-- ===== src/ApiKeys/Lifecycle.antt =====
-- From issue to revocation: what creating, revoking, rotating and using a key does to the lookups that
-- come after it.
use developer_platform_backe.Prelude.{
  ℕ, String, ◌≡◌, ◌≢◌, inl, inr, none, some, arith, Option-cases,
}
use developer_platform_backe.Prelude.Action.{ok}
use developer_platform_backe.Orm.{Orm}
use developer_platform_backe.ApiKeys.{
  ApiKey, api_key_entity, KeyEnv, KeysState, KeyView, is_key, save_key, find_key_or_throw, revoke,
  find_valid_by_plaintext,
}
use developer_platform_backe.ApiKeys.Validity.{HasUniqueHashes, find_valid_sound}

module _ {orm : Orm} where
  -- The random secret gives a hash that no stored key has.
  abbrev pub IsNewHash : String → KeysState orm → Type 0
  IsNewHash hash s = (x : ApiKey) → orm.get x.id s.keys ≡ some x → x.key_hash ≢ hash

  -- A key that is saved over itself keeps its hash, and a new one has a new hash.
  pub save_key-HasUniqueHashes :
      (n : ApiKey) (s : KeysState orm)
      → ((x : ApiKey) → orm.get x.id s.keys ≡ some x → x.key_hash ≡ n.key_hash → x.id ≡ n.id)
      → HasUniqueHashes s
      → HasUniqueHashes (save_key n s)
  save_key-HasUniqueHashes n s fits unique a b ga gb same =
      ground
        (arith, orm.get-save a.id n s.keys, orm.get-save b.id n s.keys, fits a, fits b, unique a b)

module _ {orm : Orm} (env : KeyEnv) (now org app id : ℕ) (s : KeysState orm) where
  dead : ApiKey → ApiKey
  dead key = record key { revoked_at = some now }

  revoke-ok :
      (view : KeyView)
      → (revoke env now org app id s).0 ≡ ok view
      → (key : ApiKey) × (orm.get id s.keys ≡ some key)
        × (key.id ≡ id)
        × (key.application_id ≡ app)
        × (key.organization_id ≡ org)
        × (key.revoked_at ≡ none)
        × ((revoke env now org app id s).1 ≡ save_key (dead key) s)
  unfolding revoke find_key_or_throw dead
  revoke-ok view h = elim (Option-cases (orm.find_one (is_key org app id) s.keys)) [
    | inl unknown ↦ ground arith
    | inr (key, found) ↦
        let (same, stored) = orm.find_one_sound (is_key org app id) s.keys key found in
        (key, ground arith, ground arith, ground arith, ground arith, ground arith, ground arith)
  ]

  -- What a revocation guarantees.
  pub record IsRevoked (s' : KeysState orm) : Type 0 where
    pub owned :
        (key : ApiKey) × (orm.get id s.keys ≡ some key)
        × (key.application_id ≡ app)
        × (key.organization_id ≡ org)
    pub rejected :
        (later : ℕ) (text : String) (key : ApiKey)
        → find_valid_by_plaintext env later text s' ≡ some key
        → key.id ≢ id
    pub others : (k : ℕ) → k ≢ id → orm.get k s'.keys ≡ orm.get k s.keys

  -- After a successful revocation no plaintext is ever accepted with that key again; the key belonged
  -- to the application and organization of the call, and no other key changed.
  pub revoke-IsRevoked :
      (view : KeyView)
      → (revoke env now org app id s).0 ≡ ok view
      → IsRevoked (revoke env now org app id s).1
  unfolding dead
  revoke-IsRevoked view h =
      let (key, stored, same_id, same_app, same_org, standing, after) = revoke-ok view h in
      rw after (record {
        owned = (key, stored, same_app, same_org);
        rejected = λ later text x accepted e.
            let v = find_valid_sound env later text (save_key (dead key) s) x accepted in
            ground (arith, orm.get-save x.id (dead key) s.keys, v.stored, v.standing);
        others = λ k ne. ground (arith, orm.get-save k (dead key) s.keys);
      })
