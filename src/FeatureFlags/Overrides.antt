-- ===== src/FeatureFlags/Overrides.antt =====
-- Setting a flag, and what is enabled afterwards.
use developer_platform_backe.Orm.Laws.{find_one-eq-some}
use developer_platform_backe.Prelude.{
  ℕ, String, ◌≡◌, refl, sym, ◌∙◌, inl, inr, Bool, true, none, some, arith, Option-cases,
}
use developer_platform_backe.Prelude.Action.{ok}
use developer_platform_backe.Orm.{Orm}
use text.Mathlib.Text.{◌==◌ as str_eq}
use text.Mathlib.TextEquality.{eq_iff}
use developer_platform_backe.FeatureFlags.{
  flag_entity, FlagState, is_enabled, FeatureFlag, is_flag, default_of, flag_after,
}

module _ {orm : Orm} where
  -- One row for a flag of an organization (the unique index of the table).
  abbrev pub HasUniqueFlags : FlagState orm → Type 0
  HasUniqueFlags s =
      (a b : FeatureFlag)
      → orm.get a.id s.flags ≡ some a
      → orm.get b.id s.flags ≡ some b
      → a.organization_id ≡ b.organization_id
      → a.key ≡ b.key
      → a.id ≡ b.id

  -- `isEnabled` as a value, since it only reads.
  abbrev pub enabled_in : ℕ → String → FlagState orm → Bool
  enabled_in org key s = elim (orm.find_one (is_flag org key) s.flags) [
    | some f ↦ f.enabled
    | none ↦ default_of key
  ]

  pub is_enabled-enabled_in :
      (org : ℕ) (key : String) (s : FlagState orm)
      → is_enabled org key s ≡ (ok (enabled_in org key s), s)
  unfolding is_enabled
  is_enabled-enabled_in org key s = refl

  -- The row that `set` saves.
  abbrev pub next_flag : ℕ → String → Bool → FlagState orm → FeatureFlag
  next_flag org key enabled s =
      flag_after (orm.find_one (is_flag org key) s.flags) (orm.fresh s.flags) org key enabled

  -- A found row is stored, and is for the flag and the organization.
  pub found-IsFor :
      (org : ℕ) (key : String) (s : FlagState orm) (f : FeatureFlag)
      → orm.find_one (is_flag org key) s.flags ≡ some f
      → (orm.get f.id s.flags ≡ some f) × (f.organization_id ≡ org) × (f.key ≡ key)
  found-IsFor org key s f found =
      let (holds, stored) = orm.find_one_sound (is_flag org key) s.flags f found in
      let same : str_eq f.key key ≡ true = ground arith in
      (stored, ground arith, (eq_iff f.key key).0 same)

  -- A stored row for the flag and the organization is the one that is found.
  pub find-stored :
      (o : ℕ) (k : String) (s : FlagState orm) (f : FeatureFlag)
      → HasUniqueFlags s
      → orm.get f.id s.flags ≡ some f
      → f.organization_id ≡ o
      → f.key ≡ k
      → orm.find_one (is_flag o k) s.flags ≡ some f
  find-stored o k s f unique stored org_is key_is =
      find_one-eq-some orm (is_flag o k) s.flags f.id f stored
        (ground (arith, (eq_iff f.key k).1 key_is))
        (λ x holds there.
          let same : str_eq x.key k ≡ true = ground arith in
          unique x f there stored (ground arith) ((eq_iff x.key k).0 same ∙ sym key_is))

  pub enabled-found :
      (o : ℕ) (k : String) (s : FlagState orm) (f : FeatureFlag)
      → orm.find_one (is_flag o k) s.flags ≡ some f
      → enabled_in o k s ≡ f.enabled
  enabled-found o k s f h = rw (h, enabled_in) refl

  pub enabled-missing :
      (o : ℕ) (k : String) (s : FlagState orm)
      → orm.find_one (is_flag o k) s.flags ≡ none
      → enabled_in o k s ≡ default_of k
  enabled-missing o k s h = rw (h, enabled_in) refl

  module _ (org : ℕ) (key : String) (enabled : Bool) (s : FlagState orm) where
    abbrev pub after : FlagState orm
    after = record s { flags = orm.save (next_flag org key enabled s) s.flags }

    pub next_flag-organization_id : (next_flag org key enabled s).organization_id ≡ org
    next_flag-organization_id = elim (Option-cases (orm.find_one (is_flag org key) s.flags)) [
      | inl absent ↦ rw absent refl
      | inr (f, found) ↦ rw found (found-IsFor org key s f found).1
    ]

    pub next_flag-key : (next_flag org key enabled s).key ≡ key
    next_flag-key = elim (Option-cases (orm.find_one (is_flag org key) s.flags)) [
      | inl absent ↦ rw absent refl
      | inr (f, found) ↦ rw found (found-IsFor org key s f found).2
    ]

    pub next_flag-enabled : (next_flag org key enabled s).enabled ≡ enabled
    next_flag-enabled = elim (Option-cases (orm.find_one (is_flag org key) s.flags)) [
      | inl absent ↦ rw absent refl
      | inr (f, found) ↦ rw found refl
    ]

    -- A stored row of the flag is the one that is saved over.
    next_flag-id :
        (x : FeatureFlag)
        → HasUniqueFlags s
        → orm.get x.id s.flags ≡ some x
        → x.organization_id ≡ org
        → x.key ≡ key
        → x.id ≡ (next_flag org key enabled s).id
    next_flag-id x unique stored same_org same_key =
        elim (Option-cases (orm.find_one (is_flag org key) s.flags)) [
          | inl absent ↦ ground (
            arith,
            orm.find_one_none (is_flag org key) s.flags x.id x absent stored,
            (eq_iff x.key key).1 same_key,
          )
          | inr (f, found) ↦
              let (there, org_is, key_is) = found-IsFor org key s f found in
              rw found (unique x f stored there (same_org ∙ sym org_is) (same_key ∙ sym key_is))
        ]

    -- Setting a flag keeps one row for each flag of an organization.
    pub after-HasUniqueFlags : HasUniqueFlags s → HasUniqueFlags after
    after-HasUniqueFlags unique a b ga gb same_org same_key =
        let n : FeatureFlag = next_flag org key enabled s in
        ground (
          arith,
          orm.get-save a.id n s.flags,
          orm.get-save b.id n s.flags,
          next_flag-id a unique,
          next_flag-id b unique,
          next_flag-organization_id,
          next_flag-key,
          unique a b,
        )
