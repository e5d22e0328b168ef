-- ===== src/FeatureFlags/Setting.antt =====
-- What a set flag leaves for every flag.
use developer_platform_backe.FeatureFlags.Overrides.{
  enabled_in, next_flag, HasUniqueFlags, after, found-IsFor, enabled-found,
  next_flag-organization_id, enabled-missing, after-HasUniqueFlags, find-stored, next_flag-key,
  next_flag-enabled,
}
use mathlib.Core.Path.{subst}
use developer_platform_backe.Orm.Laws.{get-save_self, find_one-eq-none, get-save_ne}
use developer_platform_backe.Prelude.{
  ℕ, String, ◌≡◌, sym, ◌∙◌, inl, inr, Bool, false, none, some, arith, Bool-cases, Option-cases,
}
use developer_platform_backe.Prelude.Action.{ok}
use developer_platform_backe.Orm.{Orm}
use text.Mathlib.TextEquality.{eq_iff}
use developer_platform_backe.FeatureFlags.{flag_entity, FlagState, FeatureFlag, is_flag, set}

module _ {orm : Orm} where
  module _ (org : ℕ) (key : String) (enabled : Bool) (s : FlagState orm) where
    -- Once set, a flag is as it was set, and every other flag is as before.
    pub record IsFlagSet (s' : FlagState orm) : Type 0 where
      pub now : enabled_in org key s' ≡ enabled
      pub others :
          (o : ℕ) (k : String) → (o ≡ org → k ≡ key → ⊥) → enabled_in o k s' ≡ enabled_in o k s
      pub stays_unique : HasUniqueFlags s'

    -- A row under the id that is saved to was for the flag.
    overwritten :
        (f : FeatureFlag)
        → orm.get (next_flag org key enabled s).id s.flags ≡ some f
        → (f.organization_id ≡ org) × (f.key ≡ key)
    overwritten f = elim (Option-cases (orm.find_one (is_flag org key) s.flags)) [
      | inl absent ↦ rw absent (λ stored. ground (arith, orm.get-fresh s.flags))
      | inr (g, found) ↦
          let (there, org_is, key_is) = found-IsFor org key s g found in
          rw found (λ stored. ground (arith, there, org_is, key_is))
    ]

    now-set : HasUniqueFlags s → enabled_in org key (after org key enabled s) ≡ enabled
    now-set unique =
        let n : FeatureFlag = next_flag org key enabled s in
        enabled-found org key (after org key enabled s) n (
          find-stored org key (after org key enabled s) n
            (after-HasUniqueFlags org key enabled s unique) (get-save_self orm n s.flags)
            (next_flag-organization_id org key enabled s) (next_flag-key org key enabled s))
        ∙ next_flag-enabled org key enabled s

    -- A row of another flag is not overwritten.
    still_there :
        (o : ℕ) (k : String)
        → (o ≡ org → k ≡ key → ⊥)
        → (f : FeatureFlag) → orm.get f.id s.flags ≡ some f
        → f.organization_id ≡ o
        → f.key ≡ k
        → orm.get f.id (after org key enabled s).flags ≡ some f
    still_there o k other f there org_is key_is =
        let n : FeatureFlag = next_flag org key enabled s in
        let distinct : f.id ≡ n.id → ⊥ = λ e.
          let (a, b) = overwritten f (subst (λ j. orm.get j s.flags ≡ some f) e there) in
          other (sym org_is ∙ a) (sym key_is ∙ b) in
        get-save_ne orm f.id n s.flags distinct ∙ there

    -- The saved row is for no other flag.
    not_for :
        HasUniqueFlags s
        → (o : ℕ) (k : String) → (o ≡ org → k ≡ key → ⊥)
        → (x : FeatureFlag) → orm.find_one (is_flag o k) s.flags ≡ none
        → orm.get x.id (after org key enabled s).flags ≡ some x
        → is_flag o k x ≡ false
    not_for unique o k other x absent stored =
        let n : FeatureFlag = next_flag org key enabled s in
        elim (Bool-cases (is_flag o k x)) [
          | inr fails ↦ fails
          | inl meets ↦
              let same_key : x.key ≡ k = (eq_iff x.key k).0 (ground arith) in
              let same_org : x.organization_id ≡ o = ground arith in
              ground (
                arith,
                orm.get-save x.id n s.flags,
                orm.find_one_none (is_flag o k) s.flags x.id x absent,
                next_flag-organization_id org key enabled s,
                next_flag-key org key enabled s,
                other,
              )
        ]

    others-kept :
        HasUniqueFlags s
        → (o : ℕ) (k : String) → (o ≡ org → k ≡ key → ⊥)
        → enabled_in o k (after org key enabled s) ≡ enabled_in o k s
    others-kept unique o k other =
        let n : FeatureFlag = next_flag org key enabled s in
        elim (Option-cases (orm.find_one (is_flag o k) s.flags)) [
          | inl absent ↦
              enabled-missing o k (after org key enabled s) (
                find_one-eq-none orm (is_flag o k) (orm.save n s.flags)
                  (λ x stored. not_for unique o k other x absent stored))
              ∙ sym (enabled-missing o k s absent)
          | inr (f, found) ↦
              let (there, org_is, key_is) = found-IsFor o k s f found in
              enabled-found o k (after org key enabled s) f (
                find-stored o k (after org key enabled s) f
                  (after-HasUniqueFlags org key enabled s unique)
                  (still_there o k other f there org_is key_is) org_is key_is)
              ∙ sym (enabled-found o k s f found)
        ]

    -- Once a flag is set, it is as it was set, every other flag of every organization is as before, and
    -- there is still one row for each.
    pub set-IsFlagSet :
        (inherited : String → Bool)
        → HasUniqueFlags s
        → (set inherited org key enabled s).0 ≡ ok (key, enabled)
        → IsFlagSet (set inherited org key enabled s).1
    unfolding set
    set-IsFlagSet inherited unique done =
        let same : set inherited org key enabled s
            ≡ (ok (key, enabled), (after org key enabled s)) =
          ground arith in
        rw same (record {
          now = now-set unique;
          others = others-kept unique;
          stays_unique = after-HasUniqueFlags org key enabled s unique;
        })
