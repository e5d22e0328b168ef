-- ===== src/FeatureFlags/Refinement.antt =====
-- The service against the map that it stands for: which flags are on for which organization.
use developer_platform_backe.FeatureFlags.Setting.{set-IsFlagSet}
use developer_platform_backe.FeatureFlags.Overrides.{
  enabled_in, HasUniqueFlags, is_enabled-enabled_in,
}
use mathlib.Core.Path.{fun_ext}
use developer_platform_backe.FeatureFlags.{set, is_known_flag, FlagState, is_enabled}
use developer_platform_backe.Prelude.{
  ℕ, String, ◌≡◌, refl, ap, ◌∙◌, inl, inr, Bool, true, false, ◌&&◌, List, [], ◌∷◌, arith, ◌==◌,
  if◌then◌else◌, Bool-cases,
}
use developer_platform_backe.Prelude.Action.{ok}
use developer_platform_backe.Orm.{Orm}
use text.Mathlib.Text.{◌==◌ as str_eq}
use text.Mathlib.TextEquality.{eq_iff}

-- For each organization and key, whether the flag is on.
abbrev pub FlagMap : Type 0
FlagMap = ℕ → String → Bool

-- One call of `set`
pub record Setting : Type 0 where
  pub organization_id : ℕ
  pub key : String
  pub enabled : Bool

-- What a setting means for the map: a key that is not known is refused.
abbrev pub put : (inherited : String → Bool) → Setting → FlagMap → FlagMap
put inherited c flags org key =
    if is_known_flag inherited c.key && (org == c.organization_id && str_eq key c.key)
    then c.enabled
    else flags org key

abbrev pub put_all : (inherited : String → Bool) → List Setting → FlagMap → FlagMap
put_all inherited [] flags = flags
put_all inherited (c ∷ cs) flags = put_all inherited cs (put inherited c flags)

module _ {orm : Orm} where
  -- The calls of `set`, in order; those that throw change nothing.
  abbrev pub set_all : (inherited : String → Bool) → List Setting → FlagState orm → FlagState orm
  set_all inherited [] s = s
  set_all inherited (c ∷ cs) s =
      set_all inherited cs (set inherited c.organization_id c.key c.enabled s).1

  -- The map that a table stands for.
  abbrev pub map_of : FlagState orm → FlagMap
  map_of s org key = enabled_in org key s

  set-unknown :
      (inherited : String → Bool) (c : Setting) (s : FlagState orm)
      → is_known_flag inherited c.key ≡ false
      → (set inherited c.organization_id c.key c.enabled s).1 ≡ s
  unfolding set
  set-unknown inherited c s unknown = ground (arith, unknown)

  set-known :
      (inherited : String → Bool) (c : Setting) (s : FlagState orm)
      → is_known_flag inherited c.key ≡ true
      → (set inherited c.organization_id c.key c.enabled s).0 ≡ ok (c.key, c.enabled)
  unfolding set
  set-known inherited c s known = ground (arith, known)

  -- After a setting the table stands for the map with that setting.
  set-put :
      (inherited : String → Bool) (c : Setting) (s : FlagState orm)
      → HasUniqueFlags s
      → let s' = (set inherited c.organization_id c.key c.enabled s).1 in
        (map_of s' ≡ put inherited c (map_of s)) × HasUniqueFlags s'
  set-put inherited c s unique = elim (Bool-cases (is_known_flag inherited c.key)) [
    | inr unknown ↦
        rw (set-unknown inherited c s unknown)
          (fun_ext (λ org. fun_ext (λ key. rw unknown refl)), unique)
    | inl known ↦
        let after_set =
          set-IsFlagSet c.organization_id c.key c.enabled s inherited unique
            (set-known inherited c s known) in
        (
          fun_ext (λ org. fun_ext (λ key.
              elim (Bool-cases (org == c.organization_id && str_eq key c.key)) [
                | inl here ↦
                    let same_org : org ≡ c.organization_id = ground arith in
                    let same_key : key ≡ c.key = (eq_iff key c.key).0 (ground arith) in
                    rw (known, here) (rw (same_org, same_key) after_set.now)
                | inr other ↦
                    rw (known, other)
                      (after_set.others org key (λ same_org same_key.
                        let same : str_eq key c.key ≡ true = (eq_iff key c.key).1 same_key in
                        ground arith))
              ])),
          after_set.stays_unique,
        )
  ]

  -- With one row for each flag at first: after any sequence of settings, of known and unknown keys and
  -- of any organizations, the table stands for the map with those settings, so each flag is as it was
  -- last set where it was set and as before elsewhere, which is what `isEnabled` answers; and there is
  -- still one row for each flag.
  pub set_all-put_all :
      (inherited : String → Bool) (cs : List Setting) (s : FlagState orm)
      → HasUniqueFlags s
      → let s' = set_all inherited cs s in
        (map_of s' ≡ put_all inherited cs (map_of s))
        × HasUniqueFlags s'
        × ((org : ℕ) (key : String)
            → is_enabled org key s' ≡ (ok (put_all inherited cs (map_of s) org key), s'))
  set_all-put_all inherited cs s unique =
      let (same, stays) = maps inherited cs s unique in
      (
        same,
        stays,
        λ org key.
            is_enabled-enabled_in org key (set_all inherited cs s)
            ∙ ap (λ m. (ok (m org key), set_all inherited cs s)) same,
      )
    where
      maps :
          (inherited : String → Bool) (cs : List Setting) (s : FlagState orm)
          → HasUniqueFlags s
          → (map_of (set_all inherited cs s) ≡ put_all inherited cs (map_of s))
            × HasUniqueFlags (set_all inherited cs s)
      maps inherited [] s unique = (refl, unique)
      maps inherited (c ∷ cs) s unique =
          let (same, stays) = set-put inherited c s unique in
          let (rest, still) =
            maps inherited cs (set inherited c.organization_id c.key c.enabled s).1 stays in
          (rest ∙ ap (put_all inherited cs) same, still)
