-- ===== src/FeatureFlags/Listing.antt =====
-- The list of flags and the test of a single flag agree.
use mathlib.Core.Path.{subst}
use developer_platform_backe.FeatureFlags.Overrides.{HasUniqueFlags, found-IsFor}
use developer_platform_backe.Prelude.{
  ℕ, String, ◌≡◌, refl, sym, ap, ◌∙◌, inl, inr, Bool, true, false, not, none, some, List, [], ◌∷◌,
  map, arith, ◌==◌, Option-cases, is_some, any, All, Any, All-weaken, Any-weaken,
}
use developer_platform_backe.Prelude.Action.{ok}
use developer_platform_backe.Orm.{Orm}
use text.Mathlib.Text.{◌==◌ as str_eq}
use text.Mathlib.TextEquality.{eq_iff}
use developer_platform_backe.FeatureFlags.{
  flag_entity, default_of, FeatureFlag, FlagState, known_flags, override_of, is_flag, FlagView,
  is_enabled, FlagDefinition, view_of, list,
}

-- The catalogue has one default for each key.
known_flags-default : All (λ d. default_of d.key ≡ d.default) known_flags
unfolding default_of
known_flags-default = (refl, (refl, (refl, (refl, tt))))

override_of-none :
    (key : String) (rows : List FeatureFlag)
    → All (λ f. str_eq f.key key ≡ false) rows
    → override_of key rows ≡ none
override_of-none key [] all = refl
override_of-none key (f ∷ fs) (differs, all) = rw (override_of-none key fs all, differs) refl

override_of-value :
    (key : String) (b v : Bool) (rows : List FeatureFlag)
    → All (λ f. str_eq f.key key ≡ true → f.enabled ≡ b) rows
    → override_of key rows ≡ some v
    → v ≡ b
override_of-value key b v [] all h = ground arith
override_of-value key b v (f ∷ fs) (same, all) h = elim (Option-cases (override_of key fs)) [
  | inl later ↦ ground (arith, same, later)
  | inr (w, later) ↦ ground (arith, override_of-value key b w fs all later, later)
]

override_of-some :
    (key : String) (b : Bool) (rows : List FeatureFlag)
    → All (λ f. str_eq f.key key ≡ true → f.enabled ≡ b) rows
    → Any (λ f. str_eq f.key key ≡ true) rows
    → override_of key rows ≡ some b
override_of-some key b [] all any = elim any [ ]
override_of-some key b (f ∷ fs) (same, all) (inl here) = elim (Option-cases (override_of key fs)) [
  | inl later ↦ rw (later, here) (ap (λ x. some x) (same here))
  | inr (w, later) ↦ rw later (ap (λ x. some x) (override_of-value key b w fs all later))
]
override_of-some key b (f ∷ fs) (same, all) (inr there) =
    rw (override_of-some key b fs all there) refl

abbrev pub view_key : FlagView → String
view_key v = v.key

-- The key of a flag with its description.
abbrev pub view_label : FlagView → String × String
view_label v = (v.key, v.description)

abbrev pub definition_label : FlagDefinition → String × String
definition_label d = (d.key, d.description)

module _ {orm : Orm} (org : ℕ) (s : FlagState orm) where
  abbrev pub rows : List FeatureFlag
  rows = orm.find (λ f. f.organization_id == org) s.flags

  -- The map of overrides holds what a lookup by key finds.
  override_of-rows :
      (key : String)
      → HasUniqueFlags s
      → override_of key rows
        ≡ elim (orm.find_one (is_flag org key) s.flags) [ some f ↦ some f.enabled | none ↦ none ]
  override_of-rows key unique =
      let sound = orm.find_sound (λ f. f.organization_id == org) s.flags in
      elim (Option-cases (orm.find_one (is_flag org key) s.flags)) [
        | inl absent ↦ rw absent (
            override_of-none key rows (
              All-weaken
                (λ f (mine, stored).
                  ground (arith, orm.find_one_none (is_flag org key) s.flags f.id f absent stored))
                rows sound))
        | inr (g, found) ↦
            let (there, org_is, key_is) = found-IsFor org key s g found in
            rw found (
              override_of-some key g.enabled rows
                (All-weaken
                  (λ f (mine, stored) same.
                    let key_too : f.key ≡ key = (eq_iff f.key key).0 same in
                    ground (
                      arith,
                      there,
                      stored,
                      unique f g stored there (ground (arith, org_is)) (key_too ∙ sym key_is),
                    ))
                  rows sound)
                (Any-weaken (λ f e. (eq_iff f.key key).1 (ap (λ x. x.key) e ∙ key_is)) rows
                  (orm.find_complete (λ f. f.organization_id == org) s.flags g.id g there
                    (ground arith))))
      ]

  -- A line of the list, against the test of its flag.
  abbrev pub IsEffective : FlagView → Type 0
  IsEffective v =
      (is_enabled org v.key s ≡ (ok v.enabled, s))
      × (v.is_default ≡ not (is_some (orm.find_one (is_flag org v.key) s.flags)))

  view_of-IsEffective :
      (d : FlagDefinition)
      → HasUniqueFlags s
      → default_of d.key ≡ d.default
      → IsEffective (view_of rows d)
  unfolding is_enabled
  view_of-IsEffective d unique default_is =
      let eq = override_of-rows d.key unique in
      elim (Option-cases (orm.find_one (is_flag org d.key) s.flags)) [
        | inl absent ↦ (ground (arith, eq, absent, default_is), ground (arith, eq, absent))
        | inr (f, found) ↦ (ground (arith, eq, found), ground (arith, eq, found))
      ]

  All-IsEffective :
      (ds : List FlagDefinition)
      → HasUniqueFlags s
      → All (λ d. default_of d.key ≡ d.default) ds
      → All IsEffective (map (view_of rows) ds)
  All-IsEffective [] unique all = tt
  All-IsEffective (d ∷ ds) unique (is, all) =
      (view_of-IsEffective d unique is, All-IsEffective ds unique all)

  view_of-label :
      (ds : List FlagDefinition) → map view_label (map (view_of rows) ds) ≡ map definition_label ds
  view_of-label [] = refl
  view_of-label (d ∷ ds) = rw (view_of-label ds) refl

  -- With one row stored for each flag of an organization, the lines of the list are the flags of the
  -- catalogue with their descriptions, each once and in the order of the catalogue. A line shows what
  -- the test of its flag answers, and marks it as a default exactly when no row is stored for it.
  pub list-IsEffective :
      (views : List FlagView)
      → HasUniqueFlags s
      → (list org s).0 ≡ ok views
      → (map view_label views ≡ map definition_label known_flags)
        × (map view_key views
            ≡ "advanced_analytics" ∷ "api_marketplace" ∷ "webhooks" ∷ "custom_branding" ∷ [])
        × All IsEffective views
  unfolding list
  list-IsEffective views unique listed =
      let same : map (view_of rows) known_flags ≡ views = ground arith in
      subst
        (λ vs.
          (map view_label vs ≡ map definition_label known_flags)
          × (map view_key vs
              ≡ "advanced_analytics" ∷ "api_marketplace" ∷ "webhooks" ∷ "custom_branding" ∷ [])
          × All IsEffective vs)
        same
        (view_of-label known_flags, refl, All-IsEffective known_flags unique known_flags-default)
