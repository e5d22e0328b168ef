-- ===== src/FeatureFlags/Tests.antt =====
-- Feature flags on a concrete table, and the theorems at inputs that meet their hypotheses.
use developer_platform_backe.FeatureFlags.Refinement.{
  Setting, set_all, map_of, put_all, set_all-put_all,
}
use developer_platform_backe.FeatureFlags.Listing.{
  IsEffective, list-IsEffective, view_label, definition_label, view_key,
}
use developer_platform_backe.FeatureFlags.Overrides.{HasUniqueFlags}
use developer_platform_backe.FeatureFlags.{
  FeatureFlag, FlagState, is_enabled, FlagView, list, view_of, known_flags,
}
use developer_platform_backe.Prelude.{
  ◌≡◌, refl, true, false, List, [], ◌∷◌, map, arith, All, ℕ, String,
}
use developer_platform_backe.Prelude.Action.{ok}
use developer_platform_backe.Orm.{list_orm}
use developer_platform_backe.Orm.ListTable.{list_tables}

abbrev no_webhooks : FeatureFlag
no_webhooks = record { id = 3; organization_id = 7; key = "webhooks"; enabled = false }

abbrev start : FlagState list_orm
start = record { flags = no_webhooks ∷ [] }

start-HasUniqueFlags : HasUniqueFlags start
unfolding list_tables
start-HasUniqueFlags a b ga gb same_org same_key = ground arith

-- The default counts where nothing is stored.
defaults :
    ((is_enabled 8 "webhooks" start).0 ≡ ok true) × ((is_enabled 7 "webhooks" start).0 ≡ ok false)
unfolding is_enabled list_tables
defaults = (refl, refl)

-- Two settings of one flag, and one of a key that is not known.
abbrev settings : List Setting
settings =
    record { organization_id = 7; key = "webhooks"; enabled = true }
    ∷ record { organization_id = 7; key = "nonsense"; enabled = true }
    ∷ record { organization_id = 7; key = "webhooks"; enabled = false }
    ∷ []

set_all-put_all_example :
    let s' = set_all (λ key. false) settings start in
    (map_of s' ≡ put_all (λ key. false) settings (map_of start))
    × HasUniqueFlags s'
    × ((org : ℕ) (key : String)
        → is_enabled org key s' ≡ (ok (put_all (λ key. false) settings (map_of start) org key), s'))
set_all-put_all_example = set_all-put_all (λ key. false) settings start start-HasUniqueFlags

abbrev views : List FlagView
views = map (view_of (no_webhooks ∷ [])) known_flags

list-IsEffective_example :
    (map view_label views ≡ map definition_label known_flags)
    × (map view_key views
        ≡ "advanced_analytics" ∷ "api_marketplace" ∷ "webhooks" ∷ "custom_branding" ∷ [])
    × All (IsEffective 7 start) views
unfolding list list_tables
list-IsEffective_example = list-IsEffective 7 start views start-HasUniqueFlags refl
