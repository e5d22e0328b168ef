-- ===== src/FeatureFlags.antt =====
-- feature-flags/: the catalogue of flags, the overrides of an organization, and the guard.
pub mod Overrides
pub mod Setting
pub mod Listing
pub mod Refinement
mod Tests
use developer_platform_backe.Organizations.Guard.{truthy, or_else}
use Prim.Native.String.{◌++◌ as text_append}
use developer_platform_backe.Prelude.{
  ℕ, String, Bool, true, false, not, ◌&&◌, ◌||◌, Option, none, some, List, [], ◌∷◌, map, ◌==◌,
  if◌then◌else◌, is_some, or_default,
}
use developer_platform_backe.Prelude.Action.{
  bad_request, forbidden, not_found, Action, pure, gets, or_throw, ◌>>=◌, ◌>>◌, throw_if, modify,
}
use developer_platform_backe.Orm.{Orm, Entity}
use text.Mathlib.Text.{◌==◌ as str_eq}
use developer_platform_backe.Organizations.Guard.{GuardRequest, extract_org_id}

-- feature-flags/entities/feature-flag.entity.ts
pub record FeatureFlag : Type 0 where
  pub id : ℕ
  pub organization_id : ℕ
  pub key : String
  pub enabled : Bool

instance abbrev pub flag_entity : Entity FeatureFlag
flag_entity = record { id_of = λ f. f.id }

pub record FlagDefinition : Type 0 where
  pub key : String
  pub description : String
  pub default : Bool

-- `Object.values(KNOWN_FLAGS)`, in the order of the source
abbrev pub known_flags : List FlagDefinition
known_flags =
    record {
      key = "advanced_analytics";
      description = "Advanced analytics dashboards (latency percentiles, trends).";
      default = false;
    }
    ∷ record {
      key = "api_marketplace";
      description = "Publish APIs to, and subscribe via, the marketplace.";
      default = false;
    }
    ∷ record { key = "webhooks"; description = "Outbound webhook deliveries."; default = true }
    ∷ record {
      key = "custom_branding";
      description = "Custom logo/colors on the developer portal.";
      default = false;
    }
    ∷ []

-- An own property of `KNOWN_FLAGS`.
abbrev pub definition_of : String → List FlagDefinition → Option FlagDefinition
definition_of key [] = none
definition_of key (d ∷ ds) = if str_eq d.key key then some d else definition_of key ds

-- `KNOWN_FLAGS[key]?.default ?? false`; what the object inherits has no `default`.
unfoldable pub default_of : String → Bool
default_of key = elim (definition_of key known_flags) [ some d ↦ d.default | none ↦ false ]

-- `key in KNOWN_FLAGS`; `inherited` says which keys every object inherits, such as `toString`.
unfoldable pub is_known_flag : (inherited : String → Bool) → String → Bool
is_known_flag inherited key = is_some (definition_of key known_flags) || inherited key

pub record FlagView : Type 0 where
  pub key : String
  pub description : String
  pub enabled : Bool
  pub is_default : Bool

-- `where: { organizationId: orgId, key }`
abbrev pub is_flag : ℕ → String → FeatureFlag → Bool
is_flag org_id key f = f.organization_id == org_id && str_eq f.key key

-- `new Map(rows.map((r) => [r.key, r.enabled])).get(key)`: the last row with a key counts.
abbrev pub override_of : String → List FeatureFlag → Option Bool
override_of key [] = none
override_of key (f ∷ fs) = elim (override_of key fs) [
  | some enabled ↦ some enabled
  | none ↦ if str_eq f.key key then some f.enabled else none
]

-- The row that `set` saves: the one there is, or a new one.
abbrev pub flag_after : Option FeatureFlag → ℕ → ℕ → String → Bool → FeatureFlag
flag_after (some f) id org_id key enabled = record f { enabled = enabled }
flag_after none id org_id key enabled = record {
  id = id;
  organization_id = org_id;
  key = key;
  enabled = enabled;
}

pub record FlagState (orm : Orm) : Type 0 where
  pub flags : orm.Table FeatureFlag

abbrev pub view_of : List FeatureFlag → FlagDefinition → FlagView
view_of rows d = record {
  key = d.key;
  description = d.description;
  enabled = or_default (override_of d.key rows) d.default;
  is_default = not (is_some (override_of d.key rows));
}

module _ {orm : Orm} where
  -- `list`
  unfoldable pub list : ℕ → Action (FlagState orm) (List FlagView)
  list org_id = do
    rows ← gets (λ s. orm.find (λ f. f.organization_id == org_id) s.flags)
    pure (map (view_of rows) known_flags)

  -- `isEnabled`
  unfoldable pub is_enabled : ℕ → String → Action (FlagState orm) Bool
  unfolding default_of
  is_enabled org_id key = do
    row ← gets (λ s. orm.find_one (is_flag org_id key) s.flags)
    pure (elim row [ some f ↦ f.enabled | none ↦ default_of key ])

  -- `set`
  unfoldable pub set :
      (inherited : String → Bool) → ℕ → String → Bool → Action (FlagState orm) (String × Bool)
  unfolding is_known_flag
  set inherited org_id key enabled = do
    throw_if (not (is_known_flag inherited key))
        (not_found (text_append "Unknown feature flag \"" (text_append key "\"")))
    row ← gets (λ s. orm.find_one (is_flag org_id key) s.flags)
    id ← gets (λ s. orm.fresh s.flags)
    let changed = flag_after row id org_id key enabled
    modify (λ s. record s { flags = orm.save changed s.flags })
    pure (key, enabled)

  -- feature-flags/guards/feature.guard.ts, `canActivate`; `uuid` is class-validator's `isUUID`, with
  -- the key that a valid text stands for.
  unfoldable pub can_activate :
      (uuid : String → Option ℕ)
      → (required org_id_param id_param : Option String) → Action (FlagState orm) Bool
  can_activate uuid required org_id_param id_param = elim (truthy required) [
    | none ↦ pure true
    | some feature ↦ do
      let named = truthy (or_else org_id_param id_param)
      let parsed : Option ℕ = elim named [ some t ↦ uuid t | none ↦ none ]
      org_id ← or_throw parsed (bad_request "Organization id is required for this route")
      enabled ← is_enabled org_id feature
      throw_if (not enabled) (
          forbidden (
            text_append "Feature \""
              (text_append feature "\" is not enabled for this organization")))
      pure true
  ]
