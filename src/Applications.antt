-- ===== src/Applications.antt =====
-- applications/applications.service.ts. The methods read or write the applications table alone.
pub mod Tenancy
mod Tests
use developer_platform_backe.Prelude.{
  ℕ, String, Bool, true, ◌&&◌, Option, none, some, ◌==◌, or_default,
}
use developer_platform_backe.Prelude.Action.{
  not_found, Action, pure, gets, or_throw, ◌>>=◌, ◌>>◌, modify,
}
use developer_platform_backe.Orm.{Orm, Entity}

-- applications/entities/application.entity.ts
pub record Application : Type 0 where
  pub id : ℕ
  pub name : String
  pub description : Option String
  pub organization_id : ℕ
  pub is_active : Bool

instance abbrev pub application_entity : Entity Application
application_entity = record { id_of = λ a. a.id }

-- applications/dto/update-application.dto.ts
pub record UpdateApplicationDto : Type 0 where
  pub name : Option String
  pub description : Option String
  pub is_active : Option Bool

-- `Object.assign(app, dto)`: only the keys that the body holds are copied.
unfoldable pub assign : Application → UpdateApplicationDto → Application
assign app dto = record app {
  name = or_default dto.name app.name;
  description = elim dto.description [ some d ↦ some d | none ↦ app.description ];
  is_active = or_default dto.is_active app.is_active;
}

-- The tenant is part of the condition.
abbrev pub is_app : ℕ → ℕ → Application → Bool
is_app org_id app_id app = app.id == app_id && app.organization_id == org_id

pub record AppsState (orm : Orm) : Type 0 where
  pub apps : orm.Table Application

module _ {orm : Orm} where
  -- `create`
  unfoldable pub create : ℕ → String → Option String → Action (AppsState orm) Application
  create org_id name description = do
    id ← gets (λ s. orm.fresh s.apps)
    let app : Application = record {
      id = id;
      name = name;
      description = description;
      organization_id = org_id;
      is_active = true;
    }
    modify (λ s. record s { apps = orm.save app s.apps })
    pure app

  -- `findOneOrThrow`
  unfoldable pub find_one_or_throw : ℕ → ℕ → Action (AppsState orm) Application
  find_one_or_throw org_id app_id = do
    app ← gets (λ s. orm.find_one (is_app org_id app_id) s.apps)
    or_throw app (not_found "Application not found")

  -- `update`
  unfoldable pub update : ℕ → ℕ → UpdateApplicationDto → Action (AppsState orm) Application
  update org_id app_id dto = do
    app ← find_one_or_throw org_id app_id
    let changed = assign app dto
    modify (λ s. record s { apps = orm.save changed s.apps })
    pure changed

  -- `remove`; the database also deletes the keys of the application (ON DELETE CASCADE), which is left
  -- out., with the key that it returns
  unfoldable pub remove : ℕ → ℕ → Action (AppsState orm) ℕ
  remove org_id app_id = do
    app ← find_one_or_throw org_id app_id
    modify (λ s. record s { apps = orm.remove app s.apps })
    pure app_id
