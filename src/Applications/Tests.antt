-- ===== src/Applications/Tests.antt =====
-- Applications on a concrete table, and the theorems at inputs that meet their hypotheses.
use developer_platform_backe.Applications.Tenancy.{IsRemoved, remove-IsRemoved}
use developer_platform_backe.Applications.{
  Application, AppsState, UpdateApplicationDto, remove, find_one_or_throw,
}
use developer_platform_backe.Prelude.{refl, true, none, some, [], ◌∷◌}
use developer_platform_backe.Orm.{list_orm}
use developer_platform_backe.Orm.ListTable.{list_tables}

abbrev shop : Application
shop = record { id = 2; name = "Shop"; description = none; organization_id = 7; is_active = true }

abbrev start : AppsState list_orm
start = record { apps = shop ∷ [] }

abbrev rename : UpdateApplicationDto
rename = record { name = some "Store"; description = none; is_active = none }

remove-IsRemoved_example : IsRemoved 7 2 start (remove 7 2 start).1
unfolding remove find_one_or_throw list_tables
remove-IsRemoved_example = remove-IsRemoved 7 2 2 start refl
