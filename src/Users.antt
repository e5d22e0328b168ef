-- ===== src/Users.antt =====
-- users/users.service.ts. The methods read or write the users table alone.
use text.Mathlib.Text.{◌==◌ as str_eq}
use developer_platform_backe.Prelude.{ℕ, Bool, true, Option, ◌==◌, String}
use developer_platform_backe.Orm.{Entity, Orm}

-- users/entities/user.entity.ts
pub record User : Type 0 where
  pub id : ℕ
  pub email : String
  pub password_hash : String
  pub first_name : Option String
  pub last_name : Option String
  pub is_active : Bool

instance abbrev pub user_entity : Entity User
user_entity = record { id_of = λ u. u.id }

module _ (orm : Orm) where
  -- `create`: the row as saved, and the table.
  unfoldable pub create :
      String → String → Option String → Option String → orm.Table User → User × orm.Table User
  create email password_hash first_name last_name t =
      let user : User = record {
        id = orm.fresh t;
        email = email;
        password_hash = password_hash;
        first_name = first_name;
        last_name = last_name;
        is_active = true;
      } in
      (user, orm.save user t)

  unfoldable pub find_by_id : ℕ → orm.Table User → Option User
  find_by_id id t = orm.find_one (λ u. u.id == id) t

  -- `findByEmail`, and `findByEmailWithPassword`, which selects the hash as well
  unfoldable pub find_by_email : String → orm.Table User → Option User
  find_by_email email t = orm.find_one (λ u. str_eq u.email email) t
