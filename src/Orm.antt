-- ===== src/Orm.antt =====
-- What the services use of TypeORM's repositories over PostgreSQL: a parameter, since neither is
-- part of the repository. A table is seen through `get`, the row with a primary key.
pub mod ListTable
pub use ListTable.{list_orm}
pub mod Interface
pub mod Laws
pub use Interface.*
