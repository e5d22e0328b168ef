-- ===== src/Redis.antt =====
-- What the services use of the Redis client: a parameter, since neither the client nor the server is
-- part of the repository.
mod MapStore
pub use MapStore.{map_redis}
pub mod Interface
pub use Interface.*
