-- ===== src/Sql.antt =====
-- app/adapter/outbound/mysql: the entities, their mappers, the query builders and the repositories.
pub mod Entities
pub mod Mappers
pub mod QueryBuilder
pub mod Session
pub mod Repositories
