-- ===== src/Mongo.antt =====
-- app/adapter/outbound/mongodb: documents, mappers and repositories.
pub mod Documents
pub mod Mappers
pub mod Driver
pub mod Outbox
pub mod Tasks
pub mod Raw
pub mod Transaction
