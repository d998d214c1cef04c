-- ===== src/Domain.antt =====
-- app/domain: the enumerations, the errors, the value objects, the models and the ports.
pub mod Enums
pub mod Errors
pub mod Values
pub mod Models
pub mod Task
pub mod Outbox
pub mod Ports
