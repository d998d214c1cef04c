-- ===== src/Application.antt =====
-- The services of the application layer.
pub mod Relay
pub mod Phases
pub mod Pipeline
pub mod Refiners
pub mod Ingestion
pub mod Reads
pub mod Loaders
pub mod Analysis
