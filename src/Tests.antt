-- ===== src/Tests.antt =====
-- Concrete worlds, and the theorems applied to them.
mod World
mod Examples
mod Phases
mod Refiners
mod Ingestion
mod Rest
mod Worker
mod Sql
mod Submission
