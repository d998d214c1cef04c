-- ===== src/Rest.antt =====
-- app/adapter/inbound/rest and app/main.py: the schemas, the mappers, the handlers of requests and
-- those of exceptions.
pub mod Schemas
pub mod Requests
pub mod Mappers
pub mod Handlers
pub mod Routers
pub mod Wiring
