-- ===== src/Worker.antt =====
-- app/adapter/inbound/worker: the tasks that the worker runs, and the session of a request in
-- app/rest_dependencies.py, which ends in the same way.
pub mod Tasks
pub mod Wiring
