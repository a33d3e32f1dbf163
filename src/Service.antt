-- ===== src/Service.antt =====
-- src/bitheim/application/service.py and the ports of application/ports.py that it is built on.
pub mod Guards
pub mod Lifecycle
pub mod Observation
