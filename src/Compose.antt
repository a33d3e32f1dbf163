-- ===== src/Compose.antt =====
-- src/bitheim/infrastructure/compose: the host side, which runs the node and delegates observation.
pub mod Parse
pub mod Docker
pub mod Errors
pub mod Resources
pub mod Runtime
pub mod Containers
pub mod Health
pub mod Lifecycle
pub mod Delegation
pub mod Inspect
pub mod ReadOnly
pub mod Safety
pub mod Stopping
pub mod Diagnostics
