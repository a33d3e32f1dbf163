-- ===== src/Bitcoin.antt =====
-- infrastructure/bitcoin: the RPC client and the health probe.
pub mod Parse
pub mod Numbers
pub mod Credential
pub mod Cookie
pub mod Envelope
pub mod Client
pub mod Probe
