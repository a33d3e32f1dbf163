-- ===== src/Bitcoin/Client/Errors.antt =====
-- Which exceptions the client raises.
pub mod Sending
pub use bitheim.Bitcoin.Client.Errors.Sending.{IsBody, Documented}
use bitheim.Value.{Value}
