-- ===== src/App/Instrs.antt =====
-- The instruction handlers of app/src/instrs.c, and the callbacks that run after an approval.
mod Text
mod Callbacks
mod Handlers
pub mod Derivation
pub mod Asking
pub mod Questions
pub mod NameArgs
pub mod NameAsked
pub mod Serves
pub mod All
unfoldable pub use Text.*
unfoldable pub use Callbacks.*
unfoldable pub use Handlers.*
