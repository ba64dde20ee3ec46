-- ===== src/Ipamd.antt =====
-- ipamd/ipamd.go and ipamd/rpc_handler.go: the daemon that keeps the warm pool.
mod Context
mod Config
mod Targets
mod Cooldown
mod Setup
mod Shrink
mod Grow
mod Reconcile
mod Init
mod Rpc
pub mod Keeps
pub mod Warm
pub mod Limits
pub mod Network
pub mod Attach
pub mod Release
pub mod Tests
unfoldable pub use Context.*
unfoldable pub use Config.*
unfoldable pub use Targets.*
unfoldable pub use Cooldown.*
unfoldable pub use Setup.*
unfoldable pub use Shrink.*
unfoldable pub use Grow.*
unfoldable pub use Reconcile.*
unfoldable pub use Init.*
unfoldable pub use Rpc.*
