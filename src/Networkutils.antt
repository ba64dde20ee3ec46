-- ===== src/Networkutils.antt =====
-- pkg/networkutils/network.go: the network of the node.
mod Settings
mod RuleList
mod EniNetwork
mod IptablesRules
mod HostNetwork
pub mod Packets
pub mod Snat
pub mod Sources
pub mod Updates
pub mod Tables
pub mod SameRules
pub mod Present
pub mod Bounds
mod Tests
mod TableTests
unfoldable pub use Settings.*
unfoldable pub use RuleList.*
unfoldable pub use EniNetwork.*
unfoldable pub use IptablesRules.*
unfoldable pub use HostNetwork.*
