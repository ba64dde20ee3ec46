-- ===== src/Awsutils.antt =====
-- pkg/awsutils: the client of EC2 and of the metadata service, and the limits of the instance types.
mod Enis
mod Ips
mod Client
mod InstanceType
mod Metadata
mod Release
mod Alloc
mod Limits
pub mod Devices
pub mod Retries
pub mod Attached
pub mod Addresses
mod Tests
unfoldable pub use Enis.*
unfoldable pub use Ips.*
unfoldable pub use Client.*
unfoldable pub use InstanceType.*
unfoldable pub use Metadata.*
unfoldable pub use Release.*
unfoldable pub use Alloc.*
