-- ===== src/Datastore.antt =====
-- ipamd/datastore/data_store.go: the store of the node's ENIs, their addresses and the pods that
-- hold them. Each method runs under the store's lock, so it is a function from the store to the
-- store and a result. It reads the clock once; that reading is an argument, `now`. A map that the
-- code reaches through a pointer is written back to the store under its key.
mod Types
mod Addresses
mod Assign
mod Enis
mod Infos
pub mod Invariant
pub mod History
pub mod Search
pub mod Ownership
pub mod WarmTarget
pub mod Needs
pub mod Tests
unfoldable pub use Types.*
unfoldable pub use Addresses.*
unfoldable pub use Assign.*
unfoldable pub use Enis.*
unfoldable pub use Infos.*
pub use amazon_vpc_cni_k8s.Prelude.{same}
