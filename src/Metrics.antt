-- ===== src/Metrics.antt =====
-- cni-metrics-helper/metrics: the metrics of the daemons, aggregated and handed to the publisher.
mod Points
mod Buckets
mod Families
mod Poll
pub mod Counting
pub mod Counters
pub mod Shape
pub mod Increase
pub mod Kept
pub mod Delivery
pub mod Histograms
mod Tests
unfoldable pub use Points.*
unfoldable pub use Buckets.*
unfoldable pub use Families.*
unfoldable pub use Poll.*
