-- ===== src/Tests.antt =====
-- Runs of the models at concrete inputs.
pub mod CoreTests
pub mod TunnelTests
pub mod StoreTests
pub mod DialTests
pub mod ManagerTests
pub mod SessionTests
pub mod TcpTests
pub mod L3Tests
pub mod TrackerTests
pub mod ConfigTests
pub mod DnsTests
pub mod ResolveTests
pub mod ControlTests
pub mod RuntimeTests
pub mod RestTests
