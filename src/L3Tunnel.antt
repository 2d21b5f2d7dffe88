-- ===== src/L3Tunnel.antt =====
-- The aTrust layer-3 tunnel (client/atrust/l3tunnel*.go).
pub mod DataPayload
pub mod Conntrack
pub mod Filter
pub mod Frames
pub mod Connection
pub mod Request
pub mod Sending
pub mod Pool
