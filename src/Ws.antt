-- ===== src/Ws.antt =====
-- The WebSocket layer, backend/src/ws.
pub mod Hub
pub mod Sessions
pub mod Control
pub mod Relay
pub mod Index
pub mod Reach
pub mod Delivery
pub mod Membership
pub mod Cluster
pub mod Examples
