-- ===== src/Edge.antt =====
-- The edge device manager (integration-service/src/edge/device-manager.ts).
pub mod Types
pub mod Queue
pub mod Manager
pub mod Updates
pub mod Registry
pub mod Monitor
pub mod Offline
pub mod Operations
pub mod Tests
