-- ===== src/Server.antt =====
-- The services of the Node server that are modelled (server/services).
pub mod Breaker
pub mod Retry
pub mod Monitoring
pub mod Notifications
pub mod Retention
pub mod Tests
