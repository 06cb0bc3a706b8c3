-- ===== src/MessageBus.antt =====
-- The message bus (message_bus/src): company wallets and the anchoring of signed events.
pub mod Wallets
pub mod Anchoring
pub mod Confirmations
pub mod DualMode
pub mod Auth
pub mod Middleware
pub mod Sockets
pub mod Tests
