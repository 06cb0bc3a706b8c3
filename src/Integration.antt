-- ===== src/Integration.antt =====
-- The integration service's connectors: integration-service/src/connectors.
pub mod Edi
pub mod Epcis
