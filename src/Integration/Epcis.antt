-- ===== src/Integration/Epcis.antt =====
-- EPCIS documents, integration-service/src/connectors/epcis-handler.ts.
pub mod Types
pub mod Transform
pub mod Handler
pub mod Enriched
pub mod Posts
pub mod Epcs
mod Tests
