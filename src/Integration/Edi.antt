-- ===== src/Integration/Edi.antt =====
-- The EDI X12 processor, integration-service/src/connectors/edi-processor.ts.
pub mod Types
pub mod Segments
pub mod Documents
pub mod Acknowledgments
pub mod Events
pub mod Processor
mod Tests
