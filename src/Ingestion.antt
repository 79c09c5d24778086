-- ===== src/Ingestion.antt =====
-- The import of a dataset from a CSV file.
pub mod Csv
pub mod Tests
