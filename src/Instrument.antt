-- ===== src/Instrument.antt =====
-- Which instrument an identifier of a dataset stands for.
pub mod Mapping
pub mod Tests
