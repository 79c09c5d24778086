-- ===== src/Manifest.antt =====
-- The manifest of a run (backend/app/domain/backtest_manifest.py).
pub mod Classes
pub mod Valid
pub mod Parse
pub mod Document
pub mod Tests
