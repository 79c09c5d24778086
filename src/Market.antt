-- ===== src/Market.antt =====
-- Bars, datasets and their imports (backend/app/domain/market_data.py, dataset.py).
pub mod Bar
pub mod Dataset
pub mod Imports
pub mod Tests
