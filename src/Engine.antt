-- ===== src/Engine.antt =====
-- The adapter of the engine, backend/app/infrastructure/engine/backtrader_adapter.py.
pub mod Sizing
pub mod Signals
pub mod State
pub mod Callbacks
pub mod Adapter
mod Tests
