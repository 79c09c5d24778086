-- ===== src/Strategy.antt =====
-- backend/app/domain/strategy_spec.py and backend/app/application/strategy_spec_service.py.
pub mod Parameters
pub mod Build
pub mod Spec
pub mod Tests
