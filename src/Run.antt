-- ===== src/Run.antt =====
-- A backtest run: its record and status, the table of runs, and the service that executes a run.
pub mod Record
pub mod Store
pub mod Execute
pub mod Tests
