-- ===== src/Optimization.antt =====
-- Optimizations: backend/app/domain/optimization.py (Status, Partitions, Grid, Selection, Records), their
-- tables (Store), and the services that create and execute them (Create, Services, Execute).
pub mod Status
pub mod Partitions
pub mod Grid
pub mod Selection
pub mod Records
pub mod Store
pub mod Create
pub mod Services
pub mod Execute
pub mod Tests
