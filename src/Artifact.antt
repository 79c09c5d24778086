-- ===== src/Artifact.antt =====
-- backend/app/domain/run_artifact.py: portfolio snapshots, realized profit and metrics.
pub mod Snapshots
pub mod Fifo
pub mod Metrics
pub mod Tests
