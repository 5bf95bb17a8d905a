-- ===== src/Correlation.antt =====
-- src/avbox/correlation: what a preservation service knows of the objects of a job.
pub mod Types
pub mod Provider
pub mod Service
