-- ===== src/Containers.antt =====
-- src/avbox/analyzers/containers.py: the recursive extraction of containers.
pub mod Names
pub mod State
pub mod Materialize
pub mod Sources
pub mod Child
pub mod Extract
pub mod Process
pub mod Limits
