-- ===== src/Scanning.antt =====
-- `ScanService` of src/avbox/application/scanning.py: actions that may raise, the round for one
-- scanner, the execution of a job, and how an execution ends.
pub mod Action
pub mod Scanners
pub mod Execute
