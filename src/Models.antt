-- ===== src/Models.antt =====
-- The values that pass between the parts: src/avbox/models/common.py and jobs.py.
pub mod Verdict
pub mod Job
pub mod Records
