-- ===== src/Protocol.antt =====
-- src/avbox/protocol/service.py: the service that accepts objects for analysis.
pub mod Credentials
pub mod Desk
pub mod Submission
pub mod Restart
pub mod Status
pub mod Worker
pub mod Shutdown
