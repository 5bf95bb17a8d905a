-- ===== src/Adapters.antt =====
-- src/avbox/scanners: how external engines are run and what their answers mean.
pub mod Command
pub mod Output
pub mod Normalize
pub mod Sound
pub mod Clean
