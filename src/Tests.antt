-- ===== src/Tests.antt =====
-- The theorems at concrete inputs, and runs of the code's models.
mod Partitions
mod Jobs
mod Scanning
mod Structural
mod Containers
mod Protocol
mod DiskImages
mod Adapters
mod Correlation
mod Preservation
mod Registry
