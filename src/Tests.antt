-- ===== src/Tests.antt =====
-- Sample values, and each theorem at a concrete input.
mod Samples
mod Snapshots
mod Restored
mod Kept
mod Schemas
mod Daemon
mod Store
mod Expressions
mod Pipeline
mod Files
mod Compiled
mod Ahead
