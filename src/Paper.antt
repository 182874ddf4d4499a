-- ===== src/Paper.antt =====
-- src/coinpilot/paper.py: the engine that trades one observed ticker against a persisted account.
pub mod Types
pub mod Blocks
pub mod Process
pub mod Count
pub mod Facts
pub mod Trace
pub mod Activity
pub mod Consistency
pub mod Halts
pub mod Clock
pub mod Errors
pub mod Monitor
mod Examples
