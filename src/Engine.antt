-- ===== src/Engine.antt =====
-- src/coinpilot/engine.py: the engine that executes one closed bar against the account.
pub mod Types
pub mod Blocks
pub mod Process
pub mod Count
pub mod Facts
pub mod Trace
pub mod Causality
pub mod Activity
pub mod Halts
pub mod Consistency
pub mod Errors
pub mod Drawdown
mod Examples
