-- ===== src/Signal.antt =====
-- src/coinpilot/hft_shadow_signal.py: `OnlineDiagnosticSignal`, one record of the feed at a time.
pub mod Types
pub mod Stream
pub mod Feed
pub mod Tracking
pub mod Breaks
mod Examples
