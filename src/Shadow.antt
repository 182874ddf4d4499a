-- ===== src/Shadow.antt =====
-- src/coinpilot/hft_shadow.py: the account that trades on paper against the live order books, in one
-- transaction of the shadow ledger for each book.
pub mod Types
pub mod Rows
pub mod Same
pub mod Ledger
pub mod Settle
pub mod Orders
pub mod Intents
pub mod Feed
pub mod Book
pub mod Sampling
pub mod Close
pub mod Engine
pub mod Control
pub mod Predecessor
pub mod Start
pub mod Health
pub mod Tables
pub mod Resolved
pub mod Recorded
pub mod Fills
pub mod Passage
pub mod Processed
pub mod Moves
pub mod Saving
pub mod Diagram
pub mod Repeat
pub mod Counts
pub mod Pending
pub mod Sale
pub mod Waiting
pub mod Timely
pub mod Served
pub mod Trades
pub mod Quiet
pub mod Ends
pub mod Takeover
pub mod Restart
mod Fixtures
mod Examples
