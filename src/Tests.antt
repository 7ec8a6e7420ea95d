-- ===== src/Tests.antt =====
-- The theorems at concrete inputs, with numbers of three decimal places.
mod Risk
mod Worker
mod Voting
mod Backtest
mod Harness
mod Limits
mod Groups
mod Trading
mod Strategy
mod Client
mod WebSocket
mod Screening
pub mod Sorting
