-- ===== src/Backtest.antt =====
-- src/backtest: a strategy run over past prices with a virtual broker.
pub mod Broker
pub mod Engine
pub mod Report
