-- ===== src/Risk.antt =====
-- src/strategy/risk.py, the class RiskManager.
pub mod Manager
pub mod Portfolio
pub mod Exits
pub mod Gates
