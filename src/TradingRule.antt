-- ===== src/TradingRule.antt =====
-- spike/trading_rule.py: the point-in-time trading rules. Decimals, dates and the trading calendar,
-- the rows with their validation, the resolution of one rule, and the limit prices; each part has
-- its proofs in a module below it.
pub mod Decimals
pub mod Dates
pub mod Rows
pub mod Resolve
pub mod Limits
