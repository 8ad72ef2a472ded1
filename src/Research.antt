-- ===== src/Research.antt =====
-- research/: which rows a research panel may use.
pub mod Splits
pub mod Bars
