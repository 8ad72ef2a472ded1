-- ===== src/TradingRule/Limits.antt =====
-- TradingRule.limit_prices and what it calls, in spike/trading_rule.py.
pub mod Bracket
use a_share_analysis.Common.{Bool, false, ◌&&◌, if◌then◌else◌, str_eq}
use a_share_analysis.TradingRule.Decimals.{
  Decimal, whole, add, subtract, multiply, is_zero, is_positive, quantize,
}
use a_share_analysis.TradingRule.Resolve.{TradingRule}

-- is_no_limit
unfoldable pub is_no_limit : TradingRule → Bool
unfolding is_zero
is_no_limit rule = is_zero rule.up_rate && is_zero rule.down_rate

-- Decimal("0.01")
abbrev pub cent : Decimal
cent = record { negative = false; digits = 1; scale = 2 }

-- _round_to_tick: both branches on the rounding mode are one
unfoldable pub round_to_tick : TradingRule → Decimal → Decimal
unfolding is_positive quantize
round_to_tick rule price =
    let tick = if is_positive rule.tick_size then rule.tick_size else cent in
    if str_eq rule.rounding_mode "ROUND_HALF_UP" then quantize price tick else quantize price tick

-- limit_prices: the upper and the lower limit
unfoldable pub limit_prices : TradingRule → Decimal → Decimal × Decimal
unfolding round_to_tick add subtract multiply
limit_prices rule pre = (
  round_to_tick rule (multiply pre (add (whole 1) rule.up_rate)),
  round_to_tick rule (multiply pre (subtract (whole 1) rule.down_rate)),
)
