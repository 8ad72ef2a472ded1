-- ===== src/TradingRule/Limits/Bracket.antt =====
-- The limit prices of spike/trading_rule.py lie on both sides of the previous close, each within
-- half a unit of the tick's last place; and the tick counts by its places alone.
use native.Mathlib.Nat.{mul-le-mul_right, mul-le-mul_left}
use a_share_analysis.Common.{
  ℕ, ◌+◌, ◌*◌, ◌-◌, ◌^◌, ◌≤◌, ◌≡◌, refl, sym, ◌∙◌, ap, true, false, arith, Bool-cases, inl, inr,
  str_eq,
}
use a_share_analysis.TradingRule.Decimals.{
  Decimal, whole, add, subtract, multiply, is_positive, quantize,
}
use a_share_analysis.TradingRule.Decimals.Rounding.{
  pow_add, IsRounded, IsRounded-mono, quantize-IsRounded,
}
use a_share_analysis.TradingRule.Decimals.Units.{IsRate, positive, one-add, one-subtract}
use a_share_analysis.TradingRule.Resolve.{TradingRule}
use a_share_analysis.TradingRule.Limits.{round_to_tick, limit_prices}

round_to_tick_is :
    (rule : TradingRule) (price : Decimal)
    → is_positive rule.tick_size ≡ true
    → round_to_tick rule price ≡ quantize price rule.tick_size
unfolding round_to_tick
round_to_tick_is rule price h = elim (Bool-cases (str_eq rule.rounding_mode "ROUND_HALF_UP")) [
  | inl e ↦ rw (e, h)
  | inr e ↦ rw (e, h)
]

multiply-positive :
    (pre x : Decimal) (d s : ℕ)
    → pre.negative ≡ false
    → x ≡ positive d s
    → multiply pre x ≡ positive (pre.digits * d) (pre.scale + s)
unfolding multiply
multiply-positive pre x d s h e = rw e (ground arith)

-- The price that a rate asks for, before rounding: the coefficient, over its places
abbrev pub upper_digits : TradingRule → Decimal → ℕ
upper_digits rule pre = pre.digits * (10 ^ rule.up_rate.scale + rule.up_rate.digits)

abbrev pub lower_digits : TradingRule → Decimal → ℕ
lower_digits rule pre = pre.digits * (10 ^ rule.down_rate.scale - rule.down_rate.digits)

module _ (rule : TradingRule) (pre : Decimal) (tick : is_positive rule.tick_size ≡ true)
    (pre_sign : pre.negative ≡ false) where
  upper_is :
      IsRate rule.up_rate
      → (limit_prices rule pre).0
        ≡ quantize
            (positive (upper_digits rule pre) (pre.scale + rule.up_rate.scale))
            rule.tick_size
  unfolding limit_prices
  upper_is up =
      round_to_tick_is rule _ tick
      ∙ ap (λ p. quantize p rule.tick_size)
          (multiply-positive pre (add (whole 1) rule.up_rate) _ _ pre_sign
            (one-add rule.up_rate up))

  lower_is :
      IsRate rule.down_rate
      → (limit_prices rule pre).1
        ≡ quantize
            (positive (lower_digits rule pre) (pre.scale + rule.down_rate.scale))
            rule.tick_size
  unfolding limit_prices
  lower_is down =
      round_to_tick_is rule _ tick
      ∙ ap (λ p. quantize p rule.tick_size)
          (multiply-positive pre (subtract (whole 1) rule.down_rate) _ _ pre_sign
            (one-subtract rule.down_rate down))

positive-quantize : (n s : ℕ) (exp : Decimal) → (quantize (positive n s) exp).negative ≡ false
unfolding quantize
positive-quantize n s exp = refl

scale-quantize : (d exp : Decimal) → (quantize d exp).scale ≡ exp.scale
unfolding quantize
scale-quantize d exp = refl

lower_exact : (p sa sp d : ℕ) → d ≤ 10 ^ sa → p * (10 ^ sa - d) * 10 ^ sp ≤ p * 10 ^ (sp + sa)
lower_exact p sa sp d h =
    rw (pow_add sp sa)
      (omega (arith, mul-le-mul_right (10 ^ sp) (mul-le-mul_left p (le_whole d (10 ^ sa)))))
  where
    le_whole : (d u : ℕ) → u - d ≤ u
    le_whole d u = omega arith

upper_exact : (p sa sp a : ℕ) → p * 10 ^ (sp + sa) ≤ p * (10 ^ sa + a) * 10 ^ sp
upper_exact p sa sp a =
    rw (pow_add sp sa)
      (omega (arith, mul-le-mul_right (10 ^ sp) (mul-le-mul_left p (le_more a (10 ^ sa)))))
  where
    le_more : (a u : ℕ) → u ≤ u + a
    le_more a u = omega arith

-- A price with the tick's number of places, a nearest one to the exact price
pub record IsPrice (exact places : ℕ) (tick price : Decimal) : Type 0 where
  pub sign : price.negative ≡ false
  pub places_kept : price.scale ≡ tick.scale
  pub nearest : IsRounded exact places price.digits tick.scale

-- For a rule with a positive tick and rates between 0 and 1, and a previous close not below 0, each
-- limit has the tick's places and lies nearest to the exact product, halves upwards, and the limits
-- enclose the previous close rounded to the same places.
pub limit_prices_bracket :
    (rule : TradingRule) (pre : Decimal)
    → is_positive rule.tick_size ≡ true
    → IsRate rule.up_rate
    → IsRate rule.down_rate
    → pre.negative ≡ false
    → IsPrice
        (upper_digits rule pre)
        (pre.scale + rule.up_rate.scale)
        rule.tick_size
        (limit_prices rule pre).0
      × IsPrice
          (lower_digits rule pre)
          (pre.scale + rule.down_rate.scale)
          rule.tick_size
          (limit_prices rule pre).1
      × ((limit_prices rule pre).1.digits ≤ (quantize pre rule.tick_size).digits)
      × ((quantize pre rule.tick_size).digits ≤ (limit_prices rule pre).0.digits)
limit_prices_bracket rule pre tick up down pre_sign =
    let su = pre.scale + rule.up_rate.scale in
    let sd = pre.scale + rule.down_rate.scale in
    let t = rule.tick_size in
    let u = quantize-IsRounded (positive (upper_digits rule pre) su) t in
    let l = quantize-IsRounded (positive (lower_digits rule pre) sd) t in
    let m = quantize-IsRounded pre t in
    rw (upper_is rule pre tick pre_sign up, lower_is rule pre tick pre_sign down)
      (
        record { sign = positive-quantize _ su t; places_kept = scale-quantize _ t; nearest = u },
        record { sign = positive-quantize _ sd t; places_kept = scale-quantize _ t; nearest = l },
        IsRounded-mono (lower_digits rule pre) sd pre.digits pre.scale _ _ t.scale l m
            (lower_exact pre.digits rule.down_rate.scale pre.scale rule.down_rate.digits down.1),
        IsRounded-mono pre.digits pre.scale (upper_digits rule pre) su _ _ t.scale m u
            (upper_exact pre.digits rule.up_rate.scale pre.scale rule.up_rate.digits),
      )

quantize_by_places :
    (x exp exp' : Decimal) → exp.scale ≡ exp'.scale → quantize x exp ≡ quantize x exp'
unfolding quantize
quantize_by_places x exp exp' e = ap (λ s. quantize x (positive 1 s)) e

-- Two rules that differ only in the digits of a positive tick, not in its places, have the same
-- limit prices: a tick of 0.05 rounds as a tick of 0.01 does.
pub limit_prices_ignore_tick_digits :
    (rule : TradingRule) (tick pre : Decimal)
    → is_positive rule.tick_size ≡ true
    → is_positive tick ≡ true
    → tick.scale ≡ rule.tick_size.scale
    → limit_prices (record rule { tick_size = tick }) pre ≡ limit_prices rule pre
unfolding limit_prices
limit_prices_ignore_tick_digits rule tick pre h k e = cc (
  same_rounding (multiply pre (add (whole 1) rule.up_rate)),
  same_rounding (multiply pre (subtract (whole 1) rule.down_rate)),
)
  where
    same_rounding :
        (price : Decimal)
        → round_to_tick (record rule { tick_size = tick }) price ≡ round_to_tick rule price
    same_rounding price =
        round_to_tick_is (record rule { tick_size = tick }) price k
        ∙ quantize_by_places price tick rule.tick_size e
        ∙ sym (round_to_tick_is rule price h)
