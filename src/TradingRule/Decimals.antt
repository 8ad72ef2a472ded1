-- ===== src/TradingRule/Decimals.antt =====
-- decimal.Decimal as spike/trading_rule.py uses it: a sign, a coefficient and the number of places
-- behind the point. Sums and products are exact: the context's rounding to 28 digits and its error
-- past 28 digits, which prices and rates do not reach, are left out, and so are positive exponents.
pub mod Rounding
pub mod Units
use a_share_analysis.Common.{
  ℕ, ◌+◌, ◌-◌, ◌*◌, ◌/◌, ◌^◌, Bool, true, false, not, ◌&&◌, ◌||◌, ltb, leb, ◌==◌, if◌then◌else◌,
}

pub record Decimal : Type 0 where
  pub negative : Bool
  pub digits : ℕ
  pub scale : ℕ

-- Decimal(n) for a natural number n
abbrev pub whole : ℕ → Decimal
whole n = record { negative = false; digits = n; scale = 0 }

abbrev pub larger : ℕ → ℕ → ℕ
larger m n = if leb m n then n else m

-- the coefficient of `d` written with `s` places, `s` at least its own
abbrev pub digits_at : ℕ → Decimal → ℕ
digits_at s d = d.digits * 10 ^ (s - d.scale)

-- the sum of two signed coefficients
signed_sum : (na : Bool) (a : ℕ) (nb : Bool) (b s : ℕ) → Decimal
signed_sum true a true b s = record { negative = true; digits = a + b; scale = s }
signed_sum false a false b s = record { negative = false; digits = a + b; scale = s }
signed_sum na a nb b s =
    if leb b a
    then record { negative = na && not (a == b); digits = a - b; scale = s }
    else record { negative = nb; digits = b - a; scale = s }

-- Decimal.__add__
unfoldable pub add : Decimal → Decimal → Decimal
unfolding signed_sum
add x y =
    let s = larger x.scale y.scale in
    signed_sum x.negative (digits_at s x) y.negative (digits_at s y) s

-- Decimal.__sub__
unfoldable pub subtract : Decimal → Decimal → Decimal
unfolding add
subtract x y = add x (record y { negative = not y.negative })

-- Decimal.__mul__
unfoldable pub multiply : Decimal → Decimal → Decimal
multiply x y = record {
  negative = x.negative && not y.negative || not x.negative && y.negative;
  digits = x.digits * y.digits;
  scale = x.scale + y.scale;
}

unfoldable pub signed_leb : (na : Bool) (a : ℕ) (nb : Bool) (b : ℕ) → Bool
signed_leb false a false b = leb a b
signed_leb true a true b = leb b a
signed_leb true a false b = true
signed_leb false a true b = a == 0 && b == 0

-- x <= y
unfoldable pub decimal_leb : Decimal → Decimal → Bool
unfolding signed_leb
decimal_leb x y =
    let s = larger x.scale y.scale in
    signed_leb x.negative (digits_at s x) y.negative (digits_at s y)

-- x == 0
unfoldable pub is_zero : Decimal → Bool
is_zero x = x.digits == 0

-- x > 0
unfoldable pub is_positive : Decimal → Bool
is_positive x = not x.negative && ltb 0 x.digits

-- n divided by p, halves up
unfoldable pub half_up : ℕ → ℕ → ℕ
half_up n p = (2 * n + p) / (2 * p)

-- x.quantize(exp, rounding=ROUND_HALF_UP): `exp` gives the places alone, and halves go away from 0
unfoldable pub quantize : Decimal → Decimal → Decimal
unfolding half_up
quantize x exp = record {
  negative = x.negative;
  digits =
      if leb x.scale exp.scale
      then x.digits * 10 ^ (exp.scale - x.scale)
      else half_up x.digits (10 ^ (x.scale - exp.scale));
  scale = exp.scale;
}
