-- ===== src/TradingRule/Decimals/Units.antt =====
-- Sums and comparisons of decimals with 0 and 1, over their coefficients.
use a_share_analysis.Common.{
  ℕ, ◌+◌, ◌*◌, ◌-◌, ◌^◌, ◌≤◌, ◌≡◌, refl, ◌∙◌, ap, Bool, true, false, not, arith,
}
use a_share_analysis.TradingRule.Decimals.{
  Decimal, whole, larger, digits_at, signed_sum, signed_leb, add, subtract, decimal_leb,
}

-- A rate between 0 and 1: a zero of any sign, or a coefficient within the unit of its places
abbrev pub IsRate : Decimal → Type 0
IsRate d = (d.negative ≡ true → d.digits ≡ 0) × (d.digits ≤ 10 ^ d.scale)

digits_at-own_left : (d : Decimal) → digits_at (larger 0 d.scale) d ≡ d.digits
digits_at-own_left d = let s : larger 0 d.scale - d.scale ≡ 0 = ground arith in rw s (omega arith)

digits_at-own_right : (d : Decimal) → digits_at (larger d.scale 0) d ≡ d.digits
digits_at-own_right d = let s : larger d.scale 0 - d.scale ≡ 0 = ground arith in rw s (omega arith)

digits_at-whole_left :
    (n : ℕ) (d : Decimal) → digits_at (larger 0 d.scale) (whole n) ≡ n * 10 ^ d.scale
digits_at-whole_left n d =
    let s : larger 0 d.scale - 0 ≡ d.scale = ground arith in ap (λ (k : ℕ). n * 10 ^ k) s

digits_at-whole_right :
    (n : ℕ) (d : Decimal) → digits_at (larger d.scale 0) (whole n) ≡ n * 10 ^ d.scale
digits_at-whole_right n d =
    let s : larger d.scale 0 - 0 ≡ d.scale = ground arith in ap (λ (k : ℕ). n * 10 ^ k) s

pub zero-decimal_leb :
    (d : Decimal) → decimal_leb (whole 0) d ≡ signed_leb false 0 d.negative d.digits
unfolding decimal_leb
zero-decimal_leb d =
    let e : digits_at (larger 0 d.scale) (whole 0) ≡ 0 = digits_at-whole_left 0 d ∙ omega arith in
    cc (e, digits_at-own_left d)

pub decimal_leb-one :
    (d : Decimal) → decimal_leb d (whole 1) ≡ signed_leb d.negative d.digits false (10 ^ d.scale)
unfolding decimal_leb
decimal_leb-one d =
    let e : digits_at (larger d.scale 0) (whole 1) ≡ 10 ^ d.scale =
      digits_at-whole_right 1 d ∙ omega arith in
    cc (e, digits_at-own_right d)

sum_up :
    (n : Bool) (a b s : ℕ)
    → (n ≡ true → b ≡ 0)
    → signed_sum false a n b s ≡ record { negative = false; digits = a + b; scale = s }
unfolding signed_sum
sum_up false a b s h = refl
sum_up true a b s h = let e = h refl in ground arith

sum_down :
    (n : Bool) (a b s : ℕ)
    → (n ≡ true → b ≡ 0)
    → b ≤ a
    → signed_sum false a (not n) b s ≡ record { negative = false; digits = a - b; scale = s }
unfolding signed_sum
sum_down false a b s h k = ground arith
sum_down true a b s h k = let e = h refl in ground arith

abbrev pub positive : (digits scale : ℕ) → Decimal
positive digits scale = record { negative = false; digits = digits; scale = scale }

module _ (d : Decimal) (rate : IsRate d) where
  pub one-add : add (whole 1) d ≡ positive (10 ^ d.scale + d.digits) d.scale
  unfolding add
  one-add =
      sum_up d.negative _ _ _ (λ n. digits_at-own_left d ∙ rate.0 n)
      ∙ cc (
        digits_at-whole_left 1 d,
        digits_at-own_left d,
        (let e : larger 0 d.scale ≡ d.scale = ground arith in e),
        (let f : 1 * 10 ^ d.scale ≡ 10 ^ d.scale = omega arith in f),
      )

  pub one-subtract : subtract (whole 1) d ≡ positive (10 ^ d.scale - d.digits) d.scale
  unfolding subtract add
  one-subtract =
      sum_down d.negative _ _ _ (λ n. digits_at-own_left d ∙ rate.0 n)
        (omega (arith, digits_at-own_left d, digits_at-whole_left 1 d, rate.1))
      ∙ cc (
        digits_at-whole_left 1 d,
        digits_at-own_left d,
        (let e : larger 0 d.scale ≡ d.scale = ground arith in e),
        (let f : 1 * 10 ^ d.scale ≡ 10 ^ d.scale = omega arith in f),
      )
