-- ===== src/TradingRule/Decimals/Rounding.antt =====
-- The rounding of decimal.Decimal.quantize: within half a unit of the last place, and monotone.
use native.Mathlib.Nat.{pow-suc, div-add-mod, mod-lt, mul-le-mul_right, mul-lt-mul_of_pos_right}
use a_share_analysis.Common.{
  ℕ, zero, suc, ◌+◌, ◌-◌, ◌*◌, ◌^◌, ◌≤◌, ◌<◌, ◌≡◌, ◌∙◌, arith, leb, Bool-cases, inl, inr, leb→le,
  ap,
}
use a_share_analysis.TradingRule.Decimals.{Decimal, half_up, quantize}

pub pow_pos : (n : ℕ) → 0 < 10 ^ n
pow_pos zero = omega arith
pow_pos (suc n) = omega (arith, pow_pos n, pow-suc 10 n)

pub pow_add : (m n : ℕ) → 10 ^ (m + n) ≡ 10 ^ m * 10 ^ n
pow_add zero n = let e : zero + n ≡ n = omega arith in rw e (omega arith)
pow_add (suc m) n =
    let e : suc m + n ≡ suc (m + n) = omega arith in
    rw (e, pow-suc 10 (m + n), pow-suc 10 m, pow_add m n) (omega arith)

half_up_bounds :
    (n p : ℕ) → 0 < p → (2 * half_up n p * p ≤ 2 * n + p) × (2 * n < 2 * half_up n p * p + p)
unfolding half_up
half_up_bounds n p h =
    omega (arith, div-add-mod (2 * n + p) (2 * p), mod-lt (2 * n + p) {m = 2 * p} (omega arith))

-- `r` with `t` places is a nearest such value to `x` with `s` places, halves upwards.
abbrev pub IsRounded : (x s r t : ℕ) → Type 0
IsRounded x s r t =
    (2 * r * 10 ^ s ≤ 2 * x * 10 ^ t + 10 ^ s) × (2 * x * 10 ^ t < 2 * r * 10 ^ s + 10 ^ s)

IsRounded-half_up : (x s t k : ℕ) → s ≡ t + k → IsRounded x s (half_up x (10 ^ k)) t
IsRounded-half_up x s t k e =
    let (below, above) = half_up_bounds x (10 ^ k) (pow_pos k) in
    rw (e, pow_add t k) (scale_up (half_up x (10 ^ k)) x (10 ^ k) (10 ^ t) (pow_pos t) below above)
  where
    scale_up :
        (r x p q : ℕ)
        → 0 < q
        → 2 * r * p ≤ 2 * x + p
        → 2 * x < 2 * r * p + p
        → (2 * r * (q * p) ≤ 2 * x * q + q * p) × (2 * x * q < 2 * r * (q * p) + q * p)
    scale_up r x p q h below above =
        (omega (arith, mul-le-mul_right q below), omega (arith, mul-lt-mul_of_pos_right above h))

IsRounded-exact : (x s t : ℕ) → s ≤ t → IsRounded x s (x * 10 ^ (t - s)) t
IsRounded-exact x s t h =
    let e : t ≡ (t - s) + s = omega arith in
    let p : 10 ^ t ≡ 10 ^ (t - s) * 10 ^ s = ap (λ (n : ℕ). 10 ^ n) e ∙ pow_add (t - s) s in
    omega (arith, ap (λ (n : ℕ). 2 * x * n) p, pow_pos s)

-- The coefficient that quantize gives is a nearest one.
pub quantize-IsRounded :
    (d exp : Decimal) → IsRounded d.digits d.scale (quantize d exp).digits exp.scale
unfolding quantize
quantize-IsRounded d exp = elim (Bool-cases (leb d.scale exp.scale)) [
  | inl h ↦ rw h (IsRounded-exact d.digits d.scale exp.scale (leb→le _ _ h))
  | inr h ↦ rw h (IsRounded-half_up d.digits d.scale exp.scale (d.scale - exp.scale) (ground arith))
]

no_overtaking :
    (x x' r r' p p' q : ℕ)
    → 0 < p
    → 2 * r * p ≤ 2 * x * q + p
    → 2 * x' * q < 2 * r' * p' + p'
    → x * p' ≤ x' * p
    → ¬ (r' < r)
no_overtaking x x' r r' p p' q h below above le over = omega (
  arith,
  mul-le-mul_right p' below,
  mul-lt-mul_of_pos_right above h,
  mul-le-mul_right (2 * q) le,
  mul-le-mul_right (p * p') over,
)

-- Rounding is monotone, also between values with different numbers of places.
pub IsRounded-mono :
    (x s x' s' r r' t : ℕ)
    → IsRounded x s r t
    → IsRounded x' s' r' t
    → x * 10 ^ s' ≤ x' * 10 ^ s
    → r ≤ r'
IsRounded-mono x s x' s' r r' t h h' le =
    omega (arith, no_overtaking x x' r r' (10 ^ s) (10 ^ s') (10 ^ t) (pow_pos s) h.0 h'.1 le)
