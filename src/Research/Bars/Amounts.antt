-- ===== src/Research/Bars/Amounts.antt =====
-- What the checked values of evaluate_daily_bar in research/eligibility.py are.
use a_share_analysis.Common.{
  String, ◌≡◌, refl, sym, ◌⊎◌, inl, inr, true, false, Option, none, some, Result, ok, err, ◌>>=◌,
  ok_injective, ap, Bool-cases, str_eq,
}
use a_share_analysis.MarketState.Inputs.{
  Floats, Value, null, other, boolean, integer, real, Cells, is_null,
}
use a_share_analysis.Research.Bars.{
  enabled, disabled_unresolved, EligibilityDecision, Stop, decided, float_overflow, Answer,
  returned, checked_float, checked, out_of_order, by_prices, by_values,
}

module _ (fl : Floats) where
  open fl use {Float, is_finite, of_int, lt, zero_float}

  -- The cell holds an int or a float whose float value is this one.
  abbrev pub Denotes : Value fl → Float → Type 0
  Denotes (integer n) x = of_int n ≡ some x
  Denotes (real f) x = f ≡ x
  Denotes _ x = ⊥

  -- The cell is a finite number, not below 0.
  pub record Amount (v : Value fl) : Type 0 where
    pub amount : Float
    pub denotes : Denotes v amount
    pub finite : is_finite amount ≡ true
    pub nonnegative : lt amount zero_float ≡ false

  checked_float-Amount :
      (o : Option Float) {r : Option Float}
      → checked_float fl o ≡ ok r
      → (x : Float) × (o ≡ some x) × (r ≡ some x) × (is_finite x ≡ true) × (lt x zero_float ≡ false)
  unfolding checked_float
  checked_float-Amount none h = cc
  checked_float-Amount (some f) {r} h = elim (Bool-cases (is_finite f)) [
    | inr e ↦ cc (rw e at h)
    | inl e ↦ elim (Bool-cases (lt f zero_float)) [
      | inl k ↦ cc (rw (e, k) at h)
      | inr k ↦ (f, refl, sym (ok_injective (rw (e, k) at h)), e, k)
    ]
  ]

  -- What a checked cell holds
  checked_cases :
      (v : Value fl) {r : Option Float}
      → checked fl v ≡ ok r
      → ((v ≡ null) × (r ≡ none)) ⊎ ((a : Amount v) × (r ≡ some a.amount))
  unfolding checked
  checked_cases null h = inl (refl, sym (ok_injective h))
  checked_cases other h = cc
  checked_cases (boolean b) h = cc
  checked_cases (integer n) h =
      let (x, e, f, p, q) = checked_float-Amount (of_int n) h in
      inr (record { amount = x; denotes = e; finite = p; nonnegative = q }, f)
  checked_cases (real y) h =
      let (x, e, f, p, q) = checked_float-Amount (some y) h in
      inr (record { amount = x; denotes = cc e; finite = p; nonnegative = q }, f)

  -- A run ends early with no decision but a disabled one.
  abbrev pub OnlyDisables {ℓ} : {A : Type ℓ} → Result Stop A → Type ℓ
  OnlyDisables r =
      (d : EligibilityDecision) → r ≡ err (decided d) → d.eligibility ≡ disabled_unresolved

  checked_float-OnlyDisables : (o : Option Float) → OnlyDisables (checked_float fl o)
  unfolding checked_float
  checked_float-OnlyDisables none d h = cc
  checked_float-OnlyDisables (some f) d h = elim (Bool-cases (is_finite f)) [
    | inr e ↦ cc (rw e at h)
    | inl e ↦ elim (Bool-cases (lt f zero_float)) [
      | inl k ↦ cc (rw (e, k) at h)
      | inr k ↦ cc (rw (e, k) at h)
    ]
  ]

  checked-OnlyDisables : (v : Value fl) → OnlyDisables (checked fl v)
  unfolding checked
  checked-OnlyDisables null d h = cc
  checked-OnlyDisables other d h = cc
  checked-OnlyDisables (boolean b) d h = cc
  checked-OnlyDisables (integer n) d h = checked_float-OnlyDisables (of_int n) d h
  checked-OnlyDisables (real f) d h = checked_float-OnlyDisables (some f) d h

  and_then :
      {A B : Type 0} (r : Result Stop A) {f : A → Result Stop B}
      → OnlyDisables r
      → ((a : A) → OnlyDisables (f a))
      → OnlyDisables (r >>= f)
  and_then (ok a) p q d h = q a d h
  and_then (err e) p q d h = p d (cc h)

  by_prices-OnlyDisables :
      (exchange : String) (o h l c : Option Float) → OnlyDisables (by_prices fl exchange o h l c)
  unfolding by_prices
  by_prices-OnlyDisables exchange (some o) (some h) (some l) (some c) d e =
      elim (Bool-cases (out_of_order fl o h l c)) [
        | inl k ↦ cc (rw k at e)
        | inr k ↦ elim (Bool-cases (str_eq exchange "BSE")) [
          | inl m ↦ cc (rw (k, m) at e)
          | inr m ↦ cc (rw (k, m) at e)
        ]
      ]
  by_prices-OnlyDisables exchange _ _ _ _ d e = cc

  pub by_values-OnlyDisables :
      (row : Cells fl) (exchange : String) → OnlyDisables (by_values fl row exchange)
  unfolding by_values
  by_values-OnlyDisables row exchange =
      let check = λ (name : String). checked-OnlyDisables (row name) in
      and_then _ (check "open") (λ o. and_then _ (check "high") (λ h. and_then _ (check "low") (λ l.
        and_then _ (check "close") (λ c. and_then _ (check "pre_close") (λ p.
          and_then _ (check "volume")
            (λ v. and_then _ (check "amount") (λ a. by_prices-OnlyDisables exchange o h l c)))))))

  pub returned-enabled :
      (r : Answer) {d : EligibilityDecision}
      → OnlyDisables r
      → returned r ≡ ok d
      → d.eligibility ≡ enabled
      → r ≡ ok d
  unfolding returned
  returned-enabled (ok d) p h e = h
  returned-enabled (err (decided x)) p h e = cc (p x refl, ok_injective h)
  returned-enabled (err float_overflow) p h e = cc

  pub present_amount :
      (v : Value fl) {r : Option Float}
      → is_null fl v ≡ false
      → checked fl v ≡ ok r
      → (a : Amount v) × (r ≡ some a.amount)
  unfolding is_null
  present_amount v n h = elim (checked_cases v h) [
    | inl (e, f) ↦ cc (ap (is_null fl) e)
    | inr p ↦ p
  ]

  pub null_or_amount :
      (v : Value fl) {r : Option Float} → checked fl v ≡ ok r → (v ≡ null) ⊎ Amount v
  null_or_amount v h = elim (checked_cases v h) [ inl (e, f) ↦ inl e | inr (a, e) ↦ inr a ]
