-- ===== src/MarketState/Rules/Signs.antt =====
-- What the center and trend rules of state/engine.py answer, over floats whose finite values are
-- ordered.
use a_share_analysis.Common.{
  ℕ, String, ◌≡◌, refl, subst, ◌⊎◌, inl, inr, true, false, ◌&&◌, Option, none, some, List, [], ◌∷◌,
  arith, Bool-cases, ok, >>=-eq-ok, ok_injective, if◌then◌else◌, Memᴰ,
}
use a_share_analysis.MarketState.Inputs.{Floats, Cells, number}
use a_share_analysis.MarketState.Inputs.Reads.{
  Reads, Reads-finite, AtMost, IsOrdered, number-some, number-none,
}
use a_share_analysis.MarketState.Rules.{
  Finding, center_label, center_null, center_of, return_center,
}
use a_share_analysis.MarketState.Rules.Nulls.{Nulled, Nulled-of}

abbrev pub center_names : List String
center_names = "mean_raw_return_observed" ∷ "median_raw_return_observed" ∷ []

module _ (fl : Floats) where
  open fl use {Float, lt, is_finite, zero_float, half_float, one_float}

  -- Both values lie beyond the middle on one side, or the middle lies between them.
  pub data Sides (middle x y : Float) (above below between : String) : String → Type 0 where
    both_above :
        lt middle x ≡ true → lt middle y ≡ true → Sides middle x y above below between above
    both_below :
        lt x middle ≡ true → lt y middle ≡ true → Sides middle x y above below between below
    split :
        (AtMost fl x middle × AtMost fl middle y) ⊎ (AtMost fl y middle × AtMost fl middle x)
        → Sides middle x y above below between between

  module _ (laws : IsOrdered fl) where
    between_of :
        (middle x y : Float)
        → is_finite middle ≡ true
        → is_finite x ≡ true
        → is_finite y ≡ true
        → (lt middle x && lt middle y) ≡ false
        → (lt x middle && lt y middle) ≡ false
        → (AtMost fl x middle × AtMost fl middle y) ⊎ (AtMost fl y middle × AtMost fl middle x)
    between_of middle x y m f g p q = elim (Bool-cases (lt middle x)) [
      | inl a ↦ inr (laws.total middle y m g (ground arith), ground arith)
      | inr a ↦ elim (Bool-cases (lt middle y)) [
        | inl b ↦ inl (laws.total middle x m f a, ground arith)
        | inr b ↦ elim (Bool-cases (lt x middle)) [
          | inl c ↦ inl (laws.total middle x m f a, laws.total y middle g m (ground arith))
          | inr c ↦ inr (laws.total middle y m g b, laws.total x middle f m c)
        ]
      ]
    ]

    pub side_label :
        (middle x y : Float) (above below between : String)
        → is_finite middle ≡ true
        → is_finite x ≡ true
        → is_finite y ≡ true
        → Sides middle x y above below between (
            if lt middle x && lt middle y
            then above
            else if lt x middle && lt y middle
            then below
            else between)
    side_label middle x y above below between m f g =
        elim (Bool-cases (lt middle x && lt middle y)) [
          | inl p ↦ rw p (both_above (ground arith) (ground arith))
          | inr p ↦ elim (Bool-cases (lt x middle && lt y middle)) [
            | inl q ↦ rw (p, q) (both_below (ground arith) (ground arith))
            | inr q ↦ rw (p, q) (split (between_of middle x y m f g p q))
          ]
        ]

  -- A label that is not UNKNOWN, with the two finite numbers that it is about
  pub record Center (row : Cells fl) (label : String) : Type 0 where
    pub mean : Float
    pub median : Float
    pub mean_is : Reads fl (row "mean_raw_return_observed") mean
    pub median_is : Reads fl (row "median_raw_return_observed") median
    pub sides :
        Sides zero_float mean median "POSITIVE_CENTER" "NEGATIVE_CENTER" "MIXED_CENTER" label

  module _ (row : Cells fl) (trade_date : ℕ) where
    abbrev CenterCase : String → List Finding → Type 0
    CenterCase label fs =
        Nulled fl row trade_date "return_center_state" center_names label fs
        ⊎ (Center row label × (fs ≡ []))

    center_null_case :
        (n : String) {label : String} {fs : List Finding}
        → Memᴰ n center_names
        → number fl row n ≡ ok none
        → center_null fl row trade_date ≡ ok (label, fs)
        → CenterCase label fs
    unfolding center_null
    center_null_case n m e h = inl (
        Nulled-of fl row trade_date "return_center_state" center_names n m (number-none fl row n e)
          h)

    center_of_cases :
        IsOrdered fl
        → (mean median : Option Float) {label : String} {fs : List Finding}
        → number fl row "mean_raw_return_observed" ≡ ok mean
        → number fl row "median_raw_return_observed" ≡ ok median
        → center_of fl row trade_date mean median ≡ ok (label, fs)
        → CenterCase label fs
    unfolding center_of
    center_of_cases laws none median p q h =
        center_null_case "mean_raw_return_observed" (Memᴰ.head refl) p h
    center_of_cases laws (some mean) none p q h =
        center_null_case "median_raw_return_observed" (Memᴰ.tail (Memᴰ.head refl)) q h
    center_of_cases laws (some mean) (some median) {label} p q h =
        let e : center_label fl mean median ≡ label = cc (ok_injective h) in
        let x = number-some fl row "mean_raw_return_observed" mean p in
        let y = number-some fl row "median_raw_return_observed" median q in
        inr (
          record {
            mean = mean;
            median = median;
            mean_is = x;
            median_is = y;
            sides =
                subst
                  (Sides zero_float mean median "POSITIVE_CENTER" "NEGATIVE_CENTER" "MIXED_CENTER")
                  e
                  (unfold center_label in
                    side_label laws zero_float mean median _ _ _ laws.zero_finite
                      (Reads-finite fl _ mean x) (Reads-finite fl _ median y));
          },
          cc (ok_injective h),
        )

-- When the return center rule returns, then either the mean or the median is missing, and the answer
-- is UNKNOWN with a finding that lists exactly the missing ones, or nothing is reported, both are
-- finite numbers, and the label says that both are above zero, that both are below zero, or that
-- zero lies between them. The order of finite floats is that of IEEE 754.
pub return_center_cases :
    (fl : Floats) (row : Cells fl) (trade_date : ℕ) (label : String) (fs : List Finding)
    → IsOrdered fl
    → return_center fl row trade_date ≡ ok (label, fs)
    → Nulled fl row trade_date "return_center_state" center_names label fs
      ⊎ (Center fl row label × (fs ≡ []))
unfolding return_center
return_center_cases fl row trade_date label fs laws h =
    let (mean, p, h1) = >>=-eq-ok (number fl row "mean_raw_return_observed") _ h in
    let (median, q, h2) = >>=-eq-ok (number fl row "median_raw_return_observed") _ h1 in
    center_of_cases fl row trade_date laws mean median p q h2
