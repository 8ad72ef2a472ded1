-- ===== src/MarketState/Rules/Trends.antt =====
-- What the trend participation rule of state/engine.py answers, over floats whose finite values are
-- ordered.
use a_share_analysis.Common.{
  ℕ, suc, String, ◌≡◌, refl, sym, ap, subst, ◌⊎◌, ◌↔◌, inl, inr, true, false, ◌||◌, Option, none,
  some, List, [], ◌∷◌, any, arith, Bool-cases, ok, >>=-eq-ok, ok_injective, ℤ, pos, is_nonpositive,
  Memᴰ, mem_of-any, any-of_mem,
}
use a_share_analysis.MarketState.Inputs.{
  Floats, Cells, number, count, is_null, null, integer, empty_inputs,
}
use a_share_analysis.MarketState.Inputs.Reads.{
  Reads, Reads-finite, AtMost, IsOrdered, number-some, number-none, count-some, count-none,
  is_null_iff,
}
use a_share_analysis.MarketState.Rules.{
  Finding, Outcome, trend_label, trend_of, trend_null, trend_parsed, trend_present, trend_names,
  trend_participation, empty_counts,
}
use a_share_analysis.MarketState.Rules.Nulls.{Reports, Nulled, Nulled-of}
use a_share_analysis.MarketState.Rules.Signs.{Sides, side_label}
use a_share_analysis.MarketState.Rules.EmptyCounts.{IsEmptyCount, empty_counts_iff, positive_of}

module _ (fl : Floats) (row : Cells fl) (trade_date : ℕ) where
  open fl use {Float, lt, zero_float, half_float, one_float}

  -- The four cells hold these counts and finite numbers.
  pub record TrendCells (ma_count mom_count : ℤ) (ma mom : Float) : Type 0 where
    pub ma_count_is : row "valid_ma20_count" ≡ integer ma_count
    pub mom_count_is : row "valid_mom20_count" ≡ integer mom_count
    pub ma_is : Reads fl (row "pct_above_ma20_observed") ma
    pub mom_is : Reads fl (row "pct_positive_mom20_observed") mom

  -- A label that is not UNKNOWN: both counts are positive, and both ratios lie from 0 to 1.
  pub record Trend (label : String) : Type 0 where
    pub ma_less : ℕ
    pub mom_less : ℕ
    pub ma : Float
    pub mom : Float
    pub cells : TrendCells (pos (suc ma_less)) (pos (suc mom_less)) ma mom
    pub ma_in_unit : AtMost fl zero_float ma × AtMost fl ma one_float
    pub mom_in_unit : AtMost fl zero_float mom × AtMost fl mom one_float
    pub sides : Sides fl half_float ma mom "BROAD_POSITIVE" "BROAD_NEGATIVE" "MIXED" label

  -- A count is not positive, and the one finding lists exactly those that are not.
  pub record NoCounts (label : String) (fs : List Finding) : Type 0 where
    pub unknown : label ≡ "UNKNOWN"
    pub report : Reports trade_date "trend_participation_state" "STATE_INPUT_EMPTY_DENOMINATOR" fs
    pub ma_count : ℤ
    pub mom_count : ℤ
    pub ma : Float
    pub mom : Float
    pub cells : TrendCells ma_count mom_count ma mom
    pub empty : List String
    pub detail : report.finding.detail ≡ empty_inputs empty
    pub exactly : (n : String) → Memᴰ n empty ↔ IsEmptyCount ma_count mom_count n
    pub some_empty : (is_nonpositive ma_count || is_nonpositive mom_count) ≡ true

  abbrev KnownCase : String → List Finding → Type 0
  KnownCase label fs = NoCounts label fs ⊎ (Trend label × (fs ≡ []))

  no_counts :
      (a b : ℤ) (x y : Float) {label : String} {fs : List Finding}
      → TrendCells a b x y
      → (is_nonpositive a || is_nonpositive b) ≡ true
      → ◌≡◌ {A = Outcome}
          (ok (
            "UNKNOWN",
            (record {
              trade_date = trade_date;
              state_name = "trend_participation_state";
              finding_class = "STATE_INPUT_EMPTY_DENOMINATOR";
              detail = empty_inputs (empty_counts a b);
            })
                ∷ [],
          ))
          (ok (label, fs))
      → NoCounts label fs
  no_counts a b x y c e h = record {
    unknown = sym (ap (λ p. p.0) (ok_injective h));
    report = record {
      finding = record {
        trade_date = trade_date;
        state_name = "trend_participation_state";
        finding_class = "STATE_INPUT_EMPTY_DENOMINATOR";
        detail = empty_inputs (empty_counts a b);
      };
      single = sym (ap (λ p. p.1) (ok_injective h));
      of_state = refl;
      of_class = refl;
      of_day = refl;
    };
    ma_count = a;
    mom_count = b;
    ma = x;
    mom = y;
    cells = c;
    empty = empty_counts a b;
    detail = refl;
    exactly = empty_counts_iff a b;
    some_empty = e;
  }

  in_unit :
      IsOrdered fl
      → (x : Float) → fl.is_finite x ≡ true
      → (lt one_float x || lt x zero_float) ≡ false
      → AtMost fl zero_float x × AtMost fl x one_float
  in_unit laws x f h = (
    laws.total x zero_float f laws.zero_finite (ground arith),
    laws.total one_float x laws.one_finite f (ground arith),
  )

  trend_of_cases :
      IsOrdered fl
      → (a b : ℤ) (x y : Float) {label : String} {fs : List Finding} → TrendCells a b x y
      → trend_of fl trade_date a b x y ≡ ok (label, fs)
      → KnownCase label fs
  unfolding trend_of
  trend_of_cases laws a b x y {label} c h =
      elim (Bool-cases (is_nonpositive a || is_nonpositive b)) [
        | inl e ↦ inl (no_counts a b x y c e (rw e at h))
        | inr e ↦
            elim (Bool-cases
              ((lt one_float x || lt x zero_float) || (lt one_float y || lt y zero_float))) [
                | inl f ↦ cc (rw (e, f) at h)
                | inr f ↦
                    let same : trend_label fl x y ≡ label = cc (ok_injective (rw (e, f) at h)) in
                    let (k, p) = positive_of a (ground arith) in
                    let (l, q) = positive_of b (ground arith) in
                    let fin_x = Reads-finite fl _ x c.ma_is in
                    let fin_y = Reads-finite fl _ y c.mom_is in
                    inr (
                      record {
                        ma_less = k;
                        mom_less = l;
                        ma = x;
                        mom = y;
                        cells =
                            subst (λ m. TrendCells m (pos (suc l)) x y) p
                              (subst (λ m. TrendCells a m x y) q c);
                        ma_in_unit = in_unit laws x fin_x (ground arith);
                        mom_in_unit = in_unit laws y fin_y (ground arith);
                        sides =
                            subst
                              (Sides fl half_float x y "BROAD_POSITIVE" "BROAD_NEGATIVE" "MIXED")
                              same
                              (unfold trend_label in
                                side_label fl laws half_float x y _ _ _ laws.half_finite fin_x
                                  fin_y);
                      },
                      cc (ok_injective (rw (e, f) at h)),
                    )
              ]
      ]

  abbrev NoneMissing : Type 0
  NoneMissing = any (λ n. is_null fl (row n)) trend_names ≡ false

  not_missing :
      {label : String} {fs : List Finding} (n : String)
      → NoneMissing
      → Memᴰ n trend_names
      → row n ≡ null
      → KnownCase label fs
  not_missing n h m e =
      cc (any-of_mem (λ x. is_null fl (row x)) n trend_names m ((is_null_iff fl (row n)).1 e), h)

  trend_parsed_cases :
      IsOrdered fl
      → (a b : Option ℤ) (x y : Option Float) {label : String} {fs : List Finding} → NoneMissing
      → count fl row "valid_ma20_count" ≡ ok a
      → count fl row "valid_mom20_count" ≡ ok b
      → number fl row "pct_above_ma20_observed" ≡ ok x
      → number fl row "pct_positive_mom20_observed" ≡ ok y
      → trend_parsed fl row trade_date a b x y ≡ ok (label, fs)
      → KnownCase label fs
  unfolding trend_parsed
  trend_parsed_cases laws none b x y here p q r s h =
      not_missing "valid_ma20_count" here (Memᴰ.head refl) (count-none fl row "valid_ma20_count" p)
  trend_parsed_cases laws (some a) none x y here p q r s h =
      not_missing "valid_mom20_count" here (Memᴰ.tail (Memᴰ.tail (Memᴰ.head refl)))
        (count-none fl row "valid_mom20_count" q)
  trend_parsed_cases laws (some a) (some b) none y here p q r s h =
      not_missing "pct_above_ma20_observed" here (Memᴰ.tail (Memᴰ.head refl))
        (number-none fl row "pct_above_ma20_observed" r)
  trend_parsed_cases laws (some a) (some b) (some x) none here p q r s h =
      not_missing "pct_positive_mom20_observed" here
        (Memᴰ.tail (Memᴰ.tail (Memᴰ.tail (Memᴰ.head refl))))
        (number-none fl row "pct_positive_mom20_observed" s)
  trend_parsed_cases laws (some a) (some b) (some x) (some y) here p q r s h =
      trend_of_cases laws a b x y
        (record {
          ma_count_is = count-some fl row "valid_ma20_count" a p;
          mom_count_is = count-some fl row "valid_mom20_count" b q;
          ma_is = number-some fl row "pct_above_ma20_observed" x r;
          mom_is = number-some fl row "pct_positive_mom20_observed" y s;
        })
        h

  trend_present_cases :
      {label : String} {fs : List Finding}
      → IsOrdered fl
      → NoneMissing
      → trend_present fl row trade_date ≡ ok (label, fs)
      → KnownCase label fs
  unfolding trend_present
  trend_present_cases laws here h =
      let (a, p, h1) = >>=-eq-ok (count fl row "valid_ma20_count") _ h in
      let (b, q, h2) = >>=-eq-ok (count fl row "valid_mom20_count") _ h1 in
      let (x, r, h3) = >>=-eq-ok (number fl row "pct_above_ma20_observed") _ h2 in
      let (y, s, h4) = >>=-eq-ok (number fl row "pct_positive_mom20_observed") _ h3 in
      trend_parsed_cases laws a b x y here p q r s h4

  missing_case :
      {label : String} {fs : List Finding}
      → any (λ n. is_null fl (row n)) trend_names ≡ true
      → trend_null fl row trade_date ≡ ok (label, fs)
      → Nulled fl row trade_date "trend_participation_state" trend_names label fs
  unfolding trend_null
  missing_case e h =
      let (n, m, f) = mem_of-any (λ n. is_null fl (row n)) trend_names e in
      Nulled-of fl row trade_date "trend_participation_state" trend_names n m
        ((is_null_iff fl (row n)).0 f) h

-- When the trend participation rule returns, one of three things holds. An input is missing, and the
-- answer is UNKNOWN with a finding that lists exactly the missing ones. No input is missing but a
-- count is not positive, and the answer is UNKNOWN with a finding that lists exactly those counts. Or
-- nothing is reported, both counts are positive, both ratios are finite and lie from 0 to 1, and the
-- label says that both are above one half, that both are below it, or that one half lies between
-- them. The order of finite floats is that of IEEE 754.
pub trend_participation_cases :
    (fl : Floats) (row : Cells fl) (trade_date : ℕ) (label : String) (fs : List Finding)
    → IsOrdered fl
    → trend_participation fl row trade_date ≡ ok (label, fs)
    → Nulled fl row trade_date "trend_participation_state" trend_names label fs
      ⊎ NoCounts fl row trade_date label fs
      ⊎ (Trend fl row trade_date label × (fs ≡ []))
unfolding trend_participation
trend_participation_cases fl row trade_date label fs laws h =
    elim (Bool-cases (any (λ n. is_null fl (row n)) trend_names)) [
      | inl e ↦ inl (missing_case fl row trade_date e (rw e at h))
      | inr e ↦ inr (trend_present_cases fl row trade_date laws e (rw e at h))
    ]
