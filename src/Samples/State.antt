-- ===== src/Samples/State.antt =====
-- The State rules at a concrete market row, over fixed-point numbers in thousandths.
use a_share_analysis.Common.{
  ◌+◌, ◌*◌, ◌/◌, ◌&&◌, ◌≡◌, refl, ◌⊎◌, arith, ◌↔◌, Bool, true, false, not, some, List, [], ok,
  str_eq, ltb, ℤ, pos, negsuc, if◌then◌else◌,
}
use a_share_analysis.MarketState.Inputs.{Floats, null, integer, real, Cells}
use a_share_analysis.MarketState.Specs.{v1_state_set}
use a_share_analysis.MarketState.Registry.{compile_state_execution_plan}
use a_share_analysis.MarketState.Registry.Exact.{v1_plan, compile_iff}
use a_share_analysis.MarketState.Rules.{
  Finding, return_center, daily_participation, trend_participation,
}
use a_share_analysis.MarketState.Rules.Labels.{
  NoReturns, count_names, Participation, daily_participation_cases,
}
use a_share_analysis.MarketState.Inputs.Reads.{IsOrdered}
use a_share_analysis.MarketState.Rules.{trend_names}
use a_share_analysis.MarketState.Rules.Nulls.{Nulled}
use a_share_analysis.MarketState.Rules.Signs.{Center, center_names, return_center_cases}
use a_share_analysis.MarketState.Rules.Trends.{NoCounts, Trend, trend_participation_cases}

abbrev int_lt : ℤ → ℤ → Bool
int_lt (pos m) (pos n) = ltb m n
int_lt (pos m) (negsuc n) = false
int_lt (negsuc m) (pos n) = true
int_lt (negsuc m) (negsuc n) = ltb n m

abbrev thousand_times : ℤ → ℤ
thousand_times (pos n) = pos (n * 1000)
thousand_times (negsuc n) = negsuc (n * 1000 + 999)

abbrev pub thousandths : Floats
thousandths = record {
  Float = ℤ;
  is_finite = λ f. true;
  of_int = λ n. some (thousand_times n);
  divide = λ m n. pos (m * 1000 / n);
  lt = int_lt;
  eq = λ a b. not (int_lt a b) && not (int_lt b a);
  zero_float = pos 0;
  half_float = pos 500;
  one_float = pos 1000;
}

abbrev pub market_row : Cells thousandths
market_row name =
    if str_eq name "mean_raw_return_observed"
    then real (pos 7)
    else if str_eq name "median_raw_return_observed"
    then real (pos 2)
    else if str_eq name "valid_raw_return_count"
    then integer (pos 10)
    else if str_eq name "advancer_count"
    then integer (pos 6)
    else if str_eq name "decliner_count"
    then integer (pos 3)
    else if str_eq name "unchanged_count"
    then integer (pos 1)
    else if str_eq name "advancer_ratio_observed"
    then real (pos 600)
    else if str_eq name "valid_ma20_count"
    then integer (pos 10)
    else if str_eq name "pct_above_ma20_observed"
    then real (pos 700)
    else if str_eq name "valid_mom20_count"
    then integer (pos 10)
    else if str_eq name "pct_positive_mom20_observed"
    then real (pos 300)
    else null

returned_in_daily_participation_cases :
    daily_participation thousandths market_row 9 ≡ ok ("ADVANCE_DOMINANT", [])
unfolding daily_participation
returned_in_daily_participation_cases = refl

thousandths-IsOrdered : IsOrdered thousandths
thousandths-IsOrdered = record {
  total = λ x y f g h. ground arith;
  zero_finite = refl;
  half_finite = refl;
  one_finite = refl;
}

abbrev nothing : List Finding
nothing = []

daily_participation_cases_example :
    Nulled thousandths market_row 9 "daily_participation_state" count_names "ADVANCE_DOMINANT" []
    ⊎ NoReturns thousandths market_row 9 "ADVANCE_DOMINANT" []
    ⊎ (Participation thousandths market_row 9 "ADVANCE_DOMINANT" × (nothing ≡ []))
daily_participation_cases_example =
    daily_participation_cases thousandths market_row 9 "ADVANCE_DOMINANT" []
      returned_in_daily_participation_cases

returned_in_return_center_cases :
    return_center thousandths market_row 9 ≡ ok ("POSITIVE_CENTER", [])
unfolding return_center
returned_in_return_center_cases = refl

return_center_cases_example :
    Nulled thousandths market_row 9 "return_center_state" center_names "POSITIVE_CENTER" []
    ⊎ (Center thousandths market_row "POSITIVE_CENTER" × (nothing ≡ []))
return_center_cases_example =
    return_center_cases thousandths market_row 9 "POSITIVE_CENTER" [] thousandths-IsOrdered
      returned_in_return_center_cases

returned_in_trend_participation_cases :
    trend_participation thousandths market_row 9 ≡ ok ("MIXED", [])
unfolding trend_participation
returned_in_trend_participation_cases = refl

trend_participation_cases_example :
    Nulled thousandths market_row 9 "trend_participation_state" trend_names "MIXED" []
    ⊎ NoCounts thousandths market_row 9 "MIXED" []
    ⊎ (Trend thousandths market_row 9 "MIXED" × (nothing ≡ []))
trend_participation_cases_example =
    trend_participation_cases thousandths market_row 9 "MIXED" [] thousandths-IsOrdered
      returned_in_trend_participation_cases

compile_iff_example :
    (compile_state_execution_plan v1_state_set ≡ ok v1_plan)
    ↔ ((v1_state_set ≡ v1_state_set) × (v1_plan ≡ v1_plan))
compile_iff_example = compile_iff v1_state_set v1_plan
