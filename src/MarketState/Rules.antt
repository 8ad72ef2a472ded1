-- ===== src/MarketState/Rules.antt =====
-- The four rules of state/engine.py. A rule that appends to the findings list returns the findings
-- that it appends; a state is its label.
pub mod Nulls
pub mod Labels
pub mod Signs
pub mod EmptyCounts
pub mod Trends
use a_share_analysis.Common.{
  ℕ, zero, suc, ◌+◌, String, Bool, true, false, not, ◌&&◌, ◌||◌, Option, none, some, List, [], ◌∷◌,
  Result, ok, err, ◌>>=◌, ◌>>◌, guard, keep, any, ltb, ◌==◌, str_eq, ℤ, pos, negsuc, is_negative,
  is_nonpositive, magnitude, if◌then◌else◌,
}
use a_share_analysis.MarketState.Inputs.{
  Floats, Detail, null_inputs, empty_input, empty_inputs, StateError, counts_negative,
  count_invariant_violated, ratio_mismatch, ratio_out_of_range, unknown_dimension, Value, Cells,
  number, count, is_null,
}

-- StateFinding, its detail not yet printed
pub record Finding : Type 0 where
  pub trade_date : ℕ
  pub state_name : String
  pub finding_class : String
  pub detail : Detail

-- A rule's label, with the findings that it appends
abbrev pub Outcome : Type 0
Outcome = Result StateError (String × List Finding)

abbrev finding : ℕ → String → String → Detail → Finding
finding trade_date state_name finding_class detail = record {
  trade_date = trade_date;
  state_name = state_name;
  finding_class = finding_class;
  detail = detail;
}

abbrev unknown_with : Finding → Outcome
unknown_with f = ok ("UNKNOWN", f ∷ [])

dominance_label : (advancers decliners : ℕ) → String
dominance_label advancers decliners =
    if ltb decliners advancers
    then "ADVANCE_DOMINANT"
    else if ltb advancers decliners
    then "DECLINE_DOMINANT"
    else "BALANCED"

pub empty_counts : (ma_count mom_count : ℤ) → List String
empty_counts ma_count mom_count =
    let mom = if is_nonpositive mom_count then "valid_mom20_count" ∷ [] else [] in
    if is_nonpositive ma_count then "valid_ma20_count" ∷ mom else mom

abbrev pub trend_names : List String
trend_names =
    "valid_ma20_count" ∷ "pct_above_ma20_observed" ∷ "valid_mom20_count"
    ∷ "pct_positive_mom20_observed" ∷ []

module _ (fl : Floats) where
  open fl use {Float, lt, eq, divide, zero_float, half_float, one_float}

  pub null_names : Cells fl → List String → List String
  unfolding keep is_null
  null_names row names = keep (λ n. is_null fl (row n)) names

  center_label : Float → Float → String
  center_label mean median =
      if lt zero_float mean && lt zero_float median
      then "POSITIVE_CENTER"
      else if lt mean zero_float && lt median zero_float
      then "NEGATIVE_CENTER"
      else "MIXED_CENTER"

  center_null : Cells fl → ℕ → Outcome
  unfolding null_names
  center_null row trade_date = unknown_with (
      finding trade_date "return_center_state" "STATE_INPUT_NULL" (
        null_inputs
          (null_names row ("mean_raw_return_observed" ∷ "median_raw_return_observed" ∷ []))))

  center_of : Cells fl → ℕ → Option Float → Option Float → Outcome
  unfolding center_label center_null
  center_of row trade_date (some mean) (some median) = ok (center_label mean median, [])
  center_of row trade_date (some mean) none = center_null row trade_date
  center_of row trade_date none median = center_null row trade_date

  -- _return_center
  unfoldable pub return_center : Cells fl → ℕ → Outcome
  unfolding number center_of
  return_center row trade_date = do
    mean ← number fl row "mean_raw_return_observed"
    median ← number fl row "median_raw_return_observed"
    center_of row trade_date mean median

  -- the check of advancer_ratio_observed, where there is one
  check_ratio : Option Float → (advancers valid : ℕ) → Result StateError (Unit {0})
  check_ratio none advancers valid = ok tt
  check_ratio (some ratio) advancers valid =
      guard (eq ratio (divide advancers valid)) ratio_mismatch

  -- behind the test that the counts add up, where none of them is below 0
  participation_of : Cells fl → ℕ → (valid advancers decliners : ℕ) → Outcome
  unfolding number dominance_label check_ratio
  participation_of row trade_date zero advancers decliners = unknown_with (
      finding trade_date "daily_participation_state" "STATE_INPUT_EMPTY_DENOMINATOR"
        (empty_input "valid_raw_return_count" (pos zero)))
  participation_of row trade_date (suc n) advancers decliners = do
    ratio ← number fl row "advancer_ratio_observed"
    check_ratio ratio advancers (suc n)
    ok (dominance_label advancers decliners, [])

  unfoldable pub participation_checked :
      Cells fl → ℕ → (valid advancers decliners unchanged : ℤ) → Outcome
  unfolding participation_of
  participation_checked row trade_date valid advancers decliners unchanged = do
    guard
        (not (
          is_negative valid
          || is_negative advancers
          || is_negative decliners
          || is_negative unchanged))
        counts_negative
    guard (magnitude advancers + magnitude decliners + magnitude unchanged == magnitude valid)
        count_invariant_violated
    participation_of row trade_date (magnitude valid) (magnitude advancers) (magnitude decliners)

  participation_null : Cells fl → ℕ → Outcome
  unfolding null_names
  participation_null row trade_date = unknown_with (
      finding trade_date "daily_participation_state" "STATE_INPUT_NULL" (
        null_inputs (
          null_names row (
            "valid_raw_return_count" ∷ "advancer_count" ∷ "decliner_count" ∷ "unchanged_count"
            ∷ []))))

  unfoldable pub participation_counts :
      Cells fl → ℕ → (valid advancers decliners unchanged : Option ℤ) → Outcome
  unfolding participation_checked participation_null
  participation_counts row trade_date (some v) (some a) (some d) (some u) =
      participation_checked row trade_date v a d u
  participation_counts row trade_date _ _ _ _ = participation_null row trade_date

  -- _daily_participation
  unfoldable pub daily_participation : Cells fl → ℕ → Outcome
  unfolding count participation_counts
  daily_participation row trade_date = do
    valid ← count fl row "valid_raw_return_count"
    advancers ← count fl row "advancer_count"
    decliners ← count fl row "decliner_count"
    unchanged ← count fl row "unchanged_count"
    participation_counts row trade_date valid advancers decliners unchanged

  trend_label : Float → Float → String
  trend_label ma mom =
      if lt half_float ma && lt half_float mom
      then "BROAD_POSITIVE"
      else if lt ma half_float && lt mom half_float
      then "BROAD_NEGATIVE"
      else "MIXED"

  abbrev outside_unit : Float → Bool
  outside_unit f = lt one_float f || lt f zero_float

  trend_of : ℕ → (ma_count mom_count : ℤ) → Float → Float → Outcome
  unfolding trend_label empty_counts
  trend_of trade_date ma_count mom_count ma mom =
      if is_nonpositive ma_count || is_nonpositive mom_count
      then unknown_with (
          finding trade_date "trend_participation_state" "STATE_INPUT_EMPTY_DENOMINATOR"
            (empty_inputs (empty_counts ma_count mom_count)))
      else if outside_unit ma || outside_unit mom
      then err ratio_out_of_range
      else ok (trend_label ma mom, [])

  trend_null : Cells fl → ℕ → Outcome
  unfolding null_names
  trend_null row trade_date = unknown_with (
      finding trade_date "trend_participation_state" "STATE_INPUT_NULL"
        (null_inputs (null_names row trend_names)))

  -- Behind the test that no input is null; a null one cannot come here.
  trend_parsed : Cells fl → ℕ → (ma_count mom_count : Option ℤ) → (ma mom : Option Float) → Outcome
  unfolding trend_of trend_null
  trend_parsed row trade_date (some a) (some b) (some p) (some q) = trend_of trade_date a b p q
  trend_parsed row trade_date _ _ _ _ = trend_null row trade_date

  trend_present : Cells fl → ℕ → Outcome
  unfolding count number trend_parsed
  trend_present row trade_date = do
    ma_count ← count fl row "valid_ma20_count"
    mom_count ← count fl row "valid_mom20_count"
    ma ← number fl row "pct_above_ma20_observed"
    mom ← number fl row "pct_positive_mom20_observed"
    trend_parsed row trade_date ma_count mom_count ma mom

  -- _trend_participation
  unfoldable pub trend_participation : Cells fl → ℕ → Outcome
  unfolding any is_null trend_null trend_present
  trend_participation row trade_date =
      if any (λ n. is_null fl (row n)) trend_names
      then trend_null row trade_date
      else trend_present row trade_date
