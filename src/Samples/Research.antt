-- ===== src/Samples/Research.antt =====
-- The research splits and the eligibility of a daily bar at concrete inputs.
use a_share_analysis.Common.{
  ℕ, ◌≡◌, refl, ◌↔◌, true, false, Option, none, some, ok, Text, str_eq, pos, if◌then◌else◌,
}
use a_share_analysis.MarketState.Inputs.{Cells, null, integer, real}
use a_share_analysis.Research.Splits.{
  development, validation_a, date, member, parse_date_value, assign_research_split,
  assert_research_split_date,
}
use a_share_analysis.Research.Splits.Windows.{
  Lies, readable, assign_research_split_iff, assert_research_split_date_iff,
}
use a_share_analysis.Research.Bars.{
  enabled_decision, evaluate_daily_bar, in_research, by_status, by_conflict, by_identity, returned,
  by_values, checked, by_prices,
}
use a_share_analysis.Research.Bars.Usable.{IsUsable, evaluate_daily_bar-IsUsable}
use a_share_analysis.Samples.State.{thousandths}

-- a reader of dates that knows no text
abbrev no_text : Text → Option ℕ
no_text t = none

assign_research_split_iff_example :
    (assign_research_split no_text (date 20240102) ≡ ok validation_a)
    ↔ ((d : ℕ) × (parse_date_value no_text (date 20240102) ≡ ok d) × Lies d validation_a)
assign_research_split_iff_example = assign_research_split_iff no_text (date 20240102) validation_a

assert_research_split_date_iff_example :
    (assert_research_split_date no_text (date 20240102) (member validation_a) ≡ ok 20240102) ↔ (
      (parse_date_value no_text (date 20240102) ≡ ok 20240102)
      × (assign_research_split no_text (date 20240102) ≡ ok validation_a)
      × (readable validation_a ≡ true))
assert_research_split_date_iff_example =
    assert_research_split_date_iff no_text (date 20240102) validation_a 20240102

abbrev bar : Cells thousandths
bar name =
    if str_eq name "open"
    then real (pos 10200)
    else if str_eq name "high"
    then real (pos 10900)
    else if str_eq name "low"
    then integer (pos 10)
    else if str_eq name "close"
    then real (pos 10400)
    else if str_eq name "volume"
    then integer (pos 800)
    else if str_eq name "amount"
    then integer (pos 8300)
    else null

evaluated_bar :
    evaluate_daily_bar thousandths bar none development (some "SSE") false ≡ ok enabled_decision
unfolding evaluate_daily_bar in_research by_status by_conflict by_identity returned by_values
    checked by_prices
evaluated_bar = refl

evaluate_daily_bar-IsUsable_example :
    (enabled_decision ≡ enabled_decision)
    × IsUsable thousandths bar none development (some "SSE") false
evaluate_daily_bar-IsUsable_example =
    evaluate_daily_bar-IsUsable thousandths bar none development (some "SSE") false enabled_decision
      evaluated_bar refl
