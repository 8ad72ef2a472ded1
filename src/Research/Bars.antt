-- ===== src/Research/Bars.antt =====
-- evaluate_daily_bar of research/eligibility.py: whether a daily bar may enter the research panel.
pub mod Amounts
pub mod Usable
use a_share_analysis.Common.{
  String, Bool, true, false, not, ◌&&◌, ◌||◌, Option, none, some, List, [], ◌∷◌, Result, ok, err,
  ◌>>=◌, any, str_eq, ℤ, if◌then◌else◌,
}
use a_share_analysis.MarketState.Inputs.{
  Floats, Value, null, other, boolean, integer, real, Cells, is_null,
}
use a_share_analysis.Research.Splits.{ResearchSplit, development, validation_a, holdout}

pub data ResearchEligibility : Type 0 where
  enabled disabled_unresolved experimental : ResearchEligibility

pub data ExclusionReason : Type 0 where
  outside_research_window identity_unresolved identity_conflict : ExclusionReason
  upstream_unresolved missing_required_value non_finite_value invalid_ohlc : ExclusionReason
  bse_identity_boundary_unresolved : ExclusionReason

pub data DataQualityState : Type 0 where
  verified unresolved invalid : DataQualityState

pub record EligibilityDecision : Type 0 where
  pub eligibility : ResearchEligibility
  pub exclusion_reason : Option ExclusionReason
  pub data_quality_state : DataQualityState

-- _disabled(reason), and _disabled(reason, invalid=True)
abbrev pub disabled : ExclusionReason → (is_invalid : Bool) → EligibilityDecision
disabled reason is_invalid = record {
  eligibility = disabled_unresolved;
  exclusion_reason = some reason;
  data_quality_state = if is_invalid then invalid else unresolved;
}

abbrev pub enabled_decision : EligibilityDecision
enabled_decision = record {
  eligibility = enabled;
  exclusion_reason = none;
  data_quality_state = verified;
}

abbrev pub experimental_decision : EligibilityDecision
experimental_decision = record {
  eligibility = experimental;
  exclusion_reason = some upstream_unresolved;
  data_quality_state = unresolved;
}

-- Why the loop over the values ends early: a decision, or float()'s OverflowError.
pub data Stop : Type 0 where
  decided : EligibilityDecision → Stop
  float_overflow : Stop

abbrev pub Answer : Type 0
Answer = Result Stop EligibilityDecision

-- `return decision` out of the loop
unfoldable pub returned : Answer → Answer
returned (ok d) = ok d
returned (err (decided d)) = ok d
returned (err float_overflow) = err float_overflow

abbrev pub required_value_fields : List String
required_value_fields = "open" ∷ "high" ∷ "low" ∷ "close" ∷ "volume" ∷ "amount" ∷ []

-- the split is one of the three that a panel reads
unfoldable pub in_research : ResearchSplit → Bool
in_research development = true
in_research validation_a = true
in_research holdout = true
in_research _ = false

module _ (fl : Floats) where
  open fl use {Float, is_finite, of_int, lt, zero_float}

  checked_float : Option Float → Result Stop (Option Float)
  checked_float none = err float_overflow
  checked_float (some f) =
      if not (is_finite f)
      then err (decided (disabled non_finite_value true))
      else if lt f zero_float
      then err (decided (disabled invalid_ohlc true))
      else ok (some f)

  -- the body of the loop over the fields: what it puts into `values`, if anything
  unfoldable pub checked : Value fl → Result Stop (Option Float)
  unfolding checked_float
  checked null = ok none
  checked other = err (decided (disabled invalid_ohlc true))
  checked (boolean b) = err (decided (disabled invalid_ohlc true))
  checked (integer n) = checked_float (of_int n)
  checked (real f) = checked_float (some f)

  abbrev pub larger_of : Float → Float → Float
  larger_of a b = if lt a b then b else a

  abbrev pub smaller_of : Float → Float → Float
  smaller_of a b = if lt b a then b else a

  unfoldable pub out_of_order : (open_price high low close : Float) → Bool
  out_of_order open_price high low close =
      lt high (larger_of open_price close) || lt (smaller_of open_price close) low || lt high low

  -- the tests behind the loop
  unfoldable pub by_prices :
      (exchange : String) → (open_price high low close : Option Float) → Answer
  unfolding out_of_order
  by_prices exchange (some o) (some h) (some l) (some c) =
      if out_of_order o h l c
      then ok (disabled invalid_ohlc true)
      else if str_eq exchange "BSE"
      then ok (disabled bse_identity_boundary_unresolved false)
      else ok enabled_decision
  by_prices exchange _ _ _ _ = ok (disabled invalid_ohlc true)

  -- the loop over the values, in the order of _NON_NEGATIVE_FIELDS
  unfoldable pub by_values : Cells fl → (exchange : String) → Answer
  by_values row exchange = do
    o ← checked (row "open")
    h ← checked (row "high")
    l ← checked (row "low")
    c ← checked (row "close")
    pre_close ← checked (row "pre_close")
    volume ← checked (row "volume")
    amount ← checked (row "amount")
    by_prices exchange o h l c

  -- the exchange of the identity record, if there is one
  unfoldable pub by_identity : Cells fl → Option String → Answer
  unfolding any is_null
  by_identity row none = ok (disabled identity_unresolved false)
  by_identity row (some exchange) =
      if any (λ name. is_null fl (row name)) required_value_fields
      then ok (disabled missing_required_value false)
      else returned (by_values row exchange)

  unfoldable pub by_conflict : Cells fl → Option String → (conflict : Bool) → Answer
  by_conflict row identity conflict =
      if conflict then ok (disabled identity_conflict false) else by_identity row identity

  -- `raw_status` is str() of the row's research_eligibility, none where it is None
  unfoldable pub by_status : Cells fl → Option String → Option String → (conflict : Bool) → Answer
  by_status row none identity conflict = by_conflict row identity conflict
  by_status row (some raw_status) identity conflict =
      if str_eq raw_status "RESEARCH_EXPERIMENTAL"
      then ok experimental_decision
      else if not (str_eq raw_status "RESEARCH_ENABLED")
      then ok (disabled upstream_unresolved false)
      else by_conflict row identity conflict

  unfoldable pub evaluate_daily_bar :
      Cells fl
      → (raw_status : Option String) → ResearchSplit
      → (identity : Option String) → (conflict : Bool) → Answer
  evaluate_daily_bar row raw_status split identity conflict =
      if not (in_research split)
      then ok (disabled outside_research_window false)
      else by_status row raw_status identity conflict
